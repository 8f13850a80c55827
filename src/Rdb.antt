-- ===== src/Rdb.antt =====
-- The stream of values that a module saves into an RDB file and loads again, as the functions
-- RedisModule_SaveUnsigned and RedisModule_SaveStringBuffer of Redis document it: values come back in the
-- order in which they were saved, and loading a value of the other kind ends the process.
use redisraft.Prelude.{
  ℕ, zero, suc, ◌-◌, ◌%◌, ◌^◌, ◌≡◌, refl, true, Option, none, some, List, [], ◌∷◌, ltb,
  if◌then◌else◌, arith, ℤ, pos, negsuc, fits, length, ◌>>=◌,
}
use redisraft.Wire.{Bytes}

pub data Item : Type 0 where
  unsigned : ℕ → Item
  buffer : Bytes → Item

abbrev pub Stream : Type 0
Stream = List Item

-- `none` is the end of the process
abbrev pub load_unsigned : Stream → Option (ℕ × Stream)
load_unsigned (unsigned n ∷ s) = some (n, s)
load_unsigned _ = none

abbrev pub load_buffer : Stream → Option (Bytes × Stream)
load_buffer (buffer b ∷ s) = some (b, s)
load_buffer _ = none

-- a signed value as the `uint64_t` argument
abbrev pub to_uint64 : ℤ → ℕ
to_uint64 (pos n) = n % 2 ^ 64
to_uint64 (negsuc n) = 2 ^ 64 - 1 - n % 2 ^ 64

-- a loaded value as an `int`, and as a `long`
abbrev pub to_int : ℕ → ℤ
to_int n = if ltb (n % 2 ^ 32) (2 ^ 31) then pos (n % 2 ^ 32) else negsuc (2 ^ 32 - 1 - n % 2 ^ 32)

abbrev pub to_long : ℕ → ℤ
to_long n = if ltb (n % 2 ^ 64) (2 ^ 63) then pos (n % 2 ^ 64) else negsuc (2 ^ 64 - 1 - n % 2 ^ 64)

pub to_int-to_uint64 : (v : ℤ) → fits (2 ^ 31) v ≡ true → to_int (to_uint64 v) ≡ v
to_int-to_uint64 (pos n) h = ground arith
to_int-to_uint64 (negsuc n) h = ground arith

pub to_long-to_uint64 : (v : ℤ) → fits (2 ^ 63) v ≡ true → to_long (to_uint64 v) ≡ v
to_long-to_uint64 (pos n) h = ground arith
to_long-to_uint64 (negsuc n) h = ground arith

-- values saved one after the other, and as many loaded
module _ {A : Type 0} where
  abbrev pub save_each : (A → Stream → Stream) → List A → Stream → Stream
  save_each save [] rest = rest
  save_each save (x ∷ xs) rest = save x (save_each save xs rest)

  abbrev pub load_times : (Stream → Option (A × Stream)) → ℕ → Stream → Option (List A × Stream)
  load_times load zero s = some ([], s)
  load_times load (suc n) s = do (x, s) ← load s; (xs, s) ← load_times load n s; some (x ∷ xs, s)

  abbrev pub All : (A → Type 0) → List A → Type 0
  All P [] = Unit
  All P (x ∷ xs) = P x × All P xs

  pub load_times-save_each :
      (P : A → Type 0) (save : A → Stream → Stream) (load : Stream → Option (A × Stream))
      → ((x : A) (s : Stream) → P x → load (save x s) ≡ some (x, s))
      → (xs : List A) (s : Stream) → All P xs
      → load_times load (length xs) (save_each save xs s) ≡ some (xs, s)
  load_times-save_each P save load back [] s all = refl
  load_times-save_each P save load back (x ∷ xs) s (p, all) =
      rw (back x (save_each save xs s) p, load_times-save_each P save load back xs s all) refl

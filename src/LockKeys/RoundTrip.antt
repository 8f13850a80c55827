-- ===== src/LockKeys/RoundTrip.antt =====
-- Which keys are locked.
use redisraft.Prelude.{
  ℕ, ◌+◌, ◌^◌, ◌<◌, ◌≤◌, ◌≡◌, ◌∙◌, refl, leb, bytes_eq, Bool, true, false, some, List, [], ◌∷◌,
  ◌++◌, ◌==◌, if◌then◌else◌, arith, length, length-append, drop-append, Bool-cases, inl, inr,
}
use redisraft.Wire.{Bytes, star, integer_text, calc_int_serialized_len}
use redisraft.Wire.Digits.{integer_text-eq-calc}
use redisraft.Wire.RoundTrip.{encode_integer-fits, decode_integer-text}
use redisraft.NodeAddr.Parse.{NoNul}
use redisraft.Dict.{IsDict}
use redisraft.LockKeys.Once.{has_key-collect, collect-IsDict}
use redisraft.LockKeys.{
  LockSet, has_key, insert, collect, no_keys, keys_text, serialize_lock, split_string, read_strings,
  deserialize_lock,
}

-- the bytes that the keys take, each with its NUL
abbrev pub keys_size : List Bytes → ℕ
keys_size [] = 0
keys_size (k ∷ keys) = keys_size keys + (length k + 1)

abbrev pub AllStrings : List Bytes → Type 0
AllStrings [] = Unit
AllStrings (k ∷ keys) = NoNul k × AllStrings keys

-- The iterator visits the keys of the dictionary, all of them and each once: as many, of the same size,
-- all of them C strings if those are, the same keys, and none twice if none is there twice.
pub record IsIterator (order : List Bytes → List Bytes) : Type 0 where
  pub same_count : (keys : List Bytes) → length (order keys) ≡ length keys
  pub same_size : (keys : List Bytes) → keys_size (order keys) ≡ keys_size keys
  pub strings : (keys : List Bytes) → AllStrings keys → AllStrings (order keys)
  pub same_keys : (keys : List Bytes) (k : Bytes) → has_key (order keys) k ≡ has_key keys k
  pub once : (keys : List Bytes) → IsDict bytes_eq keys → IsDict bytes_eq (order keys)

-- The counters count the keys.
record IsCounted (set : LockSet) : Type 0 where
  total : set.total_key_size ≡ keys_size set.keys
  num : set.num_keys ≡ length set.keys

insert-IsCounted : (set : LockSet) (k : Bytes) → IsCounted set → IsCounted (insert set k)
unfolding insert
insert-IsCounted set k c = elim (Bool-cases (has_key set.keys k)) [
  | inl there ↦ rw there c
  | inr fresh ↦ rw fresh (record { total = omega (arith, c.total); num = omega (arith, c.num) })
]

collect-IsCounted :
    (argv : List Bytes) (set : LockSet) → IsCounted set → IsCounted (collect argv set)
unfolding collect
collect-IsCounted [] set c = c
collect-IsCounted (k ∷ argv) set c =
    collect-IsCounted argv (insert set k) (insert-IsCounted set k c)

AllStrings-if :
    (b : Bool) (x y : LockSet)
    → AllStrings x.keys
    → AllStrings y.keys
    → AllStrings (if b then x else y).keys
AllStrings-if true x y hx hy = hx
AllStrings-if false x y hx hy = hy

insert-AllStrings :
    (set : LockSet) (k : Bytes) → AllStrings set.keys → NoNul k → AllStrings (insert set k).keys
unfolding insert
insert-AllStrings set k s n = AllStrings-if (has_key set.keys k) set _ s (n, s)

collect-AllStrings :
    (argv : List Bytes) (set : LockSet)
    → AllStrings argv
    → AllStrings set.keys
    → AllStrings (collect argv set).keys
unfolding collect
collect-AllStrings [] set a s = s
collect-AllStrings (k ∷ argv) set a s =
    collect-AllStrings argv (insert set k) a.1 (insert-AllStrings set k s a.0)

-- the keys one after the other, each with a NUL
abbrev joined : List Bytes → Bytes
joined [] = []
joined (k ∷ keys) = k ++ 0 ∷ joined keys

length-joined : (keys : List Bytes) → length (joined keys) ≡ keys_size keys
length-joined [] = refl
length-joined (k ∷ keys) = omega (arith, length-append k (0 ∷ joined keys), length-joined keys)

-- no assertion fails where the size counts all keys
keys_text-joined :
    (total : ℕ) (keys : List Bytes)
    → keys_size keys ≤ total
    → keys_text total keys ≡ some (joined keys)
unfolding keys_text
keys_text-joined total [] h = refl
keys_text-joined total (k ∷ keys) h =
    let room : leb (length k + 1) total ≡ true = ground (arith, h) in
    rw (keys_text-joined total keys (omega arith), room) refl

split_string-append : (k rest : Bytes) → NoNul k → split_string (k ++ 0 ∷ rest) ≡ some (k, rest)
unfolding split_string
split_string-append [] rest h = refl
split_string-append (c ∷ k) rest h = ground (arith, split_string-append k rest h.1)

read_strings-text :
    (keys : List Bytes) → AllStrings keys → read_strings (length keys) (joined keys) ≡ some keys
unfolding read_strings
read_strings-text [] h = refl
read_strings-text (k ∷ keys) h =
    rw (split_string-append k (joined keys) h.0, read_strings-text keys h.1)

deserialize_lock-text :
    (keys : List Bytes) (num : ℕ)
    → AllStrings keys
    → num ≡ length keys
    → num < 10 ^ 7
    → deserialize_lock (integer_text star num ++ joined keys) ≡ some keys
unfolding deserialize_lock
deserialize_lock-text keys num h e small =
    rw
      (
        decode_integer-text star num (joined keys) (omega arith),
        drop-append (integer_text star num) (joined keys),
        e,
      )
      (read_strings-text keys h)

no_keys-collect :
    (argv : List Bytes) (k : Bytes) → has_key (collect argv no_keys).keys k ≡ has_key argv k
unfolding has_key
no_keys-collect argv k = ground (arith, has_key-collect argv no_keys k)

-- Fewer than ten million keys of fewer than 2^31 bytes, all of them C strings, are serialized with no failed assertion if
-- the printed number of keys is shorter than the keys with their NULs; and the entry is read
-- back as a list in the order of the iterator that has exactly the given keys, none of them twice.
pub deserialize-serialize_lock :
    (order : List Bytes → List Bytes) (argv : List Bytes)
    → IsIterator order
    → AllStrings argv
    → (collect argv no_keys).num_keys < 10 ^ 7
    → (collect argv no_keys).total_key_size < 2 ^ 31
    → length (integer_text star (collect argv no_keys).num_keys)
      < (collect argv no_keys).total_key_size
    → (entry : Bytes) × (serialize_lock order argv ≡ some entry)
      × (deserialize_lock entry ≡ some (order (collect argv no_keys).keys))
      × ((k : Bytes) → has_key (order (collect argv no_keys).keys) k ≡ has_key argv k)
      × IsDict bytes_eq (order (collect argv no_keys).keys)
unfolding serialize_lock
deserialize-serialize_lock order argv it strings few small fits =
    let set = collect argv no_keys in
    let counted = collect-IsCounted argv no_keys (record { total = refl; num = refl }) in
    let text = integer_text star set.num_keys ++ joined (order set.keys) in
    let written =
      keys_text-joined set.total_key_size (order set.keys)
        (omega (arith, it.same_size set.keys, counted.total)) in
    let full : (length text == calc_int_serialized_len set.num_keys + set.total_key_size) ≡ true =
      ground (
        arith,
        length-append (integer_text star set.num_keys) (joined (order set.keys)),
        length-joined (order set.keys),
        it.same_size set.keys,
        counted.total,
        integer_text-eq-calc star set.num_keys few,
      ) in
    (
      text,
      rw (encode_integer-fits star set.total_key_size set.num_keys small fits, written, full) refl,
      deserialize_lock-text (order set.keys) set.num_keys
          (it.strings set.keys (collect-AllStrings argv no_keys strings tt))
          (omega (arith, counted.num, it.same_count set.keys)) few,
      (λ k. it.same_keys set.keys k ∙ no_keys-collect argv k),
      it.once set.keys (collect-IsDict argv no_keys tt),
    )

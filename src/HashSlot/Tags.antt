-- ===== src/HashSlot/Tags.antt =====
-- Which part of a key is hashed.
use redisraft.Prelude.{
  if◌then◌else◌, Bool, ℕ, suc, ◌+◌, ◌-◌, ◌<◌, ◌≡◌, ◌≢◌, refl, [], ◌∷◌, ◌++◌, arith, length,
  length-append, take-append, drop-append_suc, ◌==◌, ◌||◌, true, false,
}
use redisraft.Wire.{Bytes}
use redisraft.HashSlot.{open_brace, close_brace, find, slot_of, key_hash_slot}

-- the byte does not stand in the string
abbrev pub Lacks : ℕ → Bytes → Type 0
Lacks c [] = Unit
Lacks c (b ∷ s) = (b ≢ c) × Lacks c s

find-Lacks : (c : ℕ) (s : Bytes) → Lacks c s → find c s ≡ length s
unfolding find
find-Lacks c [] h = refl
find-Lacks c (b ∷ s) h = ground (arith, find-Lacks c s h.1)

find-append : (c : ℕ) (a b : Bytes) → Lacks c a → find c (a ++ c ∷ b) ≡ length a
unfolding find
find-append c [] b h = ground arith
find-append c (x ∷ a) b h = ground (arith, find-append c a b h.1)

below : (a b : ℕ) → a < b → (a == b) ≡ false
below a b h = ground arith

above : (a b : ℕ) → b < a → (a == b) ≡ false
above a b h = ground arith

same : (n : ℕ) → (n + 1 + 0 == n + 1) ≡ true
same n = ground arith

length_pos : (s : Bytes) → s ≢ [] → 0 < length s
length_pos [] h = absurd (h refl)
length_pos (c ∷ s) h = omega arith

either : (b : Bool) (x y : ℕ) → (if b || true then x else y) ≡ x
either true x y = refl
either false x y = refl

module _ (crc : Bytes → ℕ) where
  -- A key hashes to one of the 16384 slots.
  pub key_hash_slot-lt : (key : Bytes) → key_hash_slot crc key < 16384
  unfolding key_hash_slot slot_of
  key_hash_slot-lt key = ground arith

  -- A key with no opening brace is hashed whole.
  pub key_hash_slot-plain :
      (key : Bytes) → Lacks open_brace key → key_hash_slot crc key ≡ slot_of crc key
  unfolding key_hash_slot
  key_hash_slot-plain key h = ground (arith, find-Lacks open_brace key h)

  -- With a tag that is not empty, the tag alone is hashed: the bytes from the first opening brace
  -- to the first closing brace behind it, whatever stands around.
  pub key_hash_slot-tag :
      (before tag after : Bytes)
      → Lacks open_brace before
      → Lacks close_brace tag
      → tag ≢ []
      → key_hash_slot crc (before ++ open_brace ∷ (tag ++ close_brace ∷ after)) ≡ slot_of crc tag
  unfolding key_hash_slot
  key_hash_slot-tag before tag after h k n =
      let body = tag ++ close_brace ∷ after in
      let key = before ++ open_brace ∷ body in
      let size : length key ≡ length before + (length tag + suc (length after)) + 1 = omega (
        arith,
        length-append before (open_brace ∷ body),
        length-append tag (close_brace ∷ after),
      ) in
      let width : length before + 1 + length tag - length before - 1 ≡ length tag = omega arith in
      rw (
        find-append open_brace before body h,
        drop-append_suc before body open_brace,
        find-append close_brace tag after k,
        below (length before) (length key) (omega arith),
        below (length before + 1 + length tag) (length key) (omega arith),
        above (length before + 1 + length tag) (length before + 1)
            (omega (arith, length_pos tag n)),
        width,
        take-append tag (close_brace ∷ after),
      )

  -- An empty tag does not count: the key is hashed whole.
  pub key_hash_slot-empty_tag :
      (before after : Bytes)
      → Lacks open_brace before
      → let key = before ++ open_brace ∷ (close_brace ∷ after) in
        key_hash_slot crc key ≡ slot_of crc key
  unfolding key_hash_slot
  key_hash_slot-empty_tag before after h =
      let body = close_brace ∷ after in
      let key = before ++ open_brace ∷ body in
      let size : length key ≡ length before + suc (suc (length after)) =
        length-append before (open_brace ∷ body) in
      rw
        (
          find-append open_brace before body h,
          drop-append_suc before body open_brace,
          find-append close_brace [] after tt,
          below (length before) (length key) (omega arith),
          same (length before),
        )
        (either (length before + 1 + 0 == length key) _ _)

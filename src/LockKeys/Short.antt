-- ===== src/LockKeys/Short.antt =====
-- Keys too short to be locked.
use redisraft.Prelude.{ℕ, ◌+◌, ◌≤◌, ◌≡◌, refl, none, List, [], ◌∷◌, arith, length}
use redisraft.Wire.{digits, overflows_int_size, Bytes, star, integer_text, encode_integer}
use redisraft.LockKeys.{collect, serialize_lock, has_key, insert}

encode_one : (sz : ℕ) → sz ≤ 3 → encode_integer star sz 1 ≡ none
unfolding encode_integer integer_text overflows_int_size digits
encode_one sz h = ground arith

-- Locking a single key of at most two bytes fails an assertion: the number of keys is encoded with the size of
-- the keys for its room, and `*1` with its newline and a NUL is longer.
pub serialize_lock-short :
    (order : List Bytes → List Bytes) (k : Bytes)
    → length k ≤ 2
    → serialize_lock order (k ∷ []) ≡ none
unfolding serialize_lock collect insert has_key
serialize_lock-short order k h = rw (encode_one (0 + (length k + 1)) (omega arith)) refl

-- ===== src/Wire/Bounds.antt =====
-- How much the decoders consume: never more than the buffer holds.
use redisraft.Prelude.{
  ℕ, ◌+◌, ◌-◌, ◌*◌, ◌%◌, ◌≤◌, ◌<◌, ◌≡◌, some, [], ◌∷◌, arith, length, length-drop, Option-cases,
  inl, inr,
}
use redisraft.Wire.{Bytes, dollar, size_max, decode_digits, decode_integer, decode_string}

decode_digits_bounds :
    (buf : Bytes) (tmp len val n : ℕ)
    → tmp < size_max
    → decode_digits buf tmp len ≡ some (val, n)
    → (len < n) × (n ≤ len + length buf) × (val < size_max)
unfolding decode_digits
decode_digits_bounds [] tmp len val n t h = ground arith
decode_digits_bounds (c ∷ rest) tmp len val n t h =
    ground (arith, decode_digits_bounds rest ((tmp * 10 + (c - 48)) % size_max) (len + 1) val n)

-- A decoded integer takes at least 2 bytes and at most the whole buffer, and it is a `size_t`.
pub decode_integer_bounds :
    (buf : Bytes) (prefix val n : ℕ)
    → decode_integer buf prefix ≡ some (val, n)
    → (2 ≤ n) × (n ≤ length buf) × (val < size_max)
unfolding decode_integer
decode_integer_bounds [] prefix val n h = ground arith
decode_integer_bounds (c ∷ rest) prefix val n h =
    ground (arith, decode_digits_bounds rest 0 1 val n)

-- A decoded string and its newline lie in the buffer.
pub decode_string_bounds :
    (buf str : Bytes) (n : ℕ) → decode_string buf ≡ some (str, n) → (3 ≤ n) × (n ≤ length buf)
unfolding decode_string
decode_string_bounds buf str n h = elim (Option-cases (decode_integer buf dollar)) [
  | inl e ↦ ground arith
  | inr (r, e) ↦ ground (arith, decode_integer_bounds buf dollar r.0 r.1, length-drop r.1 buf)
]

-- ===== src/Wire/Digits.antt =====
-- Decimal printing, and reading it back.
use mathlib.Core.Path.{ap₂}
use native.Mathlib.Nat.{pow-suc, one-le-pow}
use redisraft.Prelude.{
  ℕ, zero, suc, ◌+◌, ◌-◌, ◌*◌, ◌/◌, ◌%◌, ◌^◌, ◌≤◌, ◌<◌, ◌≡◌, ap, ◌∙◌, inl, inr, [], ◌∷◌, ◌++◌,
  append_assoc, arith, ltb, lt→ltb, Bool-cases, length, length-append,
}
use redisraft.Wire.{
  Bytes, newline, size_max, decode_digits, digits, print_lu, calc_int_serialized_len, integer_text,
}

decode_digits-digit :
    (d tmp len : ℕ) (rest : Bytes)
    → d < 10
    → decode_digits ((48 + d) ∷ rest) tmp len
      ≡ decode_digits rest ((tmp * 10 + d) % size_max) (len + 1)
unfolding decode_digits
decode_digits-digit d tmp len rest h = let e : 48 + d - 48 ≡ d = omega arith in ground arith

-- Reading the digits of `n` leaves `n` in `tmp`.
pub decode_digits-digits :
    (fuel n len : ℕ) (rest : Bytes)
    → n < 10 ^ suc fuel
    → n < size_max
    → decode_digits (digits (suc fuel) n ++ rest) 0 len
      ≡ decode_digits rest n (len + length (digits (suc fuel) n))
unfolding digits
decode_digits-digits zero n len rest h k =
    rw (lt→ltb n 10 h)
      (decode_digits-digit n 0 len rest h ∙ ap (λ t. decode_digits rest t (len + 1)) (omega arith))
decode_digits-digits (suc fuel) n len rest h k = elim (Bool-cases (ltb n 10)) [
  | inl small ↦ rw small (
      decode_digits-digit n 0 len rest (ground arith)
      ∙ ap (λ t. decode_digits rest t (len + 1)) (omega arith))
  | inr large ↦
      let front = digits (suc fuel) (n / 10) in
      let small : n / 10 < 10 ^ suc fuel = omega (arith, pow-suc 10 (suc fuel)) in
      rw large (
        rw append_assoc (
          decode_digits-digits fuel (n / 10) len ((48 + n % 10) ∷ rest) small (omega arith)
          ∙ decode_digits-digit (n % 10) (n / 10) (len + length front) rest (omega arith)
          ∙ ap₂ (λ t l. decode_digits rest t l) (omega arith)
              (omega (arith, length-append front ((48 + n % 10) ∷ [])))))
]

pub length-digits : (fuel n k : ℕ) → n < 10 ^ k → 0 < k → length (digits fuel n) ≤ k
unfolding digits
length-digits zero n k h z = omega arith
length-digits (suc fuel) n zero h z = absurd (omega arith)
length-digits (suc fuel) n (suc zero) h z = ground arith
length-digits (suc fuel) n (suc (suc k)) h z = ground (
  arith,
  length-append (digits fuel (n / 10)) ((48 + n % 10) ∷ []),
  pow-suc 10 (suc k),
  length-digits fuel (n / 10) (suc k),
)

pub length-digits_pos : (fuel n : ℕ) → 0 < length (digits (suc fuel) n)
unfolding digits
length-digits_pos fuel n = ground (arith, length-append (digits fuel (n / 10)) ((48 + n % 10) ∷ []))

-- The computed size is enough for the prefix, the digits and the newline.
pub integer_text-le-calc :
    (prefix val : ℕ)
    → val < size_max
    → length (integer_text prefix val) ≤ calc_int_serialized_len val
unfolding calc_int_serialized_len integer_text
integer_text-le-calc prefix val h = ground (
  arith,
  length-append (print_lu val) (newline ∷ []),
  length-digits 20 val 1,
  length-digits 20 val 2,
  length-digits 20 val 3,
  length-digits 20 val 4,
  length-digits 20 val 5,
  length-digits 20 val 6,
  length-digits 20 val 7,
  length-digits 20 val 20,
)

-- A number of more than `k` digits prints as more than `k`.
pub digits_lower : (fuel n k : ℕ) → 10 ^ k ≤ n → k < fuel → k < length (digits fuel n)
unfolding digits
digits_lower zero n k h f = absurd (omega arith)
digits_lower (suc fuel) n zero h f = length-digits_pos fuel n
digits_lower (suc fuel) n (suc k) h f =
    let q : 10 ^ k ≤ n / 10 = omega (arith, pow-suc 10 k) in
    let one : 1 ≤ 10 ^ k = one-le-pow k 10 (omega arith) in
    ground (
      arith,
      pow-suc 10 k,
      length-append (digits fuel (n / 10)) ((48 + n % 10) ∷ []),
      digits_lower fuel (n / 10) k,
    )

-- The computed size is exact below ten million, and 22 from there on.
pub integer_text-eq-calc :
    (prefix val : ℕ) → val < 10 ^ 7 → length (integer_text prefix val) ≡ calc_int_serialized_len val
unfolding calc_int_serialized_len integer_text
integer_text-eq-calc prefix val h = ground (
  arith,
  length-append (print_lu val) (newline ∷ []),
  length-digits_pos 19 val,
  length-digits 20 val 1,
  length-digits 20 val 2,
  length-digits 20 val 3,
  length-digits 20 val 4,
  length-digits 20 val 5,
  length-digits 20 val 6,
  length-digits 20 val 7,
  digits_lower 20 val 1,
  digits_lower 20 val 2,
  digits_lower 20 val 3,
  digits_lower 20 val 4,
  digits_lower 20 val 5,
  digits_lower 20 val 6,
)

pub integer_text-lt-calc :
    (prefix val : ℕ)
    → 10 ^ 7 ≤ val
    → val < 10 ^ 19
    → length (integer_text prefix val) < calc_int_serialized_len val
unfolding calc_int_serialized_len integer_text
integer_text-lt-calc prefix val h k =
    ground (arith, length-append (print_lu val) (newline ∷ []), length-digits 20 val 19)

pub calc_bounds : (val : ℕ) → (3 ≤ calc_int_serialized_len val) × (calc_int_serialized_len val ≤ 22)
unfolding calc_int_serialized_len
calc_bounds val = ground arith

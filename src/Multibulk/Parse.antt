-- ===== src/Multibulk/Parse.antt =====
-- How the digits of a printed number are scanned.
use native.Mathlib.Nat.{pow-suc}
use redisraft.Prelude.{
  ℕ, zero, suc, ◌+◌, ◌/◌, ◌^◌, ◌≤◌, ◌<◌, ◌≡◌, refl, ◌∙◌, Bool, true, false, some, [], ◌∷◌, ◌++◌,
  ◌==◌, ltb, arith, Bool-cases, inl, inr, skip_spaces, scan_digits, ℤ, pos, negsuc, fits,
  append-nil,
}
use redisraft.Wire.{Bytes, print_lu, digits}
use redisraft.NodeAddr.Parse.{scan_digits-digits, no_spaces, no_sign, digit_first, in_range}
use redisraft.Multibulk.{crlf, scan_number, parse_signed, parse_unsigned, print_ℤ, scan_base}

-- what stands behind a number: nothing, or the end of the line
abbrev pub ending : Bool → Bytes
ending true = []
ending false = crlf

-- the string starts with a digit that is not 0
abbrev IsLeading : Bytes → Type 0
IsLeading [] = ⊥
IsLeading (c ∷ s) = (49 ≤ c) × (c ≤ 57)

IsLeading-append : (a b : Bytes) → IsLeading a → IsLeading (a ++ b)
IsLeading-append [] b h = absurd h
IsLeading-append (c ∷ a) b h = h

digits-IsLeading : (fuel n : ℕ) → 0 < n → n < 10 ^ fuel → IsLeading (digits fuel n)
unfolding digits
digits-IsLeading zero n h k = absurd (omega arith)
digits-IsLeading (suc fuel) n h k = elim (Bool-cases (ltb n 10)) [
  | inl small ↦ rw small (ground arith, ground arith)
  | inr large ↦ rw large (
      IsLeading-append (digits fuel (n / 10)) _
        (digits-IsLeading fuel (n / 10) (ground arith) (omega (arith, pow-suc 10 fuel))))
]

not_zero : (c : ℕ) → 49 ≤ c → (c == 48) ≡ false
not_zero c h = ground arith

scan_number-IsLeading :
    (s tail : Bytes) (n : ℕ)
    → IsLeading s
    → scan_digits 0 (s ++ tail) ≡ (n, tail)
    → scan_number (s ++ tail) ≡ some (false, n, tail)
unfolding scan_number
scan_number-IsLeading [] tail n h e = absurd h
scan_number-IsLeading (c ∷ s) tail n h e = rw (
  no_spaces c (s ++ tail) (omega (arith, h.0)),
  no_sign c (s ++ tail) (omega (arith, h.0)),
  not_zero c h.0,
  digit_first c (omega (arith, h.0)) h.1,
  e,
)

scan_number-minus :
    (s tail : Bytes) (n : ℕ)
    → IsLeading s
    → scan_digits 0 (s ++ tail) ≡ (n, tail)
    → scan_number (45 ∷ (s ++ tail)) ≡ some (true, n, tail)
unfolding scan_number skip_spaces
scan_number-minus [] tail n h e = absurd h
scan_number-minus (c ∷ s) tail n h e =
    rw (not_zero c h.0, digit_first c (omega (arith, h.0)) h.1, e)

scan_digits-ending : (n : ℕ) (b : Bool) → scan_digits n (ending b) ≡ (n, ending b)
unfolding scan_digits
scan_digits-ending n true = refl
scan_digits-ending n false = refl

scan_digits-print_lu :
    (n : ℕ) (b : Bool) → n < 2 ^ 64 → scan_digits 0 (print_lu n ++ ending b) ≡ (n, ending b)
scan_digits-print_lu n b h =
    scan_digits-digits 19 n (ending b) (omega arith) ∙ scan_digits-ending n b

scan_number-zero : (b : Bool) → scan_number (print_lu 0 ++ ending b) ≡ some (false, 0, ending b)
unfolding scan_number skip_spaces digits scan_base
scan_number-zero true = refl
scan_number-zero false = refl

pub scan_number-print_lu :
    (n : ℕ) (b : Bool)
    → n < 2 ^ 64
    → scan_number (print_lu n ++ ending b) ≡ some (false, n, ending b)
scan_number-print_lu zero b h = scan_number-zero b
scan_number-print_lu (suc n) b h =
    scan_number-IsLeading (print_lu (suc n)) (ending b) (suc n)
      (digits-IsLeading 20 (suc n) (omega arith) (omega arith)) (scan_digits-print_lu (suc n) b h)

-- A printed integer is parsed to itself, where it fits the type.
pub parse_signed-print_ℤ :
    (limit : ℕ) (v : ℤ) (b : Bool)
    → limit ≤ 2 ^ 63
    → fits limit v ≡ true
    → parse_signed limit (print_ℤ v ++ ending b) ≡ some (v, ending b)
unfolding parse_signed print_ℤ
parse_signed-print_ℤ limit (pos n) b l h =
    rw (scan_number-print_lu n b (ground (arith, h, l)), h) refl
parse_signed-print_ℤ limit (negsuc n) b l h =
    let small : suc n < 2 ^ 64 = ground (arith, h, l) in
    let next : n + 1 ≡ suc n = omega arith in
    rw
      (
        next,
        scan_number-minus (print_lu (suc n)) (ending b) (suc n)
            (digits-IsLeading 20 (suc n) (omega arith) (omega arith))
            (scan_digits-print_lu (suc n) b small),
        h,
      )
      refl

pub parse_unsigned-print_lu : (n : ℕ) → n < 2 ^ 64 → parse_unsigned (print_lu n) ≡ some n
unfolding parse_unsigned
parse_unsigned-print_lu n h =
    rw (← append-nil (print_lu n), scan_number-print_lu n true h, in_range n h) refl

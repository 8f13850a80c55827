-- ===== src/GroupText/Lines.antt =====
-- Lines and numbers on lines.
use redisraft.Prelude.{
  ℕ, suc, ◌+◌, ◌^◌, ◌≤◌, ◌<◌, ◌≡◌, ◌≢◌, refl, ◌∙◌, true, false, some, [], ◌∷◌, ◌++◌, arith, length,
  ◌==◌, strtoul, scan_digits, ltb,
}
use redisraft.Wire.{Bytes, newline, print_lu}
use redisraft.Wire.Digits.{length-digits_pos}
use redisraft.NodeAddr.Parse.{
  AllDigits, AllDigits-digits, scan_digits-digits, no_spaces, no_sign, digit_first, in_range, NoNul,
  c_string-NoNul,
}
use redisraft.GroupText.{line, split_line, parsed, read_number, read_name}

-- no newline stands in the string
abbrev pub IsOneLine : Bytes → Type 0
IsOneLine [] = Unit
IsOneLine (c ∷ s) = (c ≢ newline) × IsOneLine s

pub split_line-line : (s rest : Bytes) → IsOneLine s → split_line (line s rest) ≡ some (s, rest)
unfolding split_line
split_line-line [] rest h = ground arith
split_line-line (c ∷ s) rest h = ground (arith, split_line-line s rest h.1)

pub AllDigits-IsOneLine : (s : Bytes) → AllDigits s → IsOneLine s
AllDigits-IsOneLine [] h = tt
AllDigits-IsOneLine (c ∷ s) h = ((λ e. omega (arith, h.0, e)), AllDigits-IsOneLine s h.2)

pub IsOneLine-append : (a b : Bytes) → IsOneLine a → IsOneLine b → IsOneLine (a ++ b)
IsOneLine-append [] b ha hb = hb
IsOneLine-append (c ∷ a) b ha hb = (ha.0, IsOneLine-append a b ha.1 hb)

scan_digits-newline : (n : ℕ) (rest : Bytes) → scan_digits n (newline ∷ rest) ≡ (n, newline ∷ rest)
unfolding scan_digits
scan_digits-newline n rest = refl

strtoul-digits_line :
    (s rest : Bytes) (v : ℕ)
    → AllDigits s
    → 0 < length s
    → scan_digits 0 (line s rest) ≡ (v, newline ∷ rest)
    → v < 2 ^ 64
    → strtoul (line s rest) ≡ (v, newline ∷ rest)
unfolding strtoul
strtoul-digits_line [] rest v h l e b = absurd (omega arith)
strtoul-digits_line (c ∷ s) rest v h l e b = rw (
  no_spaces c (line s rest) h.0,
  no_sign c (line s rest) h.0,
  digit_first c h.0 h.1,
  e,
  in_range v b,
)

strtoul-line :
    (n : ℕ) (rest : Bytes) → n < 2 ^ 64 → strtoul (line (print_lu n) rest) ≡ (n, newline ∷ rest)
strtoul-line n rest h =
    strtoul-digits_line (print_lu n) rest n (AllDigits-digits 20 n) (length-digits_pos 19 n)
      (scan_digits-digits 19 n (newline ∷ rest) (omega arith) ∙ scan_digits-newline n rest) h

pub read_number-line :
    (n : ℕ) (rest : Bytes) → n < 2 ^ 64 → read_number (line (print_lu n) rest) ≡ parsed (n, rest)
unfolding read_number
read_number-line n rest h =
    let same : (suc (length rest) == length rest + 1) ≡ true = ground arith in
    rw (
      split_line-line (print_lu n) rest (AllDigits-IsOneLine (print_lu n) (AllDigits-digits 20 n)),
      strtoul-line n rest h,
      same,
    )

pub read_name-line :
    (k : ℕ) (s rest : Bytes)
    → IsOneLine s
    → NoNul s
    → length s ≤ k
    → read_name k (line s rest) ≡ parsed (s, rest)
unfolding read_name
read_name-line k s rest l n h =
    let fits : ltb k (length s) ≡ false = ground arith in
    rw (split_line-line s rest l, fits, c_string-NoNul s n)

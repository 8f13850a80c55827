-- ===== src/Multibulk/Number.antt =====
-- Numbers and strings that are written are read back.
use redisraft.Prelude.{
  ℕ, zero, suc, ◌+◌, ◌^◌, ◌≤◌, ◌<◌, ◌≡◌, ◌≢◌, refl, sym, ap, ◌∙◌, true, false, some, [], ◌∷◌, ◌++◌,
  ◌==◌, ltb, length, arith, ℤ, pos, negsuc, fits, append_assoc, length-append, take-append,
  drop-append,
}
use redisraft.Wire.{Bytes, newline, print_lu}
use redisraft.Wire.Digits.{length-digits}
use redisraft.NodeAddr.Parse.{AllDigits-digits}
use redisraft.GroupText.Lines.{IsOneLine, AllDigits-IsOneLine, IsOneLine-append}
use redisraft.Multibulk.{crlf, carriage_return, file_gets, file_read, read_len, print_ℤ, write_len}
use redisraft.Multibulk.Parse.{parse_signed-print_ℤ}

pub file_gets-line :
    (l rest : Bytes) (cap : ℕ)
    → IsOneLine l
    → length l < cap
    → file_gets cap (l ++ newline ∷ rest) ≡ some (l ++ newline ∷ [], rest)
unfolding file_gets
file_gets-line l rest zero h k = absurd (omega arith)
file_gets-line [] rest (suc cap) h k = ground arith
file_gets-line (c ∷ l) rest (suc cap) h k = ground (arith, file_gets-line l rest cap h.1)

pub file_read-append : (s rest : Bytes) → file_read (length s) (s ++ rest) ≡ some (s, rest)
unfolding file_read
file_read-append s rest =
    let enough : ltb (length (s ++ rest)) (length s) ≡ false =
      ground (arith, length-append s rest) in
    rw (enough, take-append s rest, drop-append s rest)

print_ℤ-IsOneLine : (v : ℤ) → IsOneLine (print_ℤ v)
unfolding print_ℤ
print_ℤ-IsOneLine (pos n) = AllDigits-IsOneLine (print_lu n) (AllDigits-digits 20 n)
print_ℤ-IsOneLine (negsuc n) =
    ((λ e. omega arith), AllDigits-IsOneLine (print_lu (n + 1)) (AllDigits-digits 20 (n + 1)))

pub length-digits_le : (n : ℕ) → n < 2 ^ 64 → length (print_lu n) ≤ 20
length-digits_le n h = length-digits 20 n 20 (omega arith) (omega arith)

pub length-print_ℤ :
    (limit : ℕ) (v : ℤ) → limit ≤ 2 ^ 63 → fits limit v ≡ true → length (print_ℤ v) ≤ 21
unfolding print_ℤ
length-print_ℤ limit (pos n) l h = omega (arith, length-digits_le n (ground (arith, h, l)))
length-print_ℤ limit (negsuc n) l h = omega (arith, length-digits_le (n + 1) (ground (arith, h, l)))

-- A length that is written is read back, as an integer that fits an int.
pub read_len-write_len :
    (type : ℕ) (v : ℤ) (rest : Bytes)
    → type ≢ newline
    → fits (2 ^ 31) v ≡ true
    → read_len type (write_len type v ++ rest) ≡ some (v, rest)
unfolding read_len write_len
read_len-write_len type v rest t h =
    let body = print_ℤ v ++ carriage_return ∷ [] in
    let one : IsOneLine body =
      IsOneLine-append (print_ℤ v) (carriage_return ∷ []) (print_ℤ-IsOneLine v)
        ((λ e. omega arith), tt) in
    let split : (type ∷ (print_ℤ v ++ crlf)) ++ rest ≡ (type ∷ body) ++ newline ∷ rest =
      ap (λ s. type ∷ s)
        (append_assoc (print_ℤ v) crlf rest
          ∙ sym (append_assoc (print_ℤ v) (carriage_return ∷ []) (newline ∷ rest))) in
    let joined : body ++ newline ∷ [] ≡ print_ℤ v ++ crlf =
      append_assoc (print_ℤ v) (carriage_return ∷ []) (newline ∷ []) in
    let same : (type == type) ≡ true = ground arith in
    rw
      (
        split,
        file_gets-line (type ∷ body) rest 62 (t, one)
            (omega (
              arith,
              length-append (print_ℤ v) (carriage_return ∷ []),
              length-print_ℤ (2 ^ 31) v (omega arith) h,
            )),
        same,
        joined,
        parse_signed-print_ℤ (2 ^ 31) v false (omega arith) h,
      )
      refl

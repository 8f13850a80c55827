-- ===== src/Multibulk/RoundTrip.antt =====
-- Strings and values that are written are read back.
use redisraft.Prelude.{
  ℕ, ◌+◌, ◌-◌, ◌^◌, ◌≤◌, ◌<◌, ◌≡◌, refl, true, false, some, [], ◌∷◌, ◌++◌, ltb, length, arith, ℤ,
  pos, negsuc, fits, append_assoc, append-nil, take-all,
}
use redisraft.Wire.{Bytes, dollar, print_lu}
use redisraft.NodeAddr.Parse.{AllDigits, AllDigits-digits, NoNul, c_string-NoNul}
use redisraft.Multibulk.{
  crlf, read_str, read_signed, read_unsigned, print_ℤ, write_len, write_str, write_signed,
  write_unsigned,
}
use redisraft.Multibulk.Number.{
  read_len-write_len, file_read-append, length-print_ℤ, length-digits_le,
}
use redisraft.Multibulk.Parse.{parse_signed-print_ℤ, parse_unsigned-print_lu}

-- A string that is shorter than the buffer, fits an int and holds no NUL is read back as it was written, whatever
-- follows it.
pub read_str-write_str :
    (size : ℕ) (s rest : Bytes)
    → length s < size
    → length s < 2 ^ 31
    → NoNul s
    → read_str size (write_str s ++ rest) ≡ some (s, rest)
unfolding read_str write_str
read_str-write_str size s rest short small n =
    let fitting : fits (2 ^ 31) (pos (length s)) ≡ true = ground arith in
    let room : ltb size (length s) ≡ false = ground arith in
    rw
      (
        append_assoc (write_len dollar (pos (length s))) (s ++ crlf) rest,
        append_assoc s crlf rest,
        read_len-write_len dollar (pos (length s)) (s ++ (crlf ++ rest)) (λ e. omega arith) fitting,
        room,
        file_read-append s (crlf ++ rest),
        file_read-append crlf rest,
        take-all s (size - 1) (omega arith),
        c_string-NoNul s n,
      )
      refl

AllDigits-NoNul : (s : Bytes) → AllDigits s → NoNul s
AllDigits-NoNul [] h = tt
AllDigits-NoNul (c ∷ s) h = ((λ e. omega (arith, h.0, e)), AllDigits-NoNul s h.2)

print_ℤ-NoNul : (v : ℤ) → NoNul (print_ℤ v)
unfolding print_ℤ
print_ℤ-NoNul (pos n) = AllDigits-NoNul (print_lu n) (AllDigits-digits 20 n)
print_ℤ-NoNul (negsuc n) =
    ((λ e. omega arith), AllDigits-NoNul (print_lu (n + 1)) (AllDigits-digits 20 (n + 1)))

-- An integer that fits its type, an int or a long, is read back as it was written, whatever follows
-- it.
pub read_signed-write_signed :
    (limit : ℕ) (v : ℤ) (rest : Bytes)
    → limit ≤ 2 ^ 63
    → fits limit v ≡ true
    → read_signed limit (write_signed v ++ rest) ≡ some (v, rest)
unfolding read_signed write_signed
read_signed-write_signed limit v rest l h =
    let short = length-print_ℤ limit v l h in
    rw
      (
        read_str-write_str 64 (print_ℤ v) rest (omega (arith, short)) (omega (arith, short))
            (print_ℤ-NoNul v),
        ← append-nil (print_ℤ v),
        parse_signed-print_ℤ limit v true l h,
      )
      refl

-- An unsigned number of 64 bits is read back as it was written, whatever follows it.
pub read_unsigned-write_unsigned :
    (n : ℕ) (rest : Bytes) → n < 2 ^ 64 → read_unsigned (write_unsigned n ++ rest) ≡ some (n, rest)
unfolding read_unsigned write_unsigned
read_unsigned-write_unsigned n rest h =
    rw
      (
        read_str-write_str 64 (print_lu n) rest (omega (arith, length-digits_le n h))
            (omega (arith, length-digits_le n h))
            (AllDigits-NoNul (print_lu n) (AllDigits-digits 20 n)),
        parse_unsigned-print_lu n h,
      )
      refl

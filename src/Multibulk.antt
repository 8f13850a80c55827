-- ===== src/Multibulk.antt =====
-- util.c: the numbers and strings of the log and metadata files, in the style of the Redis protocol.
-- What is left to read of a file is a list of bytes; `none` is a false result, or a read past the
-- caller's buffer, which a negative length makes.
pub mod Parse
pub mod Number
pub mod RoundTrip
pub mod Prefix
use redisraft.Prelude.{
  ℕ, zero, suc, ◌+◌, ◌-◌, ◌*◌, ◌^◌, ◌%◌, Bool, true, false, ◌&&◌, ◌||◌, not, Option, none, some,
  List, [], ◌∷◌, ◌++◌, ◌==◌, ◌>>=◌, leb, ltb, if◌then◌else◌, length, take, drop, c_string, is_digit,
  skip_spaces, sign_of, scan_digits, starts_with_digit, ℤ, pos, negsuc, fits, lt_ℤ,
}
use redisraft.Wire.{Bytes, newline, dollar, print_lu}

abbrev pub carriage_return : ℕ
carriage_return = 13

abbrev pub crlf : Bytes
crlf = carriage_return ∷ newline ∷ []

-- what a digit of a base above ten stands for; 99 is no digit
abbrev pub digit_value : ℕ → ℕ
digit_value c =
    if is_digit c
    then c - 48
    else if leb 97 c && leb c 122
    then c - 87
    else if leb 65 c && leb c 90
    then c - 55
    else 99

unfoldable pub scan_base : ℕ → ℕ → Bytes → ℕ × Bytes
scan_base base acc [] = (acc, [])
scan_base base acc (c ∷ s) =
    let next = scan_base base (acc * base + digit_value c) s in
    if ltb (digit_value c) base then next else (acc, c ∷ s)

abbrev pub is_hex_digit : Bytes → Bool
is_hex_digit [] = false
is_hex_digit (c ∷ s) = ltb (digit_value c) 16

-- behind a leading zero: hexadecimal after `x`, octal otherwise
abbrev pub scan_zero : Bytes → ℕ × Bytes
scan_zero [] = (0, [])
scan_zero (c ∷ s) =
    if (c == 120 || c == 88) && is_hex_digit s then scan_base 16 0 s else scan_base 8 0 (c ∷ s)

abbrev pub scan_any : Bytes → Option (ℕ × Bytes)
scan_any [] = none
scan_any (c ∷ s) =
    if c == 48
    then some (scan_zero s)
    else if is_digit c
    then some (scan_digits 0 (c ∷ s))
    else none

abbrev with_sign : Bool → Option (ℕ × Bytes) → Option (Bool × ℕ × Bytes)
with_sign negative none = none
with_sign negative (some (n, end)) = some (negative, n, end)

-- What `strtoll(s, &end, 0)` and `strtoull(s, &end, 0)` read: the sign, the digits' value and the
-- string at `end`; `none` where there are no digits.
unfoldable pub scan_number : Bytes → Option (Bool × ℕ × Bytes)
scan_number s = let (negative, body) = sign_of (skip_spaces s) in with_sign negative (scan_any body)

abbrev pub signed : Bool → ℕ → ℤ
signed false n = pos n
signed true zero = pos 0
signed true (suc n) = negsuc n

abbrev in_limit : ℕ → Bool × ℕ × Bytes → Option (ℤ × Bytes)
in_limit limit (negative, n, end) =
    let v = signed negative n in if fits limit v then some (v, end) else none

-- `parseLong` with `limit` 2^63, and `parseInt` with 2^31: the value, and the string at `*end`
unfoldable pub parse_signed : ℕ → Bytes → Option (ℤ × Bytes)
parse_signed limit s = do r ← scan_number s; in_limit limit r

abbrev pub unsigned : Bool × ℕ × Bytes → Option ℕ
unsigned (negative, n, end) =
    if leb (2 ^ 64) n then none else if negative then some ((2 ^ 64 - n) % 2 ^ 64) else some n

-- `parseULongLong`
unfoldable pub parse_unsigned : Bytes → Option ℕ
parse_unsigned s = do r ← scan_number s; unsigned r

abbrev cons_line : ℕ → Option (Bytes × Bytes) → Option (Bytes × Bytes)
cons_line c none = none
cons_line c (some (l, rest)) = some (c ∷ l, rest)

-- `FileGets` with room for `cap` bytes: the line with its newline, and what is left
unfoldable pub file_gets : ℕ → Bytes → Option (Bytes × Bytes)
file_gets zero s = none
file_gets (suc cap) [] = none
file_gets (suc cap) (c ∷ s) =
    let more = cons_line c (file_gets cap s) in if c == newline then some (c ∷ [], s) else more

-- `FileRead` of `n` bytes, which fails where fewer are left
unfoldable pub file_read : ℕ → Bytes → Option (Bytes × Bytes)
file_read n s = if ltb (length s) n then none else some (take n s, drop n s)

abbrev pub starts_with_crlf : Bytes → Bool
starts_with_crlf (a ∷ b ∷ s) = a == carriage_return && b == newline
starts_with_crlf _ = false

abbrev pub behind_type : ℕ → Bytes → Option Bytes
behind_type type [] = none
behind_type type (c ∷ s) = if c == type then some s else none

abbrev pub ended_by_crlf : ℤ × Bytes → Option ℤ
ended_by_crlf (v, end) = if starts_with_crlf end then some v else none

-- `multibulkReadLen`
unfoldable pub read_len : ℕ → Bytes → Option (ℤ × Bytes)
read_len type s = do
  (line, s) ← file_gets 62 s
  body ← behind_type type line
  r ← parse_signed (2 ^ 31) body
  v ← ended_by_crlf r
  some (v, s)

abbrev pub as_length : ℤ → Option ℕ
as_length (pos n) = some n
as_length (negsuc n) = none

abbrev pub is_crlf : Bytes × Bytes → Option Bytes
is_crlf (two, s) = if starts_with_crlf two then some s else none

-- `multibulkReadStr` into a buffer of `size` zeros, which then holds a C string
unfoldable pub read_str : ℕ → Bytes → Option (Bytes × Bytes)
read_str size s = do
  (v, s) ← read_len dollar s
  len ← as_length v
  if ltb size len then none else do
    (str, s) ← file_read len s
    two ← file_read 2 s
    s ← is_crlf two
    some (c_string (take (size - 1) str), s)

-- `multibulkReadLong` with `limit` 2^63 and `multibulkReadInt` with 2^31
unfoldable pub read_signed : ℕ → Bytes → Option (ℤ × Bytes)
read_signed limit s = do (str, s) ← read_str 64 s; (v, end) ← parse_signed limit str; some (v, s)

-- `multibulkReadUInt64`
unfoldable pub read_unsigned : Bytes → Option (ℕ × Bytes)
read_unsigned s = do (str, s) ← read_str 64 s; v ← parse_unsigned str; some (v, s)

-- `%d` and `%ld`
unfoldable pub print_ℤ : ℤ → Bytes
print_ℤ (pos n) = print_lu n
print_ℤ (negsuc n) = 45 ∷ print_lu (n + 1)

-- `multibulkWriteLen`
unfoldable pub write_len : ℕ → ℤ → Bytes
write_len prefix len = prefix ∷ (print_ℤ len ++ crlf)

-- `multibulkWriteStr`; the string holds no NUL
unfoldable pub write_str : Bytes → Bytes
write_str val = write_len dollar (pos (length val)) ++ (val ++ crlf)

-- `multibulkWriteLong` and `multibulkWriteInt`
unfoldable pub write_signed : ℤ → Bytes
write_signed val = write_str (print_ℤ val)

-- `multibulkWriteUInt64`
unfoldable pub write_unsigned : ℕ → Bytes
write_unsigned val = write_str (print_lu val)

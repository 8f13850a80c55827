-- ===== src/Wire.antt =====
-- serialization_utils.c: integers and strings in a textual form, `*12\n` and `$3\nfoo\n`.
-- A buffer of `sz` bytes at `p` is the list of those bytes, so `p += n; sz -= n` is `drop n`.
-- A writer is the bytes that it writes, or `none` where the C function returns -1.
pub mod Digits
pub mod Bounds
pub mod RoundTrip
pub mod Writer
mod Tests
use redisraft.Prelude.{
  ℕ, zero, suc, ◌+◌, ◌-◌, ◌*◌, ◌/◌, ◌%◌, ◌^◌, Bool, true, false, ◌||◌, not, Option, none, some,
  List, [], ◌∷◌, ◌++◌, ltb, leb, ◌==◌, if◌then◌else◌, length, take, drop,
}

-- bytes, as unsigned numbers
abbrev pub Bytes : Type 0
Bytes = List ℕ

-- the bytes `\n`, `*` and `$`
abbrev pub newline : ℕ
newline = 10

abbrev pub star : ℕ
star = 42

abbrev pub dollar : ℕ
dollar = 36

abbrev pub size_max : ℕ
size_max = 2 ^ 64

unfoldable pub calc_int_serialized_len : ℕ → ℕ
calc_int_serialized_len val =
    if ltb val 10
    then 3
    else if ltb val 100
    then 4
    else if ltb val 1000
    then 5
    else if ltb val 10000
    then 6
    else if ltb val 100000
    then 7
    else if ltb val 1000000
    then 8
    else if ltb val 10000000
    then 9
    else 22

-- A null pointer is `none`.
abbrev pub string_bytes : Option Bytes → Bytes
string_bytes none = []
string_bytes (some s) = s

unfoldable pub calc_serialize_string_size : Option Bytes → ℕ
calc_serialize_string_size str =
    let len = length (string_bytes str) in calc_int_serialized_len len + len + 1

-- the loop of `decodeInteger`: the rest of the buffer, `tmp` and `len`
pub decode_digits : Bytes → ℕ → ℕ → Option (ℕ × ℕ)
decode_digits [] tmp len = none
decode_digits (c ∷ rest) tmp len =
    let next = decode_digits rest ((tmp * 10 + (c - 48)) % size_max) (len + 1) in
    if c == newline then some (tmp, len + 1) else if ltb c b'0' || ltb b'9' c then none else next

-- The value, which the C function stores through `val`, and the bytes consumed, which it returns.
unfoldable pub decode_integer : Bytes → ℕ → Option (ℕ × ℕ)
unfolding decode_digits
decode_integer [] expect_prefix = none
decode_integer (c ∷ rest) expect_prefix =
    if ltb (length (c ∷ rest)) 3 || not (c == expect_prefix) then none else decode_digits rest 0 1

-- `%lu`: at most `fuel` decimal digits; 20 are enough for an `unsigned long`.
unfoldable pub digits : ℕ → ℕ → Bytes
digits zero n = []
digits (suc fuel) n =
    let front = digits fuel (n / 10) in
    if ltb n 10 then (48 + n) ∷ [] else front ++ (48 + n % 10) ∷ []

abbrev pub print_lu : ℕ → Bytes
print_lu n = digits 20 n

-- `n >= (int) sz`: the size is cut to 32 bits and read as signed.
unfoldable pub overflows_int_size : ℕ → ℕ → Bool
overflows_int_size n sz = let low = sz % 2 ^ 32 in if ltb low (2 ^ 31) then leb low n else true

-- what `snprintf(ptr, sz, "%c%lu\n", prefix, val)` prints
unfoldable pub integer_text : ℕ → ℕ → Bytes
integer_text prefix val = prefix ∷ (print_lu val ++ newline ∷ [])

unfoldable pub encode_integer : ℕ → ℕ → ℕ → Option Bytes
unfolding overflows_int_size
encode_integer prefix sz val =
    let text = integer_text prefix val in
    if overflows_int_size (length text) sz then none else some text

-- the string and the bytes consumed
unfoldable pub decode_string : Bytes → Option (Bytes × ℕ)
decode_string p = elim (decode_integer p dollar) [
  | none ↦ none
  | some (len, n) ↦
      let rest = drop n p in
      if leb (length rest) len then none else some (take len rest, n + len + 1)
]

unfoldable pub encode_string : ℕ → Option Bytes → Option Bytes
encode_string sz str =
    let e = string_bytes str in
    elim (encode_integer dollar sz (length e)) [
      | none ↦ none
      | some head ↦
          if leb (sz - length head) (length e) then none else some (head ++ (e ++ newline ∷ []))
    ]

-- ===== src/Wire/RoundTrip.antt =====
-- Decoding what was encoded, with any bytes behind it.
use mathlib.Core.Path.{ap₂}
use redisraft.Prelude.{
  true, false, ℕ, suc, ◌+◌, ◌^◌, ◌≤◌, ◌<◌, ◌≡◌, refl, ap, ◌∙◌, Option, some, [], ◌∷◌, ◌++◌,
  append_assoc, arith, length, drop, take, length-append, drop-append, take-append, ltb, ◌==◌,
  ==_iff,
}
use redisraft.Wire.{
  calc_int_serialized_len, Bytes, newline, dollar, size_max, string_bytes, decode_digits,
  decode_integer, print_lu, integer_text, encode_integer, decode_string, encode_string,
  calc_serialize_string_size,
}
use redisraft.Wire.Digits.{decode_digits-digits, length-digits_pos, integer_text-le-calc}

-- what `encodeString` writes
unfoldable pub string_text : Bytes → Bytes
string_text e = integer_text dollar (length e) ++ (e ++ newline ∷ [])

pub length-integer_text :
    (prefix val : ℕ) → length (integer_text prefix val) ≡ length (print_lu val) + 2
unfolding integer_text
length-integer_text prefix val = omega (arith, length-append (print_lu val) (newline ∷ []))

pub length-string_text :
    (e : Bytes) → length (string_text e) ≡ length (integer_text dollar (length e)) + length e + 1
unfolding string_text
length-string_text e = omega (
  arith,
  length-append (integer_text dollar (length e)) (e ++ newline ∷ []),
  length-append e (newline ∷ []),
)

-- `encodeInteger` succeeds exactly where its text and a final NUL fit the buffer.
pub encode_integer-fits :
    (prefix sz val : ℕ)
    → sz < 2 ^ 31
    → length (integer_text prefix val) < sz
    → encode_integer prefix sz val ≡ some (integer_text prefix val)
unfolding encode_integer
encode_integer-fits prefix sz val small fits = ground arith

pub encode_integer-eq :
    (prefix sz val : ℕ) (text : Bytes)
    → encode_integer prefix sz val ≡ some text
    → text ≡ integer_text prefix val
unfolding encode_integer
encode_integer-eq prefix sz val text h = ground arith

decode_digits-newline :
    (tmp len : ℕ) (rest : Bytes) → decode_digits (newline ∷ rest) tmp len ≡ some (tmp, len + 1)
unfolding decode_digits
decode_digits-newline tmp len rest = refl

pub decode_integer-text :
    (prefix val : ℕ) (rest : Bytes)
    → val < size_max
    → decode_integer (integer_text prefix val ++ rest) prefix
      ≡ some (val, length (integer_text prefix val))
unfolding decode_integer integer_text
decode_integer-text prefix val rest h =
    let body = print_lu val in
    let long : length ((body ++ newline ∷ []) ++ rest) ≡ length body + 1 + length rest =
      omega (arith, length-append (body ++ newline ∷ []) rest, length-append body (newline ∷ [])) in
    let big : ltb (suc (length ((body ++ newline ∷ []) ++ rest))) 3 ≡ false =
      ground (arith, length-digits_pos 19 val) in
    let same : (prefix == prefix) ≡ true = (==_iff prefix prefix).1 refl in
    rw (big, same, append_assoc, decode_digits-digits 19 val 1 (newline ∷ rest) (omega arith) h)
      (decode_digits-newline val (1 + length body) rest
        ∙ ap (λ k. some (val, k)) (omega (arith, length-append body (newline ∷ []))))

pub encode_string-fits :
    (sz : ℕ) (str : Option Bytes)
    → sz < 2 ^ 31
    → length (string_text (string_bytes str)) ≤ sz
    → encode_string sz str ≡ some (string_text (string_bytes str))
unfolding encode_string string_text
encode_string-fits sz str small fits =
    let e = string_bytes str in
    ground (
      arith,
      encode_integer-fits dollar sz (length e),
      length-append (integer_text dollar (length e)) (e ++ newline ∷ []),
      length-append e (newline ∷ []),
    )

-- `decodeString` behind a decoded length.
decode_string-found :
    (p : Bytes) (len n : ℕ) (rest : Bytes)
    → decode_integer p dollar ≡ some (len, n)
    → drop n p ≡ rest
    → len < length rest
    → decode_string p ≡ some (take len rest, n + len + 1)
unfolding decode_string
decode_string-found p len n rest h d l = ground arith

pub decode_string-text :
    (e rest : Bytes)
    → length e < size_max
    → decode_string (string_text e ++ rest) ≡ some (e, length (string_text e))
unfolding string_text
decode_string-text e rest h =
    let head = integer_text dollar (length e) in
    let tail = (e ++ newline ∷ []) ++ rest in
    let room : length e < length tail =
      omega (arith, length-append (e ++ newline ∷ []) rest, length-append e (newline ∷ [])) in
    let body : take (length e) tail ≡ e = rw append_assoc (take-append e (newline ∷ rest)) in
    let size : length head + length e + 1 ≡ length (head ++ (e ++ newline ∷ [])) =
      omega (arith, length-append head (e ++ newline ∷ []), length-append e (newline ∷ [])) in
    rw (append_assoc head (e ++ newline ∷ []) rest) (
      decode_string-found (head ++ tail) (length e) (length head) tail
        (decode_integer-text dollar (length e) tail h) (drop-append head tail) room
      ∙ ap₂ (λ s n. some (s, n)) body size)

unfoldable pub string_text-le-calc :
    (str : Option Bytes)
    → length (string_bytes str) < size_max
    → length (string_text (string_bytes str)) ≤ calc_serialize_string_size str
unfolding calc_serialize_string_size
string_text-le-calc str h = omega (
  arith,
  length-string_text (string_bytes str),
  integer_text-le-calc dollar (length (string_bytes str)) h,
)

length-le-calc : (str : Option Bytes) → length (string_bytes str) ≤ calc_serialize_string_size str
unfolding calc_serialize_string_size
length-le-calc str = omega arith

-- An integer written into a buffer with room for its computed size and one byte more is written, and is read back
-- with the number of bytes written, whatever follows it.
pub decode-encode_integer :
    (prefix sz val : ℕ) (rest : Bytes)
    → val < size_max
    → calc_int_serialized_len val < sz
    → sz < 2 ^ 31
    → (text : Bytes) × (encode_integer prefix sz val ≡ some text)
      × (decode_integer (text ++ rest) prefix ≡ some (val, length text))
decode-encode_integer prefix sz val rest h room small = (
  integer_text prefix val,
  encode_integer-fits prefix sz val small (omega (arith, integer_text-le-calc prefix val h)),
  decode_integer-text prefix val rest h,
)

-- A string written into a buffer of its computed size or more is written, within that size, and is
-- read back with the number of bytes written, whatever follows it; a null string is read as an
-- empty one.
pub decode-encode_string :
    (sz : ℕ) (str : Option Bytes) (rest : Bytes)
    → calc_serialize_string_size str ≤ sz
    → sz < 2 ^ 31
    → (text : Bytes) × (encode_string sz str ≡ some text)
      × (length text ≤ calc_serialize_string_size str)
      × (decode_string (text ++ rest) ≡ some (string_bytes str, length text))
decode-encode_string sz str rest room small =
    let e = string_bytes str in
    let short : length e < size_max = omega (arith, length-le-calc str) in
    (
      string_text e,
      encode_string-fits sz str small (omega (arith, string_text-le-calc str short)),
      string_text-le-calc str short,
      decode_string-text e rest short,
    )

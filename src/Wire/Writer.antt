-- ===== src/Wire/Writer.antt =====
-- The chains of `encode…(p, sz, …); RedisModule_Assert(n != -1); p += n; sz -= n;` that fill a new
-- Raft entry, and the chains of `decode…(p, buf_size, …)` that read it.
use redisraft.Prelude.{
  replicate, length-replicate, ℕ, ◌+◌, ◌-◌, ◌%◌, ◌^◌, ◌≤◌, ◌<◌, ◌≡◌, Option, none, some, [], ◌∷◌,
  ◌++◌, arith, leb, ltb, if◌then◌else◌, length, drop, length-append, length-drop, drop-append,
}
use redisraft.Wire.{
  Bytes, newline, size_max, string_bytes, integer_text, encode_integer, encode_string,
  decode_integer, decode_string,
}
use redisraft.Wire.RoundTrip.{
  string_text, encode_integer-fits, encode_string-fits, decode_integer-text, decode_string-text,
}

-- From the bytes left in the buffer to the bytes written and those left then. `none` is a failed
-- assertion or a write past the buffer.
abbrev pub Writer : Type 0
Writer = ℕ → Option (Bytes × ℕ)

abbrev advance : ℕ → Option Bytes → Option (Bytes × ℕ)
advance sz none = none
advance sz (some text) = some (text, sz - length text)

unfoldable pub put_integer : ℕ → ℕ → Writer
put_integer prefix val sz = advance sz (encode_integer prefix sz val)

unfoldable pub put_string : Option Bytes → Writer
put_string str sz = advance sz (encode_string sz str)

-- `memcpy(p, e, len)` and the newline, with no test of the C code's own
unfoldable pub put_line : Bytes → Writer
put_line e sz = if ltb (length e) sz then some (e ++ newline ∷ [], sz - (length e + 1)) else none

abbrev after : Bytes → Option (Bytes × ℕ) → Option (Bytes × ℕ)
after a none = none
after a (some (b, sz)) = some (a ++ b, sz)

abbrev resume : Writer → Option (Bytes × ℕ) → Option (Bytes × ℕ)
resume w none = none
resume w (some (a, sz)) = after a (w sz)

infixr 60 ◌⨾◌
unfoldable pub ◌⨾◌ : Writer → Writer → Writer
◌⨾◌ v w sz = resume w (v sz)

abbrev pub nothing : Writer
nothing sz = some ([], sz)

-- `raft_entry_new` of deps/raft makes an entry with the number of bytes that it is asked for.
abbrev pub IsNewData : (ℕ → Bytes) → Type 0
IsNewData new_data = (n : ℕ) → n < 2 ^ 32 → length (new_data n) ≡ n

-- memory that happens to hold zeros
abbrev pub zeros : ℕ → Bytes
zeros n = replicate n 0

pub zeros-IsNewData : IsNewData zeros
zeros-IsNewData n h = length-replicate n 0

-- A new entry of `sz` bytes, filled from its start. `new_data n` is the data of `raft_entry_new(n)`,
-- whose parameter is an `unsigned int`.
abbrev fill_data : Bytes → Option (Bytes × ℕ) → Option Bytes
fill_data mem none = none
fill_data mem (some (out, sz)) =
    if leb (length out) (length mem) then some (out ++ drop (length out) mem) else none

unfoldable pub fill_entry : (ℕ → Bytes) → ℕ → Writer → Option Bytes
fill_entry new_data sz w = fill_data (new_data (sz % 2 ^ 32)) (w sz)

-- `w` writes `text` wherever that and `slack` more bytes fit.
pub record Writes (w : Writer) (text : Bytes) (slack : ℕ) : Type 0 where
  pub at : (sz : ℕ) → sz < 2 ^ 31 → length text + slack ≤ sz → w sz ≡ some (text, sz - length text)

-- `snprintf` wants room for its NUL.
pub put_integer-Writes :
    (prefix val : ℕ) → Writes (put_integer prefix val) (integer_text prefix val) 1
unfolding put_integer
put_integer-Writes prefix val = record {
  at = λ sz small fits. ground (arith, encode_integer-fits prefix sz val);
}

pub put_string-Writes :
    (str : Option Bytes) → Writes (put_string str) (string_text (string_bytes str)) 0
unfolding put_string
put_string-Writes str = record { at = λ sz small fits. ground (arith, encode_string-fits sz str) }

pub put_line-Writes : (e : Bytes) → Writes (put_line e) (e ++ newline ∷ []) 0
unfolding put_line
put_line-Writes e = record { at = λ sz small fits. ground (arith, length-append e (newline ∷ [])) }

pub nothing-Writes : Writes nothing [] 0
nothing-Writes = record { at = λ sz small fits. ground arith }

pub ⨾-Writes :
    (v w : Writer) (a b : Bytes) (s t : ℕ)
    → Writes v a s
    → Writes w b t
    → s ≤ length b + t
    → Writes (v ⨾ w) (a ++ b) t
unfolding ◌⨾◌
⨾-Writes v w a b s t hv hw h = record {
  at = λ sz small fits. ground (arith, hv.at sz, hw.at (sz - length a), length-append a b);
}

-- A writer that fits fills the entry, and the entry has the size that was asked for.
pub fill_entry-Writes :
    (new_data : ℕ → Bytes) (sz : ℕ) (w : Writer) (text : Bytes) (slack : ℕ)
    → IsNewData new_data
    → Writes w text slack
    → sz < 2 ^ 31
    → length text + slack ≤ sz
    → let entry = text ++ drop (length text) (new_data sz) in
      (fill_entry new_data sz w ≡ some entry) × (length entry ≡ sz)
unfolding fill_entry
fill_entry-Writes new_data sz w text slack mem h small fits =
    let low : sz % 2 ^ 32 ≡ sz = omega arith in
    let size : length (new_data sz) ≡ sz = mem sz (omega arith) in
    (
      rw low (ground (arith, h.at sz)),
      omega (
        arith,
        length-append text (drop (length text) (new_data sz)),
        length-drop (length text) (new_data sz),
      ),
    )

-- `if ((n = decodeInteger(p, buf_size, …)) < 0) …; p += n; buf_size -= n;`
abbrev skip : {A : Type 0} → Bytes → Option (A × ℕ) → Option (A × Bytes)
skip buf none = none
skip buf (some (a, n)) = some (a, drop n buf)

unfoldable pub read_integer : ℕ → Bytes → Option (ℕ × Bytes)
read_integer prefix buf = skip buf (decode_integer buf prefix)

unfoldable pub read_string : Bytes → Option (Bytes × Bytes)
read_string buf = skip buf (decode_string buf)

pub read_integer-text :
    (prefix val : ℕ) (rest : Bytes)
    → val < size_max
    → read_integer prefix (integer_text prefix val ++ rest) ≡ some (val, rest)
unfolding read_integer
read_integer-text prefix val rest h =
    ground (arith, decode_integer-text prefix val rest, drop-append (integer_text prefix val) rest)

pub read_string-text :
    (e rest : Bytes) → length e < size_max → read_string (string_text e ++ rest) ≡ some (e, rest)
unfolding read_string
read_string-text e rest h =
    ground (arith, decode_string-text e rest, drop-append (string_text e) rest)

-- ===== src/Timeout/RoundTrip.antt =====
-- Which timeouts survive the wire.
use redisraft.Prelude.{
  append_assoc, ◌≤◌, ◌^◌, if◌then◌else◌, some, drop, ℕ, ◌+◌, ◌<◌, ◌≡◌, refl, Bool, true, false,
  ◌++◌, arith, ◌==◌, length, length-append,
}
use redisraft.Wire.{size_max, Bytes, star, integer_text, calc_int_serialized_len}
use redisraft.Wire.Digits.{
  integer_text-le-calc, integer_text-lt-calc, calc_bounds, integer_text-eq-calc,
}
use redisraft.Wire.Writer.{
  read_integer-text, fill_entry-Writes, IsNewData, Writes, put_integer, ◌⨾◌, put_integer-Writes,
  ⨾-Writes,
}
use redisraft.Timeout.{
  aborted, timed_out, timeout_size, serialize_timeout, deserialize_timeout, err_val,
}

-- the text of the entry
abbrev pub timeout_text : ℕ → Bool → Bytes
timeout_text idx error = integer_text star idx ++ integer_text star (err_val error)

err_val-small : (b : Bool) → err_val b < 10
err_val-small true = omega arith
err_val-small false = omega arith

err_val_is_one : (b : Bool) → (err_val b == 1) ≡ b
err_val_is_one true = refl
err_val_is_one false = refl

calc_err : (b : Bool) → calc_int_serialized_len (err_val b) ≡ 3
unfolding calc_int_serialized_len
calc_err b = ground (arith, err_val-small b)

calc_22 : (idx : ℕ) → 10 ^ 7 ≤ idx → calc_int_serialized_len idx ≡ 22
unfolding calc_int_serialized_len
calc_22 idx h = ground (arith, h)

not_one : (n : ℕ) → 1 < n → (n == 1) ≡ false
not_one n h = ground arith

length-timeout_text :
    (idx : ℕ) (error : Bool) → length (timeout_text idx error) ≡ length (integer_text star idx) + 3
unfolding calc_int_serialized_len
length-timeout_text idx error = ground (
  arith,
  length-append (integer_text star idx) (integer_text star (err_val error)),
  integer_text-eq-calc star (err_val error),
  err_val-small error,
)

put_timeout-Writes :
    (idx : ℕ) (error : Bool)
    → Writes (put_integer star idx ⨾ put_integer star (err_val error)) (timeout_text idx error) 1
put_timeout-Writes idx error =
    ⨾-Writes (put_integer star idx) (put_integer star (err_val error)) (integer_text star idx)
      (integer_text star (err_val error)) 1 1 (put_integer-Writes star idx)
      (put_integer-Writes star (err_val error)) (omega arith)

-- What the entry holds: its text, and the bytes of the new entry behind that.
serialize_timeout-eq :
    (new_data : ℕ → Bytes) (idx : ℕ) (error : Bool)
    → IsNewData new_data
    → idx < size_max
    → let text = timeout_text idx error in
      let entry = text ++ drop (length text) (new_data (timeout_size idx error)) in
      (serialize_timeout new_data idx error ≡ some entry) × (length entry ≡ timeout_size idx error)
unfolding serialize_timeout timeout_size
serialize_timeout-eq new_data idx error mem h =
    fill_entry-Writes new_data (timeout_size idx error) _ (timeout_text idx error) 1 mem
      (put_timeout-Writes idx error) (omega (arith, calc_bounds idx, calc_bounds (err_val error)))
      (omega (
        arith,
        length-timeout_text idx error,
        integer_text-le-calc star idx h,
        calc_bounds (err_val error),
      ))

deserialize_timeout-text :
    (idx : ℕ) (error : Bool) (rest : Bytes)
    → idx < size_max
    → deserialize_timeout (timeout_text idx error ++ rest)
      ≡ (if length rest == 1 then timed_out idx error else aborted)
unfolding deserialize_timeout
deserialize_timeout-text idx error rest h = rw (
  append_assoc (integer_text star idx) (integer_text star (err_val error)) rest,
  read_integer-text star idx (integer_text star (err_val error) ++ rest) h,
  read_integer-text star (err_val error) rest (omega (arith, err_val-small error)),
  err_val_is_one error,
)

module _ (new_data : ℕ → Bytes) (idx : ℕ) (error : Bool) (mem : IsNewData new_data) where
  abbrev rest : Bytes
  rest = drop (length (timeout_text idx error)) (new_data (timeout_size idx error))

  -- The bytes behind the text: one, and those by which the computed size is too large.
  length-rest :
      idx < size_max
      → length rest + length (integer_text star idx) ≡ calc_int_serialized_len idx + 1
  unfolding timeout_size
  length-rest h = omega (
    arith,
    (serialize_timeout-eq new_data idx error mem h).1,
    length-append (timeout_text idx error) rest,
    length-timeout_text idx error,
    calc_err error,
  )

  -- A timeout is serialized with no failed assertion into an entry of the size asked for, and is read back from it as it was written, for a log index below
  -- ten million.
  pub deserialize-serialize_timeout :
      idx < 10 ^ 7
      → (entry : Bytes) × (serialize_timeout new_data idx error ≡ some entry)
        × (length entry ≡ timeout_size idx error)
        × (deserialize_timeout entry ≡ timed_out idx error)
  deserialize-serialize_timeout h =
      let one : length rest ≡ 1 =
        omega (arith, length-rest (omega arith), integer_text-eq-calc star idx h) in
      let small : idx < size_max = omega arith in
      (
        timeout_text idx error ++ rest,
        (serialize_timeout-eq new_data idx error mem small).0,
        (serialize_timeout-eq new_data idx error mem small).1,
        rw (deserialize_timeout-text idx error rest small, one),
      )

  -- For a log index from ten million on, below 2^63, the timeout is serialized into an entry of the size asked for, but the computed size of the index is 22 whatever its digits, the entry has more
  -- than one byte behind its text, and reading it fails the assertion `buf_size == 1`.
  pub deserialize_timeout_aborts :
      10 ^ 7 ≤ idx
      → idx < 2 ^ 63
      → (entry : Bytes) × (serialize_timeout new_data idx error ≡ some entry)
        × (length entry ≡ timeout_size idx error)
        × (calc_int_serialized_len idx ≡ 22)
        × (length (timeout_text idx error) + 1 < length entry)
        × (deserialize_timeout entry ≡ aborted)
  deserialize_timeout_aborts h k =
      let small : idx < size_max = omega arith in
      let many : 1 < length rest =
        omega (arith, length-rest small, integer_text-lt-calc star idx h (omega arith)) in
      (
        timeout_text idx error ++ rest,
        (serialize_timeout-eq new_data idx error mem small).0,
        (serialize_timeout-eq new_data idx error mem small).1,
        calc_22 idx h,
        omega (arith, length-append (timeout_text idx error) rest, many),
        rw (deserialize_timeout-text idx error rest small, not_one (length rest) many),
      )

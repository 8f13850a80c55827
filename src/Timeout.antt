-- ===== src/Timeout.antt =====
-- serialization.c: the entry that times out, or unblocks with an error, a blocked command.
pub mod RoundTrip
mod Tests
use redisraft.Prelude.{ℕ, ◌+◌, Bool, true, false, Option, none, some, ◌==◌, if◌then◌else◌, length}
use redisraft.Wire.{Bytes, star, calc_int_serialized_len}
use redisraft.Wire.Writer.{put_integer, ◌⨾◌, fill_entry, read_integer}

abbrev pub err_val : Bool → ℕ
err_val true = 1
err_val false = 0

unfoldable pub timeout_size : ℕ → Bool → ℕ
timeout_size idx error = calc_int_serialized_len idx + calc_int_serialized_len (err_val error) + 1

-- `RaftRedisSerializeTimeout`: the data of the entry
unfoldable pub serialize_timeout : (ℕ → Bytes) → ℕ → Bool → Option Bytes
serialize_timeout new_data idx error =
    fill_entry new_data (timeout_size idx error)
      (put_integer star idx ⨾ put_integer star (err_val error))

-- What `RaftRedisDeserializeTimeout` does: `aborted` is its failed assertion.
pub data Outcome : Type 0 where
  timed_out : ℕ → Bool → Outcome
  rr_error : Outcome
  aborted : Outcome

abbrev check_end : ℕ → Option (ℕ × Bytes) → Outcome
check_end idx none = rr_error
check_end idx (some (tmp, buf)) = if length buf == 1 then timed_out idx (tmp == 1) else aborted

abbrev read_error : Option (ℕ × Bytes) → Outcome
read_error none = rr_error
read_error (some (idx, buf)) = check_end idx (read_integer star buf)

unfoldable pub deserialize_timeout : Bytes → Outcome
deserialize_timeout buf = read_error (read_integer star buf)

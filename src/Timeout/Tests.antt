-- ===== src/Timeout/Tests.antt =====
-- Timeouts at concrete indices.
use redisraft.Prelude.{◌≡◌, true, false, some, arith}
use redisraft.Prelude.{length, ◌+◌, ◌<◌}
use redisraft.Wire.{Bytes, calc_int_serialized_len}
use redisraft.Timeout.{timeout_size}
use redisraft.Timeout.RoundTrip.{timeout_text}
use redisraft.Wire.Writer.{zeros, zeros-IsNewData}
use redisraft.Timeout.{serialize_timeout, deserialize_timeout, timed_out, aborted}
use redisraft.Timeout.RoundTrip.{deserialize-serialize_timeout, deserialize_timeout_aborts}

deserialize-serialize_timeout_example :
    (entry : Bytes) × (serialize_timeout zeros 1234 true ≡ some entry)
    × (length entry ≡ timeout_size 1234 true)
    × (deserialize_timeout entry ≡ timed_out 1234 true)
deserialize-serialize_timeout_example =
    deserialize-serialize_timeout zeros 1234 true zeros-IsNewData (omega arith)

deserialize_timeout_aborts_example :
    (entry : Bytes) × (serialize_timeout zeros 10000000 false ≡ some entry)
    × (length entry ≡ timeout_size 10000000 false)
    × (calc_int_serialized_len 10000000 ≡ 22)
    × (length (timeout_text 10000000 false) + 1 < length entry)
    × (deserialize_timeout entry ≡ aborted)
deserialize_timeout_aborts_example =
    deserialize_timeout_aborts zeros 10000000 false zeros-IsNewData (omega arith) (omega arith)

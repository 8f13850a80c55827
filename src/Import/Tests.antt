-- ===== src/Import/Tests.antt =====
-- Import keys at a concrete value.
use redisraft.Prelude.{◌^◌, ◌<◌, ◌≡◌, some, [], ◌∷◌, arith, length}
use redisraft.Wire.{Bytes, calc_int_serialized_len, calc_serialize_string_size}
use redisraft.Wire.Writer.{zeros, zeros-IsNewData}
use redisraft.Import.{ImportKeys, import_size, keys_size, serialize_import, deserialize_import}
use redisraft.Import.RoundTrip.{deserialize-serialize_import}

abbrev one_key : ImportKeys
one_key = record {
  term = 3;
  migration_session_key = 77;
  keys = record { name = 107 ∷ []; serialized = 0 ∷ 1 ∷ [] } ∷ [];
}

one_key_small : import_size one_key < 2 ^ 31
unfolding import_size keys_size calc_int_serialized_len calc_serialize_string_size
one_key_small = omega arith

deserialize-serialize_import_example :
    (entry : Bytes) × (serialize_import zeros one_key ≡ some entry)
    × (length entry ≡ import_size one_key)
    × (deserialize_import entry ≡ some one_key)
deserialize-serialize_import_example =
    deserialize-serialize_import zeros one_key zeros-IsNewData (omega arith) (omega arith)
      (omega arith) (λ e. cc) one_key_small

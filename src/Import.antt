-- ===== src/Import.antt =====
-- serialization.c: the entry that imports migrated keys, `ImportKeys`.
pub mod RoundTrip
mod Tests
use redisraft.Prelude.{
  ℕ, zero, suc, ◌+◌, Option, none, some, List, [], ◌∷◌, ◌==◌, ◌>>=◌, if◌then◌else◌, length,
}
use redisraft.Wire.{Bytes, star, calc_int_serialized_len, calc_serialize_string_size}
use redisraft.Wire.Writer.{
  Writer, put_integer, put_string, nothing, ◌⨾◌, fill_entry, read_integer, read_string,
}

-- `key_names[i]` and `key_serialized[i]`
pub record Key : Type 0 where
  pub name : Bytes
  pub serialized : Bytes

-- `num_keys` is the length of `keys`. `term` is not negative.
pub record ImportKeys : Type 0 where
  pub term : ℕ
  pub migration_session_key : ℕ
  pub keys : List Key

unfoldable pub keys_size : List Key → ℕ
keys_size [] = 0
keys_size (k ∷ ks) =
    calc_serialize_string_size (some k.name)
    + calc_serialize_string_size (some k.serialized)
    + keys_size ks

unfoldable pub import_size : ImportKeys → ℕ
import_size k =
    calc_int_serialized_len k.term
    + calc_int_serialized_len k.migration_session_key
    + calc_int_serialized_len (length k.keys)
    + keys_size k.keys

unfoldable pub put_keys : List Key → Writer
put_keys [] = nothing
put_keys (k ∷ ks) = put_string (some k.name) ⨾ put_string (some k.serialized) ⨾ put_keys ks

-- `RaftRedisSerializeImport`: the data of the entry
unfoldable pub serialize_import : (ℕ → Bytes) → ImportKeys → Option Bytes
serialize_import new_data k = fill_entry new_data (import_size k) (
    put_integer star k.term
    ⨾ put_integer star k.migration_session_key
    ⨾ put_integer star (length k.keys)
    ⨾ put_keys k.keys)

-- the loop over `num_keys`
unfoldable pub read_keys : ℕ → Bytes → Option (List Key)
read_keys zero buf = some []
read_keys (suc rounds) buf = do
  (name, buf) ← read_string buf
  (serialized, buf) ← read_string buf
  ks ← read_keys rounds buf
  some (record { name = name; serialized = serialized } ∷ ks)

-- `RaftRedisDeserializeImport`; `none` is RR_ERROR.
unfoldable pub deserialize_import : Bytes → Option ImportKeys
deserialize_import buf = do
  (term, buf) ← read_integer star buf
  if term == 0 then none else do
    (session_key, buf) ← read_integer star buf
    (num_keys, buf) ← read_integer star buf
    if num_keys == 0 then none else do
      keys ← read_keys num_keys buf
      some (record { term = term; migration_session_key = session_key; keys = keys })

-- ===== src/LockKeys.antt =====
-- serialization.c: the entry that locks keys for a migration. The dictionary of Redis, which holds the
-- keys, is a list without repetitions, and `order` says in which order its iterator visits them.
pub mod Once
pub mod RoundTrip
pub mod Short
mod Tests
use redisraft.Prelude.{
  ℕ, zero, suc, ◌+◌, Bool, true, false, ◌||◌, Option, none, some, List, [], ◌∷◌, ◌++◌, ◌==◌, ◌>>=◌,
  if◌then◌else◌, leb, length, drop, bytes_eq,
}
use redisraft.Wire.{Bytes, star, calc_int_serialized_len, encode_integer, decode_integer}

pub record LockSet : Type 0 where
  pub keys : List Bytes
  pub total_key_size : ℕ
  pub num_keys : ℕ

unfoldable pub has_key : List Bytes → Bytes → Bool
has_key [] k = false
has_key (key ∷ keys) k = bytes_eq key k || has_key keys k

-- `RedisModule_DictSet`, and the counting where the key is new
unfoldable pub insert : LockSet → Bytes → LockSet
insert set k = if has_key set.keys k then set else record {
  keys = k ∷ set.keys;
  total_key_size = set.total_key_size + (length k + 1);
  num_keys = set.num_keys + 1;
}

-- the first loop, over the arguments
unfoldable pub collect : List Bytes → LockSet → LockSet
collect [] set = set
collect (k ∷ argv) set = collect argv (insert set k)

abbrev pub no_keys : LockSet
no_keys = record { keys = []; total_key_size = 0; num_keys = 0 }

abbrev put_key : Bytes → Option Bytes → Option Bytes
put_key k none = none
put_key k (some rest) = some (k ++ 0 ∷ rest)

-- the second loop: every key and a NUL; `none` is a failed assertion that the keys' size has room for
-- this one
unfoldable pub keys_text : ℕ → List Bytes → Option Bytes
keys_text total_key_size [] = some []
keys_text total_key_size (k ∷ keys) =
    let rest = keys_text total_key_size keys in
    if leb (length k + 1) total_key_size then put_key k rest else none

-- The keys behind the encoded number, and the assertion `data_len == 0` at the end.
abbrev fill_lock : ℕ → Option Bytes → Option Bytes → Option Bytes
fill_lock data_len body none = none
fill_lock data_len none (some head) = none
fill_lock data_len (some body) (some head) =
    let text = head ++ body in if length text == data_len then some text else none

-- `RaftRedisLockKeysSerialize`; `none` is a failed assertion: of the encoder's result, of the room for
-- a key, or of `data_len == 0`.
unfoldable pub serialize_lock : (List Bytes → List Bytes) → List Bytes → Option Bytes
serialize_lock order argv =
    let set = collect argv no_keys in
    fill_lock (calc_int_serialized_len set.num_keys + set.total_key_size)
      (keys_text set.total_key_size (order set.keys))
      (encode_integer star set.total_key_size set.num_keys)

abbrev cons_byte : ℕ → Option (Bytes × Bytes) → Option (Bytes × Bytes)
cons_byte c none = none
cons_byte c (some (k, rest)) = some (c ∷ k, rest)

-- the C string at the start of the buffer, and what is behind its NUL; `none` if the buffer has none
unfoldable pub split_string : Bytes → Option (Bytes × Bytes)
split_string [] = none
split_string (c ∷ s) =
    let more = cons_byte c (split_string s) in if c == 0 then some ([], s) else more

unfoldable pub read_strings : ℕ → Bytes → Option (List Bytes)
read_strings zero s = some []
read_strings (suc n) s = do (k, s) ← split_string s; keys ← read_strings n s; some (k ∷ keys)

-- `RaftRedisLockKeysDeserialize`; `none` is NULL, or a read past the buffer.
unfoldable pub deserialize_lock : Bytes → Option (List Bytes)
deserialize_lock buf = do
  (num_keys, n) ← decode_integer buf star
  read_strings num_keys (drop n buf)

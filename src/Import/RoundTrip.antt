-- ===== src/Import/RoundTrip.antt =====
-- What was serialized is read back.
use redisraft.Prelude.{
  ℕ, ◌^◌, ◌≤◌, ◌<◌, ◌≡◌, ◌≢◌, refl, some, List, [], ◌∷◌, ◌++◌, append_assoc, arith, length, drop,
  length-append, ◌==◌, false,
}
use redisraft.Wire.{dollar, Bytes, star, size_max, integer_text, calc_serialize_string_size}
use redisraft.Wire.Digits.{integer_text-le-calc}
use redisraft.Wire.RoundTrip.{string_text, length-integer_text, length-string_text}
use redisraft.Wire.Writer.{
  Writes, IsNewData, put_integer, put_string, ◌⨾◌, put_integer-Writes, put_string-Writes,
  nothing-Writes, ⨾-Writes, fill_entry-Writes, read_integer-text, read_string-text,
}
use redisraft.Import.{
  Key, ImportKeys, keys_size, import_size, put_keys, serialize_import, read_keys,
  deserialize_import,
}

keys_text : List Key → Bytes
keys_text [] = []
keys_text (k ∷ ks) = string_text k.name ++ (string_text k.serialized ++ keys_text ks)

import_text : ImportKeys → Bytes
import_text k =
    integer_text star k.term
    ++ (integer_text star k.migration_session_key
        ++ (integer_text star (length k.keys) ++ keys_text k.keys))

put_keys-Writes : (ks : List Key) → Writes (put_keys ks) (keys_text ks) 0
unfolding put_keys keys_text
put_keys-Writes [] = nothing-Writes
put_keys-Writes (k ∷ ks) =
    ⨾-Writes (put_string (some k.name)) _ (string_text k.name) _ 0 0
      (put_string-Writes (some k.name))
      (⨾-Writes (put_string (some k.serialized)) _ (string_text k.serialized) _ 0 0
        (put_string-Writes (some k.serialized)) (put_keys-Writes ks) (omega arith))
      (omega arith)

-- What the C code computes with: sizes of strings and of the whole fit an `int`.
keys_bounds :
    (ks : List Key)
    → keys_size ks < size_max
    → (length (keys_text ks) ≤ keys_size ks) × (length ks ≤ keys_size ks)
unfolding keys_size keys_text calc_serialize_string_size
keys_bounds [] h = omega arith
keys_bounds (k ∷ ks) h = omega (
  arith,
  length-append (string_text k.name) (string_text k.serialized ++ keys_text ks),
  length-append (string_text k.serialized) (keys_text ks),
  length-string_text k.name,
  length-string_text k.serialized,
  integer_text-le-calc dollar (length k.name) (omega arith),
  integer_text-le-calc dollar (length k.serialized) (omega arith),
  keys_bounds ks (omega arith),
)

keys_text_pos : (ks : List Key) → ks ≢ [] → 0 < length (keys_text ks)
unfolding keys_text
keys_text_pos [] h = absurd (h refl)
keys_text_pos (k ∷ ks) h = omega (
  arith,
  length-append (string_text k.name) (string_text k.serialized ++ keys_text ks),
  length-string_text k.name,
)

read_keys-text :
    (ks : List Key) (rest : Bytes)
    → keys_size ks < size_max
    → read_keys (length ks) (keys_text ks ++ rest) ≡ some ks
unfolding read_keys keys_text keys_size calc_serialize_string_size
read_keys-text [] rest h = refl
read_keys-text (k ∷ ks) rest h = rw (
  append_assoc (string_text k.name) (string_text k.serialized ++ keys_text ks) rest,
  append_assoc (string_text k.serialized) (keys_text ks) rest,
  read_string-text k.name (string_text k.serialized ++ (keys_text ks ++ rest)) (omega arith),
  read_string-text k.serialized (keys_text ks ++ rest) (omega arith),
  read_keys-text ks rest (omega arith),
)

nonzero : (n : ℕ) → 0 < n → (n == 0) ≡ false
nonzero n h = ground arith

length_pos : (ks : List Key) → ks ≢ [] → 0 < length ks
length_pos [] h = absurd (h refl)
length_pos (k ∷ ks) h = omega arith

module _ (k : ImportKeys) (some_key : k.keys ≢ []) (term : k.term < size_max)
    (session : k.migration_session_key < size_max) (small : import_size k < 2 ^ 31) where
  few : (length k.keys < size_max) × (keys_size k.keys < size_max)
  unfolding import_size
  few = (omega (arith, keys_bounds k.keys (omega arith)), omega arith)

  import-Writes :
      Writes
        (put_integer star k.term
          ⨾ put_integer star k.migration_session_key
          ⨾ put_integer star (length k.keys)
          ⨾ put_keys k.keys)
        (import_text k)
        0
  unfolding import_text
  import-Writes =
      ⨾-Writes _ _ (integer_text star k.term) _ 1 0 (put_integer-Writes star k.term)
        (⨾-Writes _ _ (integer_text star k.migration_session_key) _ 1 0
          (put_integer-Writes star k.migration_session_key)
          (⨾-Writes _ _ (integer_text star (length k.keys)) (keys_text k.keys) 1 0
            (put_integer-Writes star (length k.keys)) (put_keys-Writes k.keys)
            (omega (arith, keys_text_pos k.keys some_key)))
          (omega (
            arith,
            length-append (integer_text star (length k.keys)) (keys_text k.keys),
            length-integer_text star (length k.keys),
          )))
        (omega (
          arith,
          length-append (integer_text star k.migration_session_key)
              (integer_text star (length k.keys) ++ keys_text k.keys),
          length-integer_text star k.migration_session_key,
        ))

  import_text-le-size : length (import_text k) ≤ import_size k
  unfolding import_text import_size
  import_text-le-size = omega (
    arith,
    length-append (integer_text star k.term) (
        integer_text star k.migration_session_key
        ++ (integer_text star (length k.keys) ++ keys_text k.keys)),
    length-append (integer_text star k.migration_session_key)
        (integer_text star (length k.keys) ++ keys_text k.keys),
    length-append (integer_text star (length k.keys)) (keys_text k.keys),
    integer_text-le-calc star k.term term,
    integer_text-le-calc star k.migration_session_key session,
    integer_text-le-calc star (length k.keys) few.0,
    keys_bounds k.keys few.1,
  )

  import_read : (rest : Bytes) → 0 < k.term → deserialize_import (import_text k ++ rest) ≡ some k
  unfolding deserialize_import import_text
  import_read rest pos = rw (
    append_assoc (integer_text star k.term)
        (integer_text star k.migration_session_key
          ++ (integer_text star (length k.keys) ++ keys_text k.keys))
        rest,
    append_assoc (integer_text star k.migration_session_key)
        (integer_text star (length k.keys) ++ keys_text k.keys) rest,
    append_assoc (integer_text star (length k.keys)) (keys_text k.keys) rest,
    read_integer-text star k.term
        (integer_text star k.migration_session_key
          ++ (integer_text star (length k.keys) ++ (keys_text k.keys ++ rest)))
        term,
    read_integer-text star k.migration_session_key
        (integer_text star (length k.keys) ++ (keys_text k.keys ++ rest)) session,
    read_integer-text star (length k.keys) (keys_text k.keys ++ rest) few.0,
    nonzero k.term pos,
    nonzero (length k.keys) (length_pos k.keys some_key),
    read_keys-text k.keys rest few.1,
  )

-- Import keys of a term that is not 0, one key at least, with a term and a session key below 2^64 and a computed size below 2^31 are
-- serialized with no failed assertion, and reading the entry gives them back.
pub deserialize-serialize_import :
    (new_data : ℕ → Bytes) (k : ImportKeys)
    → IsNewData new_data
    → 0 < k.term
    → k.term < size_max
    → k.migration_session_key < size_max
    → k.keys ≢ []
    → import_size k < 2 ^ 31
    → (entry : Bytes) × (serialize_import new_data k ≡ some entry)
      × (length entry ≡ import_size k)
      × (deserialize_import entry ≡ some k)
unfolding serialize_import
deserialize-serialize_import new_data k mem pos term session some_key small =
    let filled =
      fill_entry-Writes new_data (import_size k) _ (import_text k) 0 mem
        (import-Writes k some_key term session small) small
        (omega (arith, import_text-le-size k some_key term session small)) in
    (
      import_text k ++ drop (length (import_text k)) (new_data (import_size k)),
      filled.0,
      filled.1,
      import_read k some_key term session small _ pos,
    )

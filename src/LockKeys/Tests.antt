-- ===== src/LockKeys/Tests.antt =====
-- Two keys, one of them twice; and one short key.
use redisraft.Prelude.{◌≡◌, ◌<◌, refl, some, none, List, [], ◌∷◌, arith, length, bytes_eq}
use redisraft.Wire.{digits, Bytes, star, integer_text}
use redisraft.Dict.{IsDict}
use redisraft.LockKeys.{collect, insert, has_key, no_keys, serialize_lock, deserialize_lock}
use redisraft.LockKeys.RoundTrip.{IsIterator, deserialize-serialize_lock}
use redisraft.LockKeys.Short.{serialize_lock-short}

abbrev as_stored : List Bytes → List Bytes
as_stored keys = keys

as_stored-IsIterator : IsIterator as_stored
as_stored-IsIterator = record {
  same_count = λ keys. refl;
  same_size = λ keys. refl;
  strings = λ keys h. h;
  same_keys = λ keys k. refl;
  once = λ keys h. h;
}

abbrev two_names : List Bytes
two_names = (97 ∷ 98 ∷ []) ∷ (99 ∷ 100 ∷ []) ∷ (97 ∷ 98 ∷ []) ∷ []

collect_runs :
    collect two_names no_keys
    ≡ record { keys = (99 ∷ 100 ∷ []) ∷ (97 ∷ 98 ∷ []) ∷ []; total_key_size = 6; num_keys = 2 }
unfolding collect insert has_key bytes_eq
collect_runs = refl

count_fits : length (integer_text star 2) < 6
unfolding integer_text digits
count_fits = omega arith

deserialize-serialize_lock_example :
    (entry : Bytes) × (serialize_lock as_stored two_names ≡ some entry)
    × (deserialize_lock entry ≡ some (collect two_names no_keys).keys)
    × ((k : Bytes) → has_key (collect two_names no_keys).keys k ≡ has_key two_names k)
    × IsDict bytes_eq (collect two_names no_keys).keys
deserialize-serialize_lock_example =
    deserialize-serialize_lock as_stored two_names as_stored-IsIterator
      (
        ((λ e. omega arith), ((λ e. omega arith), tt)),
        (
          ((λ e. omega arith), ((λ e. omega arith), tt)),
          (((λ e. omega arith), ((λ e. omega arith), tt)), tt),
        ),
      )
      (rw collect_runs (omega arith)) (rw collect_runs (omega arith)) (rw collect_runs count_fits)

serialize_lock-short_example : serialize_lock as_stored ((107 ∷ []) ∷ []) ≡ none
serialize_lock-short_example = serialize_lock-short as_stored (107 ∷ []) (omega arith)

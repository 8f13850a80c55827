-- ===== src/Locks/Tests.antt =====
-- The key a is locked in a slot that moves from group l to group r.
use redisraft.Prelude.{
  ℕ, ◌≡◌, ◌≢◌, refl, Bool, true, false, ◌&&◌, ◌||◌, not, none, some, List, [], ◌∷◌, bytes_eq,
}
use redisraft.Wire.{Bytes, decode_integer}
use redisraft.HashSlot.{key_hash_slot, find, slot_of}
use redisraft.Dict.{set_absent, has}
use redisraft.Commands.{Command, CommandArray, empty_array}
use redisraft.LockKeys.{has_key, deserialize_lock, read_strings, split_string}
use redisraft.Sharding.{ShardGroup, ShardingInfo, SlotType, migrating, importing, stable, get_group}
use redisraft.SlotCompute.{hash_slot_compute, compute_keys, compute_commands}
use redisraft.Redirect.{rr_ok, get_slot_shard_group, slot_type, handle_sharding}
use redisraft.Redirect.Keys.{all_keys}
use redisraft.Locks.{
  locked, lock_keys, common_slot, check_slot, lock_each, unlock, unlock_each, unlock_delete_keys,
}
use redisraft.Locks.Held.{Leaves, lock_keys_lem, unlock_delete_keys_lem}
use redisraft.Locks.Refused.{lock_keys-refused}

abbrev group : SlotType → ℕ → Bool → ShardGroup
group type id is_local = record {
  id = id ∷ [];
  slot_ranges =
      record { start_slot = 0; end_slot = 99; type = type; migration_session_key = 1 } ∷ [];
  nodes = [];
  is_local = is_local;
  next_redir = 0;
  node_conn_idx = 0;
  use_conn_addr = false;
  conn = false;
}

abbrev moving : ShardingInfo
moving = record {
  shard_groups_num = 2;
  shard_group_map = group migrating 108 true ∷ group importing 114 false ∷ [];
  is_sharding = true;
  stable_slots_map = λ _. none;
  importing_slots_map = λ _. some (114 ∷ []);
  migrating_slots_map = λ _. some (108 ∷ []);
  max_importing_term = λ _. 0;
}

abbrev key_a : Bytes
key_a = 97 ∷ []

-- one key, a
abbrev body : Bytes
body = 42 ∷ 49 ∷ 10 ∷ 97 ∷ 0 ∷ []

abbrev checksum : Bytes → ℕ
checksum key = 5

abbrev always : Bytes → Bool
always key = true

abbrev second : Command → List Bytes
second (name ∷ key ∷ argv) = key ∷ []
second _ = []

-- GET a
abbrev get_a : CommandArray
get_a = record empty_array { commands = ((71 ∷ []) ∷ key_a ∷ []) ∷ [] }

body_read : deserialize_lock body ≡ some (key_a ∷ [])
unfolding deserialize_lock read_strings split_string decode_integer
body_read = refl

locks : lock_keys checksum always moving [] body ≡ locked (key_a ∷ [])
unfolding lock_keys deserialize_lock read_strings split_string decode_integer common_slot
    key_hash_slot check_slot get_group bytes_eq lock_each set_absent has
locks = refl

unlocks : unlock_delete_keys (key_a ∷ []) body ≡ some (key_a ∷ [], [])
unfolding unlock_delete_keys deserialize_lock read_strings split_string decode_integer unlock
    unlock_each bytes_eq
unlocks = refl

listed : has_key (key_a ∷ []) key_a ≡ true
unfolding has_key bytes_eq
listed = refl

used : has_key (all_keys always second (key_a ∷ []) get_a.commands) key_a ≡ true
unfolding has_key bytes_eq all_keys
used = refl

slotted : hash_slot_compute checksum second get_a ≡ some (some 5)
unfolding hash_slot_compute compute_commands compute_keys key_hash_slot find slot_of
slotted = refl

found : get_slot_shard_group moving 5 false ≡ some (group migrating 108 true)
unfolding get_slot_shard_group get_group bytes_eq
found = refl

not-stable : slot_type (group migrating 108 true).slot_ranges 5 ≢ stable
unfolding slot_type
not-stable e = cc

lock_keys_lem_example :
    (keys : List Bytes) × (slot : ℕ) × (deserialize_lock body ≡ some keys)
    × Leaves checksum moving keys slot
    × ((k : Bytes) → has_key (key_a ∷ []) k ≡ (has_key [] k || (has_key keys k && always k)))
lock_keys_lem_example = lock_keys_lem checksum always moving [] body (key_a ∷ []) locks

unlock_delete_keys_lem_example :
    (deserialize_lock body ≡ some (key_a ∷ []))
    × ((k : Bytes) → has_key [] k ≡ (has_key (key_a ∷ []) k && not (has_key (key_a ∷ []) k)))
unlock_delete_keys_lem_example =
    unlock_delete_keys_lem (key_a ∷ []) (key_a ∷ []) [] body (tt, tt) unlocks

lock_keys-refused_example :
    handle_sharding always second (key_a ∷ []) checksum true moving get_a ≢ rr_ok
lock_keys-refused_example =
    lock_keys-refused checksum always second true moving [] (key_a ∷ []) (key_a ∷ []) body key_a
      get_a 5 (group migrating 108 true) locks body_read listed refl used refl slotted found
      not-stable

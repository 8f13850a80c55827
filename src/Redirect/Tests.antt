-- ===== src/Redirect/Tests.antt =====
-- A command on a slot that is migrating.
use redisraft.Prelude.{
  ℕ, ◌≡◌, refl, Bool, true, false, none, some, List, [], ◌∷◌, ◌==◌, if◌then◌else◌, ◌↔◌, ◌⊎◌,
}
use redisraft.Wire.{Bytes}
use redisraft.Commands.{Command, CommandArray, empty_array}
use redisraft.Sharding.{ShardGroup, ShardingInfo, migrating}
use redisraft.SlotCompute.{hash_slot_compute}
use redisraft.Redirect.{
  rr_ok, all_exist, some_exist, none_exist, locked_exist, validate_key_existence, handle_sharding,
}
use redisraft.Sharding.{stable, get_group}
use redisraft.Sharding.{
  Added, add_shard_group, validate, slots_free, slot_taken, map_slot, map_range, map_ranges,
  write_slot,
}
use redisraft.HashSlot.{key_hash_slot, find, slot_of}
use redisraft.SlotCompute.{compute_commands, compute_keys}
use redisraft.Redirect.{fault, rr_error}
use redisraft.Redirect.Empty.{add_shard_group-empty}
use redisraft.Redirect.Keys.{all, any, all_keys, is_held, validate_key_existence_lem}
use redisraft.Redirect.Served.{SlotServed, handle_sharding_iff}

abbrev sharding : ShardingInfo
sharding = record {
  shard_groups_num = 1;
  shard_group_map =
      record {
        id = 97 ∷ [];
        slot_ranges =
            record { start_slot = 0; end_slot = 16383; type = migrating; migration_session_key = 1 }
            ∷ [];
        nodes = [];
        is_local = true;
        next_redir = 0;
        node_conn_idx = 0;
        use_conn_addr = false;
        conn = false;
      }
      ∷ [];
  is_sharding = true;
  stable_slots_map = λ _. none;
  importing_slots_map = λ _. none;
  migrating_slots_map = λ _. some (97 ∷ []);
  max_importing_term = λ _. 0;
}

-- GET a, GET b
abbrev two_gets : CommandArray
two_gets = record empty_array {
  commands = ((71 ∷ []) ∷ (97 ∷ []) ∷ []) ∷ ((71 ∷ []) ∷ (98 ∷ []) ∷ []) ∷ [];
}

abbrev second : Command → List Bytes
second (name ∷ key ∷ argv) = key ∷ []
second _ = []

-- a is there, and locked
abbrev only_a : Bytes → Bool
only_a (c ∷ []) = c == 97
only_a _ = false

abbrev checksum : Bytes → ℕ
checksum key = 5

validate_key_existence_lem_example :
    validate_key_existence only_a second ((97 ∷ []) ∷ []) two_gets ≡ (
      let keys = all_keys only_a second ((97 ∷ []) ∷ []) two_gets.commands in
      if any (is_held only_a second ((97 ∷ []) ∷ [])) keys
      then locked_exist
      else if all only_a keys
      then all_exist
      else if any only_a keys
      then some_exist
      else none_exist)
validate_key_existence_lem_example =
    validate_key_existence_lem only_a second ((97 ∷ []) ∷ []) two_gets

handle_sharding_iff_example :
    (handle_sharding only_a second [] checksum true sharding two_gets ≡ rr_ok) ↔ (
      (true ≡ false)
      ⊎ SlotServed only_a second [] sharding two_gets (hash_slot_compute checksum second two_gets))
handle_sharding_iff_example = handle_sharding_iff only_a second [] checksum true sharding two_gets

-- the same slots, of a group elsewhere
abbrev no_nodes : ShardGroup
no_nodes = record {
  id = 98 ∷ [];
  slot_ranges =
      record { start_slot = 5; end_slot = 5; type = stable; migration_session_key = 0 } ∷ [];
  nodes = [];
  is_local = false;
  next_redir = 0;
  node_conn_idx = 0;
  use_conn_addr = false;
  conn = false;
}

abbrev no_groups : ShardingInfo
no_groups = record sharding {
  shard_groups_num = 0;
  shard_group_map = [];
  is_sharding = false;
  migrating_slots_map = λ _. none;
}

abbrev elsewhere : ShardingInfo
elsewhere = record no_groups {
  shard_groups_num = 1;
  shard_group_map = no_nodes ∷ [];
  is_sharding = true;
  stable_slots_map = write_slot (λ _. none) 5 (some (98 ∷ []));
}

elsewhere_added : add_shard_group true no_groups no_nodes ≡ Added.rr_ok elsewhere
unfolding add_shard_group validate slots_free slot_taken get_group map_slot map_range map_ranges
elsewhere_added = refl

all_in_five : hash_slot_compute checksum second two_gets ≡ some (some 5)
unfolding hash_slot_compute compute_commands compute_keys key_hash_slot find slot_of
all_in_five = refl

add_shard_group-empty_example :
    (handle_sharding only_a second [] checksum true elsewhere two_gets ≡ fault)
    × (handle_sharding only_a second [] checksum false elsewhere two_gets ≡ rr_error none elsewhere)
add_shard_group-empty_example =
    add_shard_group-empty only_a second [] checksum true no_groups no_nodes
      (record { start_slot = 5; end_slot = 5; type = stable; migration_session_key = 0 }) elsewhere
      two_gets 5 refl refl refl refl refl elsewhere_added all_in_five

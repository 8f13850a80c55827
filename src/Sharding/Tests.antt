-- ===== src/Sharding/Tests.antt =====
-- A group added to an empty assignment.
use redisraft.Prelude.{◌+◌, ◌≡◌, ◌↔◌, refl, true, false, some, none, List, [], ◌∷◌}
use redisraft.Sharding.{
  write_slot, ShardGroup, ShardingInfo, SlotRange, stable, add_shard_group, validate, slots_free,
  slot_taken, get_group, map_slot, map_range, map_ranges, rr_ok, is_some,
}
use redisraft.Prelude.{bytes_eq}
use redisraft.Sharding.Slots.{covered}
use redisraft.Sharding.Validate.{AllFree}
use redisraft.Sharding.Unassigned.{validate_iff, AllUnassigned}
use redisraft.Sharding.{Added, rr_error, panicked, importing, migrating, unknown}
use redisraft.Sharding.Order.{Only, add_shard_group_order}
use redisraft.Sharding.Add.{add_shard_group-rr_ok, Assigns, entered}

abbrev no_groups : ShardingInfo
no_groups = record {
  shard_groups_num = 0;
  shard_group_map = [];
  is_sharding = false;
  stable_slots_map = λ _. none;
  importing_slots_map = λ _. none;
  migrating_slots_map = λ _. none;
  max_importing_term = λ _. 7;
}

abbrev two_slots : List SlotRange
two_slots = record { start_slot = 5; end_slot = 6; type = stable; migration_session_key = 0 } ∷ []

abbrev group : ShardGroup
group = record {
  id = 97 ∷ [];
  slot_ranges = two_slots;
  nodes = [];
  is_local = true;
  next_redir = 0;
  node_conn_idx = 0;
  use_conn_addr = false;
  conn = false;
}

abbrev with_two : ShardingInfo
with_two = record {
  shard_groups_num = 1;
  shard_group_map = group ∷ [];
  is_sharding = true;
  stable_slots_map = write_slot (write_slot (λ _. none) 5 (some group.id)) 6 (some group.id);
  importing_slots_map = λ _. none;
  migrating_slots_map = λ _. none;
  max_importing_term = write_slot (write_slot (λ _. 7) 5 0) 6 0;
}

add_runs : add_shard_group false no_groups group ≡ rr_ok with_two
unfolding add_shard_group validate slots_free slot_taken get_group map_slot map_range map_ranges
add_runs = refl

add_shard_group-rr_ok_example :
    Assigns group (covered two_slots) no_groups with_two
    × AllFree no_groups two_slots
    × (1 ≡ 0 + 1)
    × (get_group (group ∷ []) group.id ≡ some (entered false group))
    × (is_some (get_group [] group.id) ≡ false)
add_shard_group-rr_ok_example = add_shard_group-rr_ok false no_groups group with_two add_runs

validate_iff_example : (validate no_groups two_slots ≡ true) ↔ AllUnassigned no_groups two_slots
validate_iff_example = validate_iff no_groups two_slots

abbrev new_nodes : ShardGroup
new_nodes = record group {
  nodes = record { node_id = 110 ∷ []; addr = record { host = 104 ∷ []; port = 1 } } ∷ [];
}

foreign : bytes_eq (122 ∷ []) new_nodes.id ≡ false
unfolding bytes_eq
foreign = refl

there : get_group with_two.shard_group_map new_nodes.id ≡ some group
unfolding get_group bytes_eq
there = refl

-- group b migrates the two slots
abbrev leaving : ShardGroup
leaving = record group {
  id = 98 ∷ [];
  slot_ranges =
      record { start_slot = 5; end_slot = 6; type = migrating; migration_session_key = 3 } ∷ [];
}

abbrev unwrap : Added → ShardingInfo
unwrap (rr_ok si) = si
unwrap rr_error = no_groups
unwrap panicked = no_groups

abbrev with_leaving : ShardingInfo
unfolding add_shard_group validate slots_free slot_taken get_group map_slot map_range map_ranges
with_leaving = unwrap (add_shard_group false no_groups leaving)

leaving_added : add_shard_group false no_groups leaving ≡ rr_ok with_leaving
unfolding add_shard_group validate slots_free slot_taken get_group map_slot map_range map_ranges
leaving_added = refl

leaving-Only : Only migrating leaving.slot_ranges
unfolding covered
leaving-Only stable j h = cc
leaving-Only importing j h = cc
leaving-Only migrating j h = refl
leaving-Only unknown j h = cc

two-Only : Only stable two_slots
unfolding covered
two-Only stable j h = refl
two-Only importing j h = cc
two-Only migrating j h = cc
two-Only unknown j h = cc

leaving_covers : covered leaving.slot_ranges migrating 5 ≡ true
unfolding covered
leaving_covers = refl

two_covers : covered two_slots stable 5 ≡ true
unfolding covered
two_covers = refl

add_shard_group_order_example :
    (validate with_leaving two_slots ≡ true) × (add_shard_group false with_two leaving ≡ rr_error)
add_shard_group_order_example =
    add_shard_group_order false no_groups with_leaving with_two leaving group migrating 5
      leaving_added add_runs leaving-Only two-Only leaving_covers two_covers

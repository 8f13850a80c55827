-- ===== src/Sharding.antt =====
-- cluster.c: `ShardingInfo`, the assignment of hash slots to shard groups, and how a group is added.
pub mod Slots
pub mod Validate
pub mod Unassigned
pub mod Add
pub mod Admit
pub mod Change
pub mod Order
mod Tests
use redisraft.Prelude.{
  ℕ, zero, suc, ◌+◌, ◌-◌, Bool, true, false, ◌&&◌, ◌||◌, not, Option, none, some, List, [], ◌∷◌,
  ◌==◌, leb, ltb, if◌then◌else◌, length, bytes_eq, ◌>>=◌,
}
use redisraft.Wire.{Bytes}
use redisraft.NodeAddr.{NodeAddr}

-- `SlotRangeType`; `unknown` is any value that is none of the three.
pub data SlotType : Type 0 where
  stable importing migrating unknown : SlotType

abbrev pub type_eq : SlotType → SlotType → Bool
type_eq stable stable = true
type_eq importing importing = true
type_eq migrating migrating = true
type_eq unknown unknown = true
type_eq _ _ = false

pub record SlotRange : Type 0 where
  pub start_slot : ℕ
  pub end_slot : ℕ
  pub type : SlotType
  pub migration_session_key : ℕ

pub record ShardGroupNode : Type 0 where
  pub node_id : Bytes
  pub addr : NodeAddr

-- The fields of `ShardGroup` that adding one reads or sets; `conn` says whether there is a
-- connection object. A pointer to a group in the tables below is the group's id.
pub record ShardGroup : Type 0 where
  pub id : Bytes
  pub slot_ranges : List SlotRange
  pub nodes : List ShardGroupNode
  pub is_local : Bool
  pub next_redir : ℕ
  pub node_conn_idx : ℕ
  pub use_conn_addr : Bool
  pub conn : Bool

pub record ShardingInfo : Type 0 where
  pub shard_groups_num : ℕ
  pub shard_group_map : List ShardGroup
  pub is_sharding : Bool
  pub stable_slots_map : ℕ → Option Bytes
  pub importing_slots_map : ℕ → Option Bytes
  pub migrating_slots_map : ℕ → Option Bytes
  pub max_importing_term : ℕ → ℕ

abbrev pub max_slot : ℕ
max_slot = 16383

-- `HashSlotValid`, `HashSlotRangeValid`; the slots are unsigned
abbrev pub range_valid : ℕ → ℕ → Bool
range_valid start end = leb start max_slot && leb end max_slot && leb start end

abbrev pub is_some {ℓ} : {A : Type ℓ} → Option A → Bool
is_some none = false
is_some (some a) = true

-- whether the slot is taken, for a range of this type
unfoldable pub slot_taken : ShardingInfo → SlotType → ℕ → Bool
slot_taken si type i =
    is_some (si.stable_slots_map i)
    || (type_eq type migrating && is_some (si.migrating_slots_map i))
    || (type_eq type importing && is_some (si.importing_slots_map i))

-- the loop over the slots of a range: `rounds` of them from `i` on
unfoldable pub slots_free : ShardingInfo → SlotType → ℕ → ℕ → Bool
slots_free si type zero i = true
slots_free si type (suc rounds) i =
    let rest = slots_free si type rounds (i + 1) in if slot_taken si type i then false else rest

-- `ShardingInfoValidateShardGroup`: whether it returns RR_OK
unfoldable pub validate : ShardingInfo → List SlotRange → Bool
validate si [] = true
validate si (r ∷ ranges) =
    let rest = validate si ranges in
    if not (range_valid r.start_slot r.end_slot)
    then false
    else if slots_free si r.type (r.end_slot + 1 - r.start_slot) r.start_slot
    then rest
    else false

-- `RedisModule_DictGetC` on the map of groups
unfoldable pub get_group : List ShardGroup → Bytes → Option ShardGroup
get_group [] id = none
get_group (g ∷ gs) id = let rest = get_group gs id in if bytes_eq g.id id then some g else rest

abbrev pub write_slot {ℓ} : {A : Type ℓ} → (ℕ → A) → ℕ → A → ℕ → A
write_slot f j v i = if i == j then v else f i

-- One slot of a range of the group; `none` is the PANIC.
unfoldable pub map_slot : ShardGroup → SlotType → ℕ → ShardingInfo → Option ShardingInfo
map_slot sg stable j si = some (record si {
  max_importing_term =
      if sg.is_local then write_slot si.max_importing_term j 0 else si.max_importing_term;
  stable_slots_map = write_slot si.stable_slots_map j (some sg.id);
})
map_slot sg importing j si =
    some (record si { importing_slots_map = write_slot si.importing_slots_map j (some sg.id) })
map_slot sg migrating j si = some (record si {
  max_importing_term =
      if sg.is_local then write_slot si.max_importing_term j 0 else si.max_importing_term;
  migrating_slots_map = write_slot si.migrating_slots_map j (some sg.id);
})
map_slot sg unknown j si = none

unfoldable pub map_range : ShardGroup → SlotType → ℕ → ℕ → ShardingInfo → Option ShardingInfo
map_range sg type zero j si = some si
map_range sg type (suc rounds) j si = do
  si ← map_slot sg type j si
  map_range sg type rounds (j + 1) si

unfoldable pub map_ranges : ShardGroup → List SlotRange → ShardingInfo → Option ShardingInfo
map_ranges sg [] si = some si
map_ranges sg (r ∷ ranges) si = do
  si ← map_range sg r.type (r.end_slot + 1 - r.start_slot) r.start_slot si
  map_ranges sg ranges si

-- whether the group is the local one and has all slots, as one stable range
abbrev all_slots : List SlotRange → Bool
all_slots (r ∷ []) = r.start_slot == 0 && r.end_slot == max_slot && type_eq r.type stable
all_slots _ = false

-- The end of `ShardingInfoAddShardGroup`; with one group in the map that group is `sg`.
abbrev set_sharding : ShardGroup → ShardingInfo → ShardingInfo
set_sharding sg si = if si.is_sharding then si else record si {
  is_sharding = not (si.shard_groups_num == 1) || not (sg.is_local && all_slots sg.slot_ranges);
}

pub data Added : Type 0 where
  rr_ok : ShardingInfo → Added
  rr_error : Added
  panicked : Added

abbrev added : ShardGroup → Option ShardingInfo → Added
added sg none = panicked
added sg (some si) = rr_ok (set_sharding sg si)

-- `ShardingInfoAddShardGroup`. An error leaves everything as it was; the group is then freed.
-- `external` is the configuration's `external_sharding`.
unfoldable pub add_shard_group : Bool → ShardingInfo → ShardGroup → Added
add_shard_group external si sg =
    if not (validate si sg.slot_ranges)
    then rr_error
    else if leb 33 (length sg.id)
    then rr_error
    else if is_some (get_group si.shard_group_map sg.id)
    then rr_error
    else (let sg = record sg {
      next_redir = 0;
      use_conn_addr = false;
      node_conn_idx = 0;
      conn = not external && ltb 0 (length sg.nodes);
    } in
        added sg (
          map_ranges sg sg.slot_ranges (record si {
            shard_group_map = sg ∷ si.shard_group_map;
            shard_groups_num = si.shard_groups_num + 1;
          })))

-- ===== src/Sharding/Change.antt =====
-- cluster.c: new nodes for a shard group that is there, and the reset before a snapshot is loaded.
use redisraft.Prelude.{
  ℕ, ◌≡◌, ◌↔◌, refl, inl, inr, Bool, true, false, Option, none, some, List, [], ◌∷◌, arith,
  if◌then◌else◌, bytes_eq, bytes_eq→eq, Bool-cases,
}
use redisraft.Wire.{Bytes}
use redisraft.Sharding.{
  ShardingInfo, ShardGroup, ShardGroupNode, SlotType, SlotRange, get_group, slot_taken, validate,
  stable, importing, migrating, unknown,
}
use redisraft.Sharding.Validate.{AllValid, validate-AllFree}

-- the group that `GetShardGroupById` finds, with other nodes
unfoldable pub set_nodes : List ShardGroup → Bytes → List ShardGroupNode → List ShardGroup
set_nodes [] id nodes = []
set_nodes (g ∷ gs) id nodes =
    let rest = set_nodes gs id nodes in
    if bytes_eq g.id id then record g { nodes = nodes } ∷ gs else g ∷ rest

abbrev found : Option ShardGroup → Bool
found none = false
found (some g) = true

-- `ShardingInfoUpdateShardGroup`; `dbid` is the id of the local cluster, and `none` is RR_ERROR.
unfoldable pub update_shard_group : Bytes → ShardingInfo → ShardGroup → Option ShardingInfo
update_shard_group dbid si sg =
    if bytes_eq dbid sg.id
    then some si
    else if found (get_group si.shard_group_map sg.id)
    then some (record si { shard_group_map = set_nodes si.shard_group_map sg.id sg.nodes })
    else none

-- `ShardingInfoReset`; the terms of the imports stay
unfoldable pub reset_sharding : ShardingInfo → ShardingInfo
reset_sharding si = record si {
  shard_group_map = [];
  shard_groups_num = 0;
  stable_slots_map = λ _. none;
  importing_slots_map = λ _. none;
  migrating_slots_map = λ _. none;
  is_sharding = false;
}

get_group-set_nodes :
    (gs : List ShardGroup) (id : Bytes) (nodes : List ShardGroupNode) (g : ShardGroup)
    → get_group gs id ≡ some g
    → get_group (set_nodes gs id nodes) id ≡ some (record g { nodes = nodes })
unfolding get_group set_nodes
get_group-set_nodes [] id nodes g h = cc
get_group-set_nodes (x ∷ gs) id nodes g h = elim (Bool-cases (bytes_eq x.id id)) [
  | inl same ↦ ground (arith, same, h)
  | inr other ↦ ground (arith, other, h, get_group-set_nodes gs id nodes g)
]

get_group-set_nodes_other :
    (gs : List ShardGroup) (id other_id : Bytes) (nodes : List ShardGroupNode)
    → bytes_eq id other_id ≡ false
    → get_group (set_nodes gs id nodes) other_id ≡ get_group gs other_id
unfolding get_group set_nodes
get_group-set_nodes_other [] id other_id nodes h = refl
get_group-set_nodes_other (x ∷ gs) id other_id nodes h = elim (Bool-cases (bytes_eq x.id id)) [
  | inl same ↦ ground (arith, same, h, bytes_eq→eq x.id id same)
  | inr other ↦ ground (arith, other, get_group-set_nodes_other gs id other_id nodes h)
]

-- Updating a group that is there, and is not that of the local cluster, succeeds; the group then has the new nodes and is
-- otherwise as it was, every other group is found as before, and no slot changes its owner.
pub update_shard_group-found :
    (dbid : Bytes) (si : ShardingInfo) (sg g : ShardGroup)
    → bytes_eq dbid sg.id ≡ false
    → get_group si.shard_group_map sg.id ≡ some g
    → (si' : ShardingInfo) × (update_shard_group dbid si sg ≡ some si')
      × (get_group si'.shard_group_map sg.id ≡ some (record g { nodes = sg.nodes }))
      × ((id : Bytes)
          → bytes_eq sg.id id ≡ false
          → get_group si'.shard_group_map id ≡ get_group si.shard_group_map id)
      × ((t : SlotType) (j : ℕ) → slot_taken si' t j ≡ slot_taken si t j)
unfolding update_shard_group slot_taken
update_shard_group-found dbid si sg g foreign there = (
  record si { shard_group_map = set_nodes si.shard_group_map sg.id sg.nodes },
  rw (foreign, there) refl,
  get_group-set_nodes si.shard_group_map sg.id sg.nodes g there,
  (λ id h. get_group-set_nodes_other si.shard_group_map sg.id id sg.nodes h),
  (λ t j. refl),
)

all_free : (si : ShardingInfo) (t : SlotType) (j : ℕ) → slot_taken (reset_sharding si) t j ≡ false
unfolding slot_taken reset_sharding
all_free si stable j = refl
all_free si importing j = refl
all_free si migrating j = refl
all_free si unknown j = refl

-- After a reset a list of ranges is let in exactly when all of them are valid.
pub validate-reset_sharding :
    (si : ShardingInfo) (ranges : List SlotRange)
    → (validate (reset_sharding si) ranges ≡ true) ↔ AllValid ranges
validate-reset_sharding si ranges =
    let (to, from) = validate-AllFree (reset_sharding si) ranges in
    ((λ h. (to h).0), (λ v. from (v, λ t j c. all_free si t j)))

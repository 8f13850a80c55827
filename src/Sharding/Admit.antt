-- ===== src/Sharding/Admit.antt =====
-- When `ShardingInfoAddShardGroup` succeeds.
use redisraft.Prelude.{
  ℕ, zero, suc, ◌+◌, ◌-◌, ◌≤◌, ◌≡◌, ◌≢◌, refl, Bool, true, false, some, List, [], ◌∷◌, arith, leb,
  length,
}
use redisraft.Sharding.{
  ShardGroup, ShardingInfo, SlotType, SlotRange, stable, importing, migrating, unknown, is_some,
  validate, get_group, map_slot, map_range, map_ranges, add_shard_group, rr_ok, set_sharding,
}
use redisraft.Sharding.Add.{entered}

-- no range has a type that is none of the three
abbrev pub AllKnown : List SlotRange → Type 0
AllKnown [] = Unit
AllKnown (r ∷ ranges) = (r.type ≢ unknown) × AllKnown ranges

map_slot-known :
    (sg : ShardGroup) (t : SlotType) (j : ℕ) (si : ShardingInfo)
    → t ≢ unknown
    → (si' : ShardingInfo) × (map_slot sg t j si ≡ some si')
unfolding map_slot
map_slot-known sg stable j si h = (_, refl)
map_slot-known sg importing j si h = (_, refl)
map_slot-known sg migrating j si h = (_, refl)
map_slot-known sg unknown j si h = absurd (h refl)

map_range-known :
    (sg : ShardGroup) (t : SlotType) (rounds j : ℕ) (si : ShardingInfo)
    → t ≢ unknown
    → (si' : ShardingInfo) × (map_range sg t rounds j si ≡ some si')
unfolding map_range
map_range-known sg t zero j si h = (si, refl)
map_range-known sg t (suc rounds) j si h =
    let (mid, first) = map_slot-known sg t j si h in
    let (end, rest) = map_range-known sg t rounds (j + 1) mid h in (end, rw first rest)

map_ranges-AllKnown :
    (sg : ShardGroup) (ranges : List SlotRange) (si : ShardingInfo)
    → AllKnown ranges
    → (si' : ShardingInfo) × (map_ranges sg ranges si ≡ some si')
unfolding map_ranges
map_ranges-AllKnown sg [] si h = (si, refl)
map_ranges-AllKnown sg (r ∷ ranges) si h =
    let (mid, first) =
      map_range-known sg r.type (r.end_slot + 1 - r.start_slot) r.start_slot si h.0 in
    let (end, rest) = map_ranges-AllKnown sg ranges mid h.1 in (end, rw first rest)

-- a group whose ranges are let in, of known types, and whose id is short and new is added
pub add_shard_group-AllKnown :
    (external : Bool) (si : ShardingInfo) (sg : ShardGroup)
    → validate si sg.slot_ranges ≡ true
    → length sg.id ≤ 32
    → is_some (get_group si.shard_group_map sg.id) ≡ false
    → AllKnown sg.slot_ranges
    → (si' : ShardingInfo) × (add_shard_group external si sg ≡ rr_ok si')
unfolding add_shard_group
add_shard_group-AllKnown external si sg valid short fresh known =
    let g = entered external sg in
    let fits : leb 33 (length sg.id) ≡ false = ground (arith, short) in
    let (mid, mapped) =
      map_ranges-AllKnown g sg.slot_ranges
        (record si {
          shard_group_map = g ∷ si.shard_group_map;
          shard_groups_num = si.shard_groups_num + 1;
        })
        known in
    (set_sharding g mid, rw (valid, fits, fresh, mapped) refl)

-- ===== src/Snapshot/Tables.antt =====
-- What entering the saved groups one after the other makes of the tables and of the map.
use redisraft.Prelude.{
  ℕ, ◌≡◌, ◌≢◌, ◌≤◌, length, refl, ap, ◌∙◌, Bool, false, Option, none, some, List, [], ◌∷◌, map,
  bytes_eq, if◌then◌else◌, Bool-cases, inl, inr,
}
use redisraft.Wire.{Bytes}
use redisraft.Sharding.{
  ShardGroup, ShardingInfo, SlotType, SlotRange, stable, importing, migrating, add_shard_group,
  rr_ok, unknown, max_slot, is_some, get_group,
}
use redisraft.Sharding.Slots.{covered}
use redisraft.Sharding.Add.{entered, add_shard_group-rr_ok, add_shard_group-shard_group_map}
use redisraft.Sharding.Change.{reset_sharding}
use redisraft.GroupText.RoundTrip.{read_back}
use redisraft.Snapshot.Groups.{add_groups, set_local}
use redisraft.Sharding.Unassigned.{Unassigned, AllUnassigned, validate_iff}
use redisraft.Sharding.Admit.{AllKnown, add_shard_group-AllKnown}

-- the group that has the slot in a range of this type, the latest one of the list if there are several
abbrev pub owner_of : SlotType → ℕ → List ShardGroup → Option Bytes
owner_of t j [] = none
owner_of t j (g ∷ groups) = if covered g.slot_ranges t j then some g.id else owner_of t j groups

-- the three tables say which group has a slot in a range of their type
abbrev pub TablesOf : ShardingInfo → List ShardGroup → Type 0
TablesOf si groups =
    ((j : ℕ) → si.stable_slots_map j ≡ owner_of stable j groups)
    × ((j : ℕ) → si.importing_slots_map j ≡ owner_of importing j groups)
    × ((j : ℕ) → si.migrating_slots_map j ≡ owner_of migrating j groups)

abbrev pub onto : List ShardGroup → List ShardGroup → List ShardGroup
onto [] done = done
onto (g ∷ groups) done = onto groups (g ∷ done)

-- a group in the map after loading: what was saved, with a new runtime state
abbrev pub reentered : Bool → Bytes → ShardGroup → ShardGroup
reentered external dbid g = entered external (set_local dbid (read_back g))

set_local-same :
    (dbid : Bytes) (g : ShardGroup)
    → ((set_local dbid g).id ≡ g.id) × ((set_local dbid g).slot_ranges ≡ g.slot_ranges)
set_local-same dbid g = elim (Bool-cases (bytes_eq g.id dbid)) [
  | inl own ↦ rw own (refl, refl)
  | inr other ↦ rw other (refl, refl)
]

-- one group more
add_shard_group-TablesOf :
    (external : Bool) (dbid : Bytes) (g : ShardGroup) (done : List ShardGroup)
    (si mid : ShardingInfo)
    → TablesOf si done
    → si.shard_group_map ≡ map (reentered external dbid) done
    → add_shard_group external si (set_local dbid (read_back g)) ≡ rr_ok mid
    → TablesOf mid (g ∷ done) × (mid.shard_group_map ≡ map (reentered external dbid) (g ∷ done))
add_shard_group-TablesOf external dbid g done si mid tables same added =
    let sg = set_local dbid (read_back g) in
    let (assigns, free, count, there, fresh) = add_shard_group-rr_ok external si sg mid added in
    let (id, ranges) = set_local-same dbid (read_back g) in
    (
      (
        (λ j. assigns.0 j ∙ rw (ranges, id, tables.0 j) refl),
        (λ j. assigns.1 j ∙ rw (ranges, id, tables.1 j) refl),
        (λ j. assigns.2 j ∙ rw (ranges, id, tables.2 j) refl),
      ),
      add_shard_group-shard_group_map external si sg mid added
          ∙ ap (λ gs. entered external sg ∷ gs) same,
    )

-- No group has the slot as stable; and none imports it, or migrates it, if that is what the range is for.
abbrev pub NotOwned : List ShardGroup → SlotType → ℕ → Type 0
NotOwned done importing j = (owner_of stable j done ≡ none) × (owner_of importing j done ≡ none)
NotOwned done migrating j = (owner_of stable j done ≡ none) × (owner_of migrating j done ≡ none)
NotOwned done stable j = owner_of stable j done ≡ none
NotOwned done unknown j = owner_of stable j done ≡ none

-- The ranges run upwards within the 16384 slots, are of known types, and no group has their slots yet.
abbrev pub RangesFit : List ShardGroup → List SlotRange → Type 0
RangesFit done [] = Unit
RangesFit done (r ∷ ranges) =
    (r.type ≢ unknown)
    × (r.start_slot ≤ r.end_slot)
    × (r.end_slot ≤ max_slot)
    × ((j : ℕ) → r.start_slot ≤ j → j ≤ r.end_slot → NotOwned done r.type j)
    × RangesFit done ranges

abbrev pub IsNewId : Bytes → List ShardGroup → Type 0
IsNewId id [] = Unit
IsNewId id (d ∷ done) = (bytes_eq d.id id ≡ false) × IsNewId id done

-- The groups can be entered in this order, behind those that are: each has an id that is new and not too long, and
-- ranges that fit.
abbrev pub Enterable : List ShardGroup → List ShardGroup → Type 0
Enterable done [] = Unit
Enterable done (g ∷ groups) =
    IsNewId g.id done
    × (length g.id ≤ 32)
    × RangesFit done g.slot_ranges
    × Enterable (g ∷ done) groups

NotOwned-Unassigned :
    (si : ShardingInfo) (done : List ShardGroup) (t : SlotType) (j : ℕ)
    → TablesOf si done
    → NotOwned done t j
    → Unassigned si t j
NotOwned-Unassigned si done stable j tables h = tables.0 j ∙ h
NotOwned-Unassigned si done unknown j tables h = tables.0 j ∙ h
NotOwned-Unassigned si done importing j tables h = (tables.0 j ∙ h.0, tables.1 j ∙ h.1)
NotOwned-Unassigned si done migrating j tables h = (tables.0 j ∙ h.0, tables.2 j ∙ h.1)

RangesFit-AllUnassigned :
    (si : ShardingInfo) (done : List ShardGroup) (ranges : List SlotRange)
    → TablesOf si done
    → RangesFit done ranges
    → AllUnassigned si ranges × AllKnown ranges
RangesFit-AllUnassigned si done [] tables h = (tt, tt)
RangesFit-AllUnassigned si done (r ∷ ranges) tables h =
    let (known, up, low, free, others) = h in
    let (unassigned, all_known) = RangesFit-AllUnassigned si done ranges tables others in
    (
      (
        up,
        low,
        (λ j le lt. NotOwned-Unassigned si done r.type j tables (free j le lt)),
        unassigned,
      ),
      (known, all_known),
    )

get_group-IsNewId :
    (external : Bool) (dbid id : Bytes) (done : List ShardGroup)
    → IsNewId id done
    → is_some (get_group (map (reentered external dbid) done) id) ≡ false
unfolding get_group
get_group-IsNewId external dbid id [] h = refl
get_group-IsNewId external dbid id (d ∷ done) h =
    rw ((set_local-same dbid (read_back d)).0, h.0) (get_group-IsNewId external dbid id done h.1)

add_shard_group-Enterable :
    (external : Bool) (dbid : Bytes) (g : ShardGroup) (done : List ShardGroup) (si : ShardingInfo)
    → TablesOf si done
    → si.shard_group_map ≡ map (reentered external dbid) done
    → IsNewId g.id done
    → length g.id ≤ 32
    → RangesFit done g.slot_ranges
    → (mid : ShardingInfo) × (add_shard_group external si (set_local dbid (read_back g))
        ≡ rr_ok mid)
add_shard_group-Enterable external dbid g done si tables same fresh short fit =
    let sg = set_local dbid (read_back g) in
    let (id, ranges) = set_local-same dbid (read_back g) in
    let (unassigned, known) = RangesFit-AllUnassigned si done g.slot_ranges tables fit in
    let valid = (validate_iff si g.slot_ranges).1 unassigned in
    add_shard_group-AllKnown external si sg (rw ranges valid) (rw id short)
      (rw (same, id) (get_group-IsNewId external dbid g.id done fresh)) (rw ranges known)

add_groups-TablesOf :
    (external : Bool) (dbid : Bytes) (groups done : List ShardGroup) (si : ShardingInfo)
    → TablesOf si done
    → si.shard_group_map ≡ map (reentered external dbid) done
    → Enterable done groups
    → (built : ShardingInfo) × (add_groups external dbid (map read_back groups) si ≡ some built)
      × TablesOf built (onto groups done)
      × (built.shard_group_map ≡ map (reentered external dbid) (onto groups done))
unfolding add_groups
add_groups-TablesOf external dbid [] done si tables same h = (si, refl, tables, same)
add_groups-TablesOf external dbid (g ∷ groups) done si tables same h =
    let (fresh, short, fit, others) = h in
    let (mid, added) =
      add_shard_group-Enterable external dbid g done si tables same fresh short fit in
    let (now, entries) = add_shard_group-TablesOf external dbid g done si mid tables same added in
    let (built, run, end, all) =
      add_groups-TablesOf external dbid groups (g ∷ done) mid now entries others in
    (built, rw added run, end, all)

-- Groups that can be entered in their order are all entered after a reset, none being refused, and give exactly their own tables and map.
pub add_groups-reset_sharding :
    (external : Bool) (dbid : Bytes) (groups : List ShardGroup) (old : ShardingInfo)
    → Enterable [] groups
    → (built : ShardingInfo) × (add_groups external dbid (map read_back groups) (reset_sharding old)
        ≡ some built)
      × TablesOf built (onto groups [])
      × (built.shard_group_map ≡ map (reentered external dbid) (onto groups []))
unfolding reset_sharding
add_groups-reset_sharding external dbid groups old h =
    add_groups-TablesOf external dbid groups [] (reset_sharding old)
      ((λ j. refl), (λ j. refl), (λ j. refl)) refl h

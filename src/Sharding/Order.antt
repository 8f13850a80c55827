-- ===== src/Sharding/Order.antt =====
-- cluster.c: the order in which groups are added makes a difference, and a snapshot does not keep it.
use redisraft.Prelude.{ℕ, ◌≡◌, refl, sym, ◌∙◌, Bool, true, false, List, arith}
use redisraft.Sharding.{
  ShardingInfo, ShardGroup, SlotType, SlotRange, stable, migrating, slot_taken, validate, is_some,
  add_shard_group, rr_ok, rr_error,
}
use redisraft.Sharding.Slots.{covered}
use redisraft.Sharding.Validate.{AllFree, validate-AllFree}
use redisraft.Sharding.Add.{Assigns, add_shard_group-rr_ok, add_shard_group-validate}

-- every slot that the ranges cover is covered by a range of this type
abbrev pub Only : SlotType → List SlotRange → Type 0
Only type ranges = (t : SlotType) (j : ℕ) → covered ranges t j ≡ true → t ≡ type

taken_by_stable :
    (si : ShardingInfo) (t : SlotType) (j : ℕ)
    → is_some (si.stable_slots_map j) ≡ true
    → slot_taken si t j ≡ true
unfolding slot_taken
taken_by_stable si t j h = rw h refl

stable_taken :
    (si : ShardingInfo) (j : ℕ) → slot_taken si stable j ≡ is_some (si.stable_slots_map j)
unfolding slot_taken
stable_taken si j = ground arith

refused :
    (external : Bool) (si : ShardingInfo) (sg : ShardGroup)
    → validate si sg.slot_ranges ≡ false
    → add_shard_group external si sg ≡ rr_error
unfolding add_shard_group
refused external si sg h = rw h refl

not_true : (b : Bool) → (b ≡ true → ⊥) → b ≡ false
not_true true h = absurd (h refl)
not_true false h = refl

migrating-stable : (stable ≡ migrating) → ⊥
migrating-stable e = cc

-- a stable range that was free still is when migrating slots have been assigned
still_free :
    (si si' : ShardingInfo) (a b : ShardGroup) (t : SlotType) (j : ℕ)
    → Assigns a (covered a.slot_ranges) si si'
    → AllFree si b.slot_ranges
    → Only migrating a.slot_ranges
    → Only stable b.slot_ranges
    → covered b.slot_ranges t j ≡ true
    → slot_taken si' t j ≡ false
still_free si si' a b t j assigns free only_a only_b c =
    let is_stable = only_b t j c in
    let here : covered b.slot_ranges stable j ≡ true = rw (← is_stable) c in
    let before : is_some (si.stable_slots_map j) ≡ false =
      sym (stable_taken si j) ∙ free stable j here in
    let unmarked : covered a.slot_ranges stable j ≡ false =
      not_true _ (λ m. migrating-stable (only_a stable j m)) in
    let after : is_some (si'.stable_slots_map j) ≡ false = rw (assigns.0 j, unmarked) before in
    rw is_stable (stable_taken si' j ∙ after)

-- Take a group with migrating slots only and one with stable slots only that could each be added, with a slot in common.
-- After the first one the second is still let in, but after the second one the first is refused.
pub add_shard_group_order :
    (external : Bool) (si first second : ShardingInfo) (a b : ShardGroup) (t : SlotType) (j : ℕ)
    → add_shard_group external si a ≡ rr_ok first
    → add_shard_group external si b ≡ rr_ok second
    → Only migrating a.slot_ranges
    → Only stable b.slot_ranges
    → covered a.slot_ranges t j ≡ true
    → covered b.slot_ranges stable j ≡ true
    → (validate first b.slot_ranges ≡ true) × (add_shard_group external second a ≡ rr_error)
add_shard_group_order external si first second a b t j add_a add_b only_a only_b in_a in_b =
    let (assigns_a, free_a, _, _, _) = add_shard_group-rr_ok external si a first add_a in
    let (assigns_b, free_b, _, _, _) = add_shard_group-rr_ok external si b second add_b in
    let valid_b = add_shard_group-validate external si b second add_b in
    let all_valid = ((validate-AllFree si b.slot_ranges).0 valid_b).0 in
    let owned : is_some (second.stable_slots_map j) ≡ true = rw (assigns_b.0 j, in_b) refl in
    (
      (validate-AllFree first b.slot_ranges).1
          (all_valid, (λ s i c. still_free si first a b s i assigns_a free_b only_a only_b c)),
      refused external second a (
          not_true _ (λ v.
            let free = ((validate-AllFree second a.slot_ranges).0 v).1 t j in_a in
            let taken = taken_by_stable second t j owned in ground (arith, free, taken))),
    )

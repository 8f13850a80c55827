-- ===== src/Sharding/Unassigned.antt =====
-- What `ShardingInfoValidateShardGroup` asks of the slots, read off the tables themselves.
use redisraft.Prelude.{
  refl, sym, ◌&&◌, ℕ, ◌≤◌, ◌≡◌, ◌↔◌, Bool-cases, inl, inr, true, false, Option, none, some, List,
  [], ◌∷◌, arith,
}
use redisraft.Sharding.{
  ShardingInfo, SlotType, SlotRange, stable, importing, migrating, unknown, is_some, max_slot,
  slot_taken, validate, type_eq,
}
use redisraft.Sharding.Slots.{covered, within, type_eq→eq, type_eq_refl}
use redisraft.Sharding.Validate.{AllValid, AllFree, validate-AllFree}

-- No group has the slot as stable; and no group imports it, or migrates it, if that is what the range
-- is for.
abbrev pub Unassigned : ShardingInfo → SlotType → ℕ → Type 0
Unassigned si importing j = (si.stable_slots_map j ≡ none) × (si.importing_slots_map j ≡ none)
Unassigned si migrating j = (si.stable_slots_map j ≡ none) × (si.migrating_slots_map j ≡ none)
Unassigned si stable j = si.stable_slots_map j ≡ none
Unassigned si unknown j = si.stable_slots_map j ≡ none

-- every range runs upwards within the 16384 slots, and each of its slots is unassigned
abbrev pub AllUnassigned : ShardingInfo → List SlotRange → Type 0
AllUnassigned si [] = Unit
AllUnassigned si (r ∷ ranges) =
    (r.start_slot ≤ r.end_slot)
    × (r.end_slot ≤ max_slot)
    × ((j : ℕ) → r.start_slot ≤ j → j ≤ r.end_slot → Unassigned si r.type j)
    × AllUnassigned si ranges

no_group : {A : Type 0} → (o : Option A) → is_some o ≡ false → o ≡ none
no_group none h = refl
no_group (some a) h = cc

is_some-none : {A : Type 0} → (o : Option A) → o ≡ none → is_some o ≡ false
is_some-none none h = refl
is_some-none (some a) h = cc

slot_taken→ :
    (si : ShardingInfo) (t : SlotType) (j : ℕ) → slot_taken si t j ≡ false → Unassigned si t j
unfolding slot_taken
slot_taken→ si stable j h = no_group (si.stable_slots_map j) (ground (arith, h))
slot_taken→ si unknown j h = no_group (si.stable_slots_map j) (ground (arith, h))
slot_taken→ si importing j h = (
  no_group (si.stable_slots_map j) (ground (arith, h)),
  no_group (si.importing_slots_map j) (ground (arith, h)),
)
slot_taken→ si migrating j h = (
  no_group (si.stable_slots_map j) (ground (arith, h)),
  no_group (si.migrating_slots_map j) (ground (arith, h)),
)

slot_taken← :
    (si : ShardingInfo) (t : SlotType) (j : ℕ) → Unassigned si t j → slot_taken si t j ≡ false
unfolding slot_taken
slot_taken← si stable j u = rw (is_some-none (si.stable_slots_map j) u) refl
slot_taken← si unknown j u = rw (is_some-none (si.stable_slots_map j) u) refl
slot_taken← si importing j u =
    rw (is_some-none (si.stable_slots_map j) u.0, is_some-none (si.importing_slots_map j) u.1) refl
slot_taken← si migrating j u =
    rw (is_some-none (si.stable_slots_map j) u.0, is_some-none (si.migrating_slots_map j) u.1) refl

unassigned→ :
    (si : ShardingInfo) (ranges : List SlotRange)
    → AllValid ranges
    → AllFree si ranges
    → AllUnassigned si ranges
unfolding covered
unassigned→ si [] v f = tt
unassigned→ si (r ∷ ranges) v f = (
  ground (arith, v.0),
  ground (arith, v.0),
  (λ j le lt. slot_taken→ si r.type j (f r.type j (ground (arith, type_eq_refl r.type, le, lt)))),
  unassigned→ si ranges v.1 (λ t j c. f t j (ground (arith, c))),
)

unassigned← :
    (si : ShardingInfo) (ranges : List SlotRange)
    → AllUnassigned si ranges
    → AllValid ranges × AllFree si ranges
unfolding covered
unassigned← si [] u = (tt, λ t j c. cc)
unassigned← si (r ∷ ranges) u =
    let (up, low, free, rest) = u in
    let (v, f) = unassigned← si ranges rest in
    (
      (ground (arith, up, low), v),
      (λ t j c. elim (Bool-cases (type_eq r.type t && within r j)) [
        | inl here ↦
            let e : r.type ≡ t = type_eq→eq r.type t (ground (arith, here)) in
            rw (sym e)
              (slot_taken← si r.type j (free j (ground (arith, here)) (ground (arith, here))))
        | inr elsewhere ↦ f t j (ground (arith, elsewhere, c))
      ]),
    )

-- A list of ranges is let in exactly when every range runs upwards within the 16384 slots and, for
-- each slot of a range, no group has it as stable, none imports it if the range is importing, and
-- none migrates it if the range is migrating.
pub validate_iff :
    (si : ShardingInfo) (ranges : List SlotRange)
    → (validate si ranges ≡ true) ↔ AllUnassigned si ranges
validate_iff si ranges =
    let (to, from) = validate-AllFree si ranges in
    (
      (λ h. unassigned→ si ranges (to h).0 (to h).1),
      (λ u. let (v, f) = unassigned← si ranges u in from (v, f)),
    )

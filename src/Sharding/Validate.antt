-- ===== src/Sharding/Validate.antt =====
-- Which groups `ShardingInfoValidateShardGroup` lets in.
use redisraft.Prelude.{
  ℕ, zero, suc, ◌+◌, ◌-◌, ◌≤◌, ◌<◌, ◌≡◌, ◌↔◌, refl, sym, inl, inr, true, false, ◌&&◌, List, [], ◌∷◌,
  arith, ◌==◌, Bool-cases,
}
use redisraft.Sharding.{
  ShardingInfo, SlotType, SlotRange, range_valid, slot_taken, slots_free, validate, type_eq,
}
use redisraft.Sharding.Slots.{covered, within, type_eq→eq, type_eq_refl}

slots_free_lem :
    (si : ShardingInfo) (t : SlotType) (rounds i j : ℕ)
    → slots_free si t rounds i ≡ true
    → i ≤ j
    → j < i + rounds
    → slot_taken si t j ≡ false
unfolding slots_free
slots_free_lem si t zero i j h le lt = absurd (omega arith)
slots_free_lem si t (suc rounds) i j h le lt = elim (Bool-cases (slot_taken si t i)) [
  | inl taken ↦ absurd (ground (arith, taken, h))
  | inr free ↦ elim (Bool-cases (i == j)) [
    | inl same ↦ ground (arith, free, same)
    | inr other ↦
        slots_free_lem si t rounds (i + 1) j (ground (arith, free, h)) (ground (arith, other))
          (omega arith)
  ]
]

slots_free-intro :
    (si : ShardingInfo) (t : SlotType) (rounds i : ℕ)
    → ((j : ℕ) → i ≤ j → j < i + rounds → slot_taken si t j ≡ false)
    → slots_free si t rounds i ≡ true
unfolding slots_free
slots_free-intro si t zero i f = refl
slots_free-intro si t (suc rounds) i f =
    rw (f i (omega arith) (omega arith))
      (slots_free-intro si t rounds (i + 1) (λ j le lt. f j (omega arith) (omega arith)))

-- every range lies within the 16384 slots and is not empty
abbrev pub AllValid : List SlotRange → Type 0
AllValid [] = Unit
AllValid (r ∷ ranges) = (range_valid r.start_slot r.end_slot ≡ true) × AllValid ranges

-- no slot of a range is taken, for a range of its type
abbrev pub AllFree : ShardingInfo → List SlotRange → Type 0
AllFree si ranges = (t : SlotType) (j : ℕ) → covered ranges t j ≡ true → slot_taken si t j ≡ false

valid_lem : (r : SlotRange) → range_valid r.start_slot r.end_slot ≡ true → r.start_slot ≤ r.end_slot
valid_lem r h = ground arith

validate→ :
    (si : ShardingInfo) (ranges : List SlotRange)
    → validate si ranges ≡ true
    → AllValid ranges × AllFree si ranges
unfolding validate covered
validate→ si [] h = (tt, λ t j c. cc)
validate→ si (r ∷ ranges) h =
    let valid : range_valid r.start_slot r.end_slot ≡ true = ground (arith, h) in
    let free : slots_free si r.type (r.end_slot + 1 - r.start_slot) r.start_slot ≡ true =
      ground (arith, h) in
    let rest : validate si ranges ≡ true = ground (arith, h) in
    let (vs, fs) = validate→ si ranges rest in
    (
      (valid, vs),
      (λ t j c. elim (Bool-cases (type_eq r.type t && within r j)) [
        | inl here ↦
            let e : r.type ≡ t = type_eq→eq r.type t (ground (arith, here)) in
            rw (sym e) (
              slots_free_lem si r.type (r.end_slot + 1 - r.start_slot) r.start_slot j free
                (ground (arith, here)) (ground (arith, here)))
        | inr elsewhere ↦ fs t j (ground (arith, elsewhere, c))
      ]),
    )

validate← :
    (si : ShardingInfo) (ranges : List SlotRange)
    → AllValid ranges
    → AllFree si ranges
    → validate si ranges ≡ true
unfolding validate covered
validate← si [] v f = refl
validate← si (r ∷ ranges) v f =
    let free : slots_free si r.type (r.end_slot + 1 - r.start_slot) r.start_slot ≡ true =
      slots_free-intro si r.type (r.end_slot + 1 - r.start_slot) r.start_slot
        (λ j le lt. f r.type j (ground (arith, type_eq_refl r.type, le, lt))) in
    rw (v.0, free) (validate← si ranges v.1 (λ t j c. f t j (ground (arith, c))))

pub validate-AllFree :
    (si : ShardingInfo) (ranges : List SlotRange)
    → (validate si ranges ≡ true) ↔ (AllValid ranges × AllFree si ranges)
validate-AllFree si ranges = (validate→ si ranges, λ h. validate← si ranges h.0 h.1)

-- ===== src/Sharding/Add.antt =====
-- What `ShardingInfoAddShardGroup` does to the three slot tables.
use redisraft.Prelude.{
  ◌∙◌, ℕ, zero, suc, ◌+◌, ◌-◌, ◌≡◌, refl, inl, inr, Bool, true, false, ◌&&◌, ◌||◌, not, List, [],
  ◌∷◌, arith, ltb, leb, ◌==◌, if◌then◌else◌, Bool-cases, Option, some, none, ◌>>=◌, bytes_eq_refl,
  length,
}
use redisraft.Wire.{Bytes}
use redisraft.Sharding.{
  ShardGroup, ShardingInfo, SlotType, SlotRange, stable, importing, migrating, unknown, validate,
  type_eq, map_slot, map_range, map_ranges, add_shard_group, added, rr_ok, get_group, set_sharding,
  is_some,
}
use redisraft.Sharding.Validate.{AllFree, validate-AllFree}
use redisraft.Sharding.Slots.{covered}

-- the group that a table of this type gives the slot to
abbrev pub owner : ShardingInfo → SlotType → ℕ → Option Bytes
owner si stable j = si.stable_slots_map j
owner si importing j = si.importing_slots_map j
owner si migrating j = si.migrating_slots_map j
owner si unknown j = none

-- The marked slots go to the group, all others stay as they are; the group's importing terms are
-- reset where it becomes the stable or migrating owner and is the local one.
abbrev pub Assigns : ShardGroup → (SlotType → ℕ → Bool) → ShardingInfo → ShardingInfo → Type 0
Assigns sg mark si si' =
    ((j : ℕ)
      → si'.stable_slots_map j ≡ (if mark stable j then some sg.id else si.stable_slots_map j))
    × ((j : ℕ)
        → si'.importing_slots_map j
          ≡ (if mark importing j then some sg.id else si.importing_slots_map j))
    × ((j : ℕ)
        → si'.migrating_slots_map j
          ≡ (if mark migrating j then some sg.id else si.migrating_slots_map j))
    × ((j : ℕ)
        → si'.max_importing_term j ≡ (
            if sg.is_local && (mark stable j || mark migrating j)
            then 0
            else si.max_importing_term j))

-- what the loops do not touch
abbrev SameGroups : ShardingInfo → ShardingInfo → Type 0
SameGroups si si' =
    (si'.shard_group_map ≡ si.shard_group_map)
    × (si'.shard_groups_num ≡ si.shard_groups_num)
    × (si'.is_sharding ≡ si.is_sharding)

one_slot : SlotType → ℕ → SlotType → ℕ → Bool
one_slot s k t j = type_eq s t && j == k

slots_from : SlotType → ℕ → ℕ → SlotType → ℕ → Bool
slots_from s rounds k t j = type_eq s t && leb k j && ltb j (k + rounds)

map_slot-Assigns :
    (sg : ShardGroup) (t : SlotType) (k : ℕ) (si si' : ShardingInfo)
    → map_slot sg t k si ≡ some si'
    → Assigns sg (one_slot t k) si si' × SameGroups si si'
unfolding map_slot one_slot
map_slot-Assigns sg stable k si si' h = (
  (
    (λ j. ground (arith, h)),
    (λ j. ground (arith, h)),
    (λ j. ground (arith, h)),
    (λ j. ground (arith, h)),
  ),
  (cc, cc, cc),
)
map_slot-Assigns sg importing k si si' h = (
  (
    (λ j. ground (arith, h)),
    (λ j. ground (arith, h)),
    (λ j. ground (arith, h)),
    (λ j. ground (arith, h)),
  ),
  (cc, cc, cc),
)
map_slot-Assigns sg migrating k si si' h = (
  (
    (λ j. ground (arith, h)),
    (λ j. ground (arith, h)),
    (λ j. ground (arith, h)),
    (λ j. ground (arith, h)),
  ),
  (cc, cc, cc),
)
map_slot-Assigns sg unknown k si si' h = cc

slots_from-suc :
    (t : SlotType) (rounds k : ℕ) (s : SlotType) (j : ℕ)
    → slots_from t (suc rounds) k s j ≡ (one_slot t k s j || slots_from t rounds (k + 1) s j)
unfolding slots_from one_slot
slots_from-suc t rounds k s j = elim (Bool-cases (type_eq t s)) [
  | inl same ↦ rw same (ground arith)
  | inr other ↦ rw other refl
]

slots_from-within :
    (r : SlotRange) (ranges : List SlotRange) (t : SlotType) (j : ℕ)
    → covered (r ∷ ranges) t j
      ≡ (slots_from r.type (r.end_slot + 1 - r.start_slot) r.start_slot t j || covered ranges t j)
unfolding slots_from covered
slots_from-within r ranges t j = elim (Bool-cases (type_eq r.type t)) [
  | inl same ↦ rw same (ground arith)
  | inr other ↦ rw other refl
]

-- Two effects in a row.
Assigns-compose :
    (sg : ShardGroup) (m n both : SlotType → ℕ → Bool) (a b c : ShardingInfo)
    → ((t : SlotType) (j : ℕ) → both t j ≡ (m t j || n t j))
    → Assigns sg m a b × SameGroups a b
    → Assigns sg n b c × SameGroups b c
    → Assigns sg both a c × SameGroups a c
Assigns-compose sg m n both a b c e (f, p) (g, q) = (
  (
    (λ j. ground (arith, e stable j, f.0 j, g.0 j)),
    (λ j. ground (arith, e importing j, f.1 j, g.1 j)),
    (λ j. ground (arith, e migrating j, f.2 j, g.2 j)),
    (λ j. ground (arith, e stable j, e migrating j, f.3 j, g.3 j)),
  ),
  (cc, cc, cc),
)

Assigns-none :
    (sg : ShardGroup) (m : SlotType → ℕ → Bool) (a b : ShardingInfo)
    → ((t : SlotType) (j : ℕ) → m t j ≡ false)
    → a ≡ b
    → Assigns sg m a b × SameGroups a b
Assigns-none sg m a b none_marked e = (
  (
    (λ j. ground (arith, none_marked stable j, e)),
    (λ j. ground (arith, none_marked importing j, e)),
    (λ j. ground (arith, none_marked migrating j, e)),
    (λ j. ground (arith, none_marked stable j, none_marked migrating j, e)),
  ),
  (cc, cc, cc),
)

some_bind :
    {A B : Type 0} (o : Option A) (f : A → Option B) (b : B)
    → (o >>= f) ≡ some b
    → (a : A) × (o ≡ some a) × (f a ≡ some b)
some_bind none f b h = cc
some_bind (some a) f b h = (a, refl, h)

map_range-Assigns :
    (sg : ShardGroup) (t : SlotType) (rounds k : ℕ) (si si' : ShardingInfo)
    → map_range sg t rounds k si ≡ some si'
    → Assigns sg (slots_from t rounds k) si si' × SameGroups si si'
unfolding map_range slots_from
map_range-Assigns sg t zero k si si' h =
    Assigns-none sg (slots_from t zero k) si si' (λ t j. ground arith) cc
map_range-Assigns sg t (suc rounds) k si si' h =
    let (mid, first, rest) = some_bind (map_slot sg t k si) _ si' h in
    Assigns-compose sg (one_slot t k) (slots_from t rounds (k + 1)) (slots_from t (suc rounds) k) si
      mid si' (slots_from-suc t rounds k) (map_slot-Assigns sg t k si mid first)
      (map_range-Assigns sg t rounds (k + 1) mid si' rest)

map_ranges-Assigns :
    (sg : ShardGroup) (ranges : List SlotRange) (si si' : ShardingInfo)
    → map_ranges sg ranges si ≡ some si'
    → Assigns sg (covered ranges) si si' × SameGroups si si'
unfolding map_ranges covered
map_ranges-Assigns sg [] si si' h = Assigns-none sg (covered []) si si' (λ t j. refl) cc
map_ranges-Assigns sg (r ∷ ranges) si si' h =
    let (mid, first, rest) =
      some_bind (map_range sg r.type (r.end_slot + 1 - r.start_slot) r.start_slot si) _ si' h in
    Assigns-compose sg (slots_from r.type (r.end_slot + 1 - r.start_slot) r.start_slot)
      (covered ranges) (covered (r ∷ ranges)) si mid si' (slots_from-within r ranges)
      (map_range-Assigns sg r.type (r.end_slot + 1 - r.start_slot) r.start_slot si mid first)
      (map_ranges-Assigns sg ranges mid si' rest)

-- The final assignment to `is_sharding` leaves the tables and the groups as they are.
set_sharding-Assigns :
    (sg : ShardGroup) (mark : SlotType → ℕ → Bool) (a b : ShardingInfo)
    → Assigns sg mark a b
    → Assigns sg mark a (set_sharding sg b)
      × ((set_sharding sg b).shard_group_map ≡ b.shard_group_map)
      × ((set_sharding sg b).shard_groups_num ≡ b.shard_groups_num)
set_sharding-Assigns sg mark a b h = elim (Bool-cases b.is_sharding) [
  | inl on ↦ rw on (h, refl, refl)
  | inr off ↦ rw off (h, refl, refl)
]

added-rr_ok :
    (sg : ShardGroup) (o : Option ShardingInfo) (si' : ShardingInfo)
    → added sg o ≡ rr_ok si'
    → (mid : ShardingInfo) × (o ≡ some mid) × (si' ≡ set_sharding sg mid)
added-rr_ok sg none si' h = cc
added-rr_ok sg (some mid) si' h = (mid, refl, cc)

-- the group as it is entered
abbrev pub entered : Bool → ShardGroup → ShardGroup
entered external sg = record sg {
  next_redir = 0;
  use_conn_addr = false;
  node_conn_idx = 0;
  conn = not external && ltb 0 (length sg.nodes);
}

with_group : ShardingInfo → ShardGroup → ShardingInfo
with_group si sg = record si {
  shard_group_map = sg ∷ si.shard_group_map;
  shard_groups_num = si.shard_groups_num + 1;
}

-- What must have held on the way to the end.
add_shard_group-guards :
    (external : Bool) (si : ShardingInfo) (sg : ShardGroup) (si' : ShardingInfo)
    → add_shard_group external si sg ≡ rr_ok si'
    → (validate si sg.slot_ranges ≡ true)
      × (is_some (get_group si.shard_group_map sg.id) ≡ false)
      × (added
            (entered external sg)
            (map_ranges (entered external sg) sg.slot_ranges (with_group si (entered external sg)))
          ≡ rr_ok si')
unfolding add_shard_group with_group
add_shard_group-guards external si sg si' h = elim (Bool-cases (validate si sg.slot_ranges)) [
  | inl valid ↦ elim (Bool-cases (leb 33 (length sg.id))) [
    | inl long ↦ absurd (ground (arith, valid, long, h))
    | inr fits ↦ elim (Bool-cases (is_some (get_group si.shard_group_map sg.id))) [
      | inl there ↦ absurd (ground (arith, valid, fits, there, h))
      | inr fresh ↦ (valid, fresh, ground (arith, valid, fits, fresh, h))
    ]
  ]
  | inr refused ↦ absurd (ground (arith, refused, h))
]

-- If a group is added, none of its slots was taken before; afterwards each slot that one of its ranges
-- covers belongs to it in the table of that range's type, every other entry of the three tables is as it was,
-- the terms of the imports are reset exactly where the local group is the stable or migrating owner, and the
-- group is found under its id, which no group had before.
pub add_shard_group-rr_ok :
    (external : Bool) (si : ShardingInfo) (sg : ShardGroup) (si' : ShardingInfo)
    → add_shard_group external si sg ≡ rr_ok si'
    → Assigns sg (covered sg.slot_ranges) si si'
      × AllFree si sg.slot_ranges
      × (si'.shard_groups_num ≡ si.shard_groups_num + 1)
      × (get_group si'.shard_group_map sg.id ≡ some (entered external sg))
      × (is_some (get_group si.shard_group_map sg.id) ≡ false)
unfolding get_group with_group
add_shard_group-rr_ok external si sg si' h =
    let g = entered external sg in
    let (valid, fresh, end) = add_shard_group-guards external si sg si' h in
    let (mid, mapped, last) = added-rr_ok g _ si' end in
    let (assigns, groups) = map_ranges-Assigns g sg.slot_ranges (with_group si g) mid mapped in
    let (kept, same_map, same_num) =
      set_sharding-Assigns g (covered sg.slot_ranges) (with_group si g) mid assigns in
    rw last (
      kept,
      ((validate-AllFree si sg.slot_ranges).0 valid).1,
      cc,
      (rw (same_map, groups.0, bytes_eq_refl sg.id) refl),
      fresh,
    )

-- the group is put in front of the others
pub add_shard_group-shard_group_map :
    (external : Bool) (si : ShardingInfo) (sg : ShardGroup) (si' : ShardingInfo)
    → add_shard_group external si sg ≡ rr_ok si'
    → si'.shard_group_map ≡ entered external sg ∷ si.shard_group_map
unfolding with_group
add_shard_group-shard_group_map external si sg si' h =
    let g = entered external sg in
    let (valid, fresh, end) = add_shard_group-guards external si sg si' h in
    let (mid, mapped, last) = added-rr_ok g _ si' end in
    let (assigns, groups) = map_ranges-Assigns g sg.slot_ranges (with_group si g) mid mapped in
    let (kept, same_map, same_num) =
      set_sharding-Assigns g (covered sg.slot_ranges) (with_group si g) mid assigns in
    rw last (same_map ∙ groups.0)

pub add_shard_group-validate :
    (external : Bool) (si : ShardingInfo) (sg : ShardGroup) (si' : ShardingInfo)
    → add_shard_group external si sg ≡ rr_ok si'
    → validate si sg.slot_ranges ≡ true
add_shard_group-validate external si sg si' h = (add_shard_group-guards external si sg si' h).0

is_sharding-if :
    (b : Bool) (x y : ShardingInfo)
    → x.is_sharding ≡ b
    → y.is_sharding ≡ true
    → (if b then x else y).is_sharding ≡ true
is_sharding-if true x y hx hy = hx
is_sharding-if false x y hx hy = hy

-- once a foreign group is added, commands are checked
pub add_shard_group-is_sharding :
    (external : Bool) (si : ShardingInfo) (sg : ShardGroup) (si' : ShardingInfo)
    → add_shard_group external si sg ≡ rr_ok si'
    → sg.is_local ≡ false
    → si'.is_sharding ≡ true
add_shard_group-is_sharding external si sg si' h other =
    let (valid, fresh, end) = add_shard_group-guards external si sg si' h in
    let (mid, mapped, last) = added-rr_ok (entered external sg) _ si' end in
    rw last (is_sharding-if mid.is_sharding mid _ refl (ground (arith, other)))

-- ===== src/Locks/Held.antt =====
-- Which keys are locked, and what that means for the commands on them.
use redisraft.Prelude.{
  ℕ, ◌≡◌, refl, sym, ap, ◌∙◌, Bool, true, false, ◌&&◌, ◌||◌, not, Option, none, some, List, [], ◌∷◌,
  ◌++◌, ◌==◌, if_pos, if_neg, arith, bytes_eq, bytes_eq→eq, bytes_eq_refl, Bool-cases, Option-cases,
  inl, inr,
}
use redisraft.Wire.{Bytes}
use redisraft.LockKeys.{has_key, deserialize_lock}
use redisraft.HashSlot.{key_hash_slot}
use redisraft.Dict.{has, set_absent, IsDict, Apart}
use redisraft.Sharding.{ShardingInfo}
use redisraft.Locks.{
  check_importer, group_at, check_owner, ShardGroup, Refusal, locked, refused, common_slot,
  check_slot, lock_each, lock_in_slot, lock_read, lock_keys, unlock, unlock_each,
  unlock_delete_keys,
}

has_key-append :
    (d : List Bytes) (x k : Bytes) → has_key (d ++ x ∷ []) k ≡ (has_key d k || bytes_eq x k)
unfolding has_key
has_key-append [] x k = ground arith
has_key-append (y ∷ d) x k = ground (arith, has_key-append d x k)

has-has_key : (d : List Bytes) (k : Bytes) → has bytes_eq d k ≡ has_key d k
unfolding has has_key
has-has_key [] k = refl
has-has_key (y ∷ d) k = ground (arith, has-has_key d k)

-- entering a key locks it and no other
has_key-set_absent :
    (d : List Bytes) (x k : Bytes)
    → has_key (set_absent bytes_eq d x) k ≡ (has_key d k || bytes_eq x k)
unfolding set_absent
has_key-set_absent d x k = elim (Bool-cases (has bytes_eq d x)) [
  | inl there ↦ elim (Bool-cases (bytes_eq x k)) [
    | inl same ↦
        let e = bytes_eq→eq x k same in
        let held : has_key d k ≡ true = sym (has-has_key d k) ∙ rw e at there in
        rw (there, held) refl
    | inr other ↦ rw (there, other) (ground arith)
  ]
  | inr fresh ↦ rw fresh (has_key-append d x k)
]

exists_same : (exists : Bytes → Bool) (x k : Bytes) → bytes_eq x k ≡ true → exists x ≡ exists k
exists_same exists x k h = ap exists (bytes_eq→eq x k h)

bytes_eq_comm : (a b : Bytes) → bytes_eq a b ≡ false → bytes_eq b a ≡ false
bytes_eq_comm a b h = elim (Bool-cases (bytes_eq b a)) [
  | inl same ↦ let e = bytes_eq→eq b a same in absurd (ground (arith, rw e at h, bytes_eq_refl a))
  | inr other ↦ other
]

-- a key has no second entry
has_key-Apart :
    (y : Bytes) (d : List Bytes) (k : Bytes)
    → Apart bytes_eq y d
    → bytes_eq y k ≡ true
    → has_key d k ≡ false
unfolding has_key
has_key-Apart y [] k h e = refl
has_key-Apart y (z ∷ d) k h e =
    let same = bytes_eq→eq y k e in
    let first : bytes_eq z k ≡ false = rw (← same) (bytes_eq_comm y z h.0) in
    ground (arith, first, has_key-Apart y d k h.1 e)

apart_keys : (y x k : Bytes) → bytes_eq y x ≡ false → bytes_eq y k ≡ true → bytes_eq x k ≡ false
apart_keys y x k miss e = let same = bytes_eq→eq y k e in rw (← same) (bytes_eq_comm y x miss)

has_key-lock_each :
    (exists : Bytes → Bool) (keys d : List Bytes) (k : Bytes)
    → has_key (lock_each exists keys d) k ≡ (has_key d k || (has_key keys k && exists k))
unfolding lock_each has_key
has_key-lock_each exists [] d k = ground arith
has_key-lock_each exists (x ∷ keys) d k = elim (Bool-cases (exists x)) [
  | inl there ↦
      let e = has_key-lock_each exists keys (set_absent bytes_eq d x) k in
      let entered = has_key-set_absent d x k in
      let same = exists_same exists x k in rw there (ground (arith, e, entered, same, there))
  | inr missing ↦
      let e = has_key-lock_each exists keys d k in
      let same = exists_same exists x k in rw missing (ground (arith, e, same, missing))
]

has_key-unlock :
    (d : List Bytes) (x k : Bytes)
    → IsDict bytes_eq d
    → has_key (unlock d x) k ≡ (has_key d k && not (bytes_eq x k))
unfolding unlock has_key
has_key-unlock [] x k h = refl
has_key-unlock (y ∷ d) x k h = elim (Bool-cases (bytes_eq y x)) [
  | inl hit ↦
      let e = bytes_eq→eq y x hit in
      let gone = has_key-Apart y d k h.0 in rw (hit, ← e) (ground (arith, gone))
  | inr miss ↦
      let rest = has_key-unlock d x k h.1 in
      let other = apart_keys y x k miss in rw miss (ground (arith, rest, other))
]

Apart-unlock :
    (y : Bytes) (d : List Bytes) (x : Bytes) → Apart bytes_eq y d → Apart bytes_eq y (unlock d x)
unfolding unlock
Apart-unlock y [] x h = tt
Apart-unlock y (z ∷ d) x h = elim (Bool-cases (bytes_eq z x)) [
  | inl hit ↦ rw hit h.1
  | inr miss ↦ rw miss (h.0, Apart-unlock y d x h.1)
]

IsDict-unlock : (d : List Bytes) (x : Bytes) → IsDict bytes_eq d → IsDict bytes_eq (unlock d x)
unfolding unlock
IsDict-unlock [] x h = tt
IsDict-unlock (y ∷ d) x h = elim (Bool-cases (bytes_eq y x)) [
  | inl hit ↦ rw hit h.1
  | inr miss ↦ rw miss (Apart-unlock y d x h.0, IsDict-unlock d x h.1)
]

has_key-unlock_each :
    (keys d : List Bytes) (k : Bytes)
    → IsDict bytes_eq d
    → has_key (unlock_each keys d) k ≡ (has_key d k && not (has_key keys k))
unfolding unlock_each has_key
has_key-unlock_each [] d k h = ground arith
has_key-unlock_each (x ∷ keys) d k h =
    let e = has_key-unlock_each keys (unlock d x) k (IsDict-unlock d x h) in
    let first = has_key-unlock d x k h in ground (arith, e, first)

crossed : (s : ℕ) → none ≡ some (some s) → ⊥
crossed s h = cc

same_locked : (d l : List Bytes) → locked d ≡ locked l → l ≡ d
same_locked d l h = cc

not_locked : (why : Refusal) (l : List Bytes) → refused why ≡ locked l → ⊥
not_locked why l h = cc

abbrev Read : Type 0
Read = List Bytes × List Bytes

nothing_read : (p : Read) → none ≡ some p → ⊥
nothing_read p h = cc

pair_read : (p q : Read) → some p ≡ some q → (p.0 ≡ q.0) × (p.1 ≡ q.1)
pair_read p q h = (cc, cc)

-- the slot is that of all keys
common_slot-key :
    (crc : Bytes → ℕ) (keys : List Bytes) (slot s : ℕ)
    → common_slot crc keys (some slot) ≡ some (some s)
    → (slot ≡ s) × ((k : Bytes) → has_key keys k ≡ true → key_hash_slot crc k ≡ s)
unfolding common_slot has_key
common_slot-key crc [] slot s h = (cc, (λ k m. cc))
common_slot-key crc (x ∷ keys) slot s h = elim (Bool-cases (slot == key_hash_slot crc x)) [
  | inl same ↦
      let (e, rest) = common_slot-key crc keys slot s (rw same at h) in
      (
        e,
        (λ k m. elim (Bool-cases (bytes_eq x k)) [
          | inl here ↦
              let first : slot ≡ key_hash_slot crc x = ground (arith, same) in
              sym (first ∙ ap (key_hash_slot crc) (bytes_eq→eq x k here)) ∙ e
          | inr later ↦ rest k (ground (arith, m, later))
        ]),
      )
  | inr other ↦ absurd (crossed s (rw other at h))
]

common_slot-all :
    (crc : Bytes → ℕ) (keys : List Bytes) (s : ℕ)
    → common_slot crc keys none ≡ some (some s)
    → (k : Bytes) → has_key keys k ≡ true
    → key_hash_slot crc k ≡ s
unfolding common_slot has_key
common_slot-all crc [] s h k m = cc
common_slot-all crc (x ∷ keys) s h k m =
    let (e, rest) = common_slot-key crc keys (key_hash_slot crc x) s h in
    elim (Bool-cases (bytes_eq x k)) [
      | inl here ↦ ap (key_hash_slot crc) (sym (bytes_eq→eq x k here)) ∙ e
      | inr later ↦ rest k (ground (arith, m, later))
    ]

-- All keys of the list have the slot, which is on its way from this cluster to another.
abbrev pub Leaves : (Bytes → ℕ) → ShardingInfo → List Bytes → ℕ → Type 0
Leaves crc si keys slot =
    ((k : Bytes) → has_key keys k ≡ true → key_hash_slot crc k ≡ slot)
    × ((sg : ShardGroup) × (group_at si si.migrating_slots_map slot ≡ some sg)
        × (sg.is_local ≡ true))
    × ((isg : ShardGroup) × (group_at si si.importing_slots_map slot ≡ some isg)
        × (isg.is_local ≡ false))

no_refusal : (why : Refusal) → some why ≡ none → ⊥
no_refusal why h = cc

checked :
    (owner importer : Option ShardGroup)
    → check_owner owner (check_importer importer) ≡ none
    → ((sg : ShardGroup) × (owner ≡ some sg) × (sg.is_local ≡ true))
      × ((isg : ShardGroup) × (importer ≡ some isg) × (isg.is_local ≡ false))
checked none importer h = absurd (no_refusal _ h)
checked (some sg) none h = elim (Bool-cases sg.is_local) [
  | inl own ↦ absurd (no_refusal _ (sym (if_pos _ _ _ own) ∙ h))
  | inr other ↦ absurd (no_refusal _ (sym (if_neg _ _ _ other) ∙ h))
]
checked (some sg) (some isg) h = elim (Bool-cases sg.is_local) [
  | inl own ↦ elim (Bool-cases isg.is_local) [
    | inl self ↦ absurd (no_refusal _ (sym (if_pos _ _ _ own ∙ if_pos _ _ _ self) ∙ h))
    | inr away ↦ ((sg, refl, own), (isg, refl, away))
  ]
  | inr other ↦ absurd (no_refusal _ (sym (if_neg _ _ _ other) ∙ h))
]

-- what the four refusals leave
check_slot-none :
    (si : ShardingInfo) (slot : ℕ)
    → check_slot si slot ≡ none
    → ((sg : ShardGroup) × (group_at si si.migrating_slots_map slot ≡ some sg)
        × (sg.is_local ≡ true))
      × ((isg : ShardGroup) × (group_at si si.importing_slots_map slot ≡ some isg)
          × (isg.is_local ≡ false))
unfolding check_slot
check_slot-none si slot h =
    checked (group_at si si.migrating_slots_map slot) (group_at si si.importing_slots_map slot) h

in_slot-locked :
    (crc : Bytes → ℕ) (si : ShardingInfo) (keys d l : List Bytes) (o : Option (Option ℕ))
    → common_slot crc keys none ≡ o
    → lock_in_slot si d o ≡ locked l
    → (slot : ℕ) × Leaves crc si keys slot × (l ≡ d)
in_slot-locked crc si keys d l none e h = cc
in_slot-locked crc si keys d l (some none) e h = cc
in_slot-locked crc si keys d l (some (some slot)) e h = elim (Option-cases (check_slot si slot)) [
  | inl free ↦
      let (own, importer) = check_slot-none si slot free in
      (slot, (common_slot-all crc keys slot e, own, importer), same_locked d l (rw free at h))
  | inr (why, bad) ↦ absurd (not_locked why l (rw bad at h))
]

read-locked :
    (crc : Bytes → ℕ) (exists : Bytes → Bool) (si : ShardingInfo) (old l : List Bytes)
    (o : Option (List Bytes))
    → lock_read crc exists si old o ≡ locked l
    → (keys : List Bytes) × (o ≡ some keys)
      × (lock_in_slot si (lock_each exists keys old) (common_slot crc keys none) ≡ locked l)
read-locked crc exists si old l none h = cc
read-locked crc exists si old l (some keys) h = (keys, refl, h)

-- If keys are locked, all keys of the entry have one slot, which is migrating from this cluster and being imported by another one; afterwards
-- a key is locked exactly if it was before, or is in the entry and exists.
pub lock_keys_lem :
    (crc : Bytes → ℕ) (exists : Bytes → Bool) (si : ShardingInfo) (old : List Bytes) (body : Bytes)
    (l : List Bytes)
    → lock_keys crc exists si old body ≡ locked l
    → (keys : List Bytes) × (slot : ℕ) × (deserialize_lock body ≡ some keys)
      × Leaves crc si keys slot
      × ((k : Bytes) → has_key l k ≡ (has_key old k || (has_key keys k && exists k)))
unfolding lock_keys
lock_keys_lem crc exists si old body l h =
    let (keys, o, r) = read-locked crc exists si old l (deserialize_lock body) h in
    let (slot, leaves, e) = in_slot-locked crc si keys (lock_each exists keys old) l _ refl r in
    (keys, slot, o, leaves, (λ k. ap (λ d. has_key d k) e ∙ has_key-lock_each exists keys old k))

unlocked_now :
    (old read keys l : List Bytes) (k : Bytes)
    → read ≡ keys
    → unlock_each read old ≡ l
    → IsDict bytes_eq old
    → has_key l k ≡ (has_key old k && not (has_key keys k))
unlocked_now old read keys l k e f h = rw (← f, ← e) (has_key-unlock_each read old k h)

-- Unlocking leaves exactly those keys locked that are not in the entry; Redis deletes the keys of the entry.
pub unlock_delete_keys_lem :
    (old keys l : List Bytes) (body : Bytes)
    → IsDict bytes_eq old
    → unlock_delete_keys old body ≡ some (keys, l)
    → (deserialize_lock body ≡ some keys)
      × ((k : Bytes) → has_key l k ≡ (has_key old k && not (has_key keys k)))
unfolding unlock_delete_keys
unlock_delete_keys_lem old keys l body h r = elim (Option-cases (deserialize_lock body)) [
  | inl bad ↦ absurd (nothing_read (keys, l) (rw bad at r))
  | inr (read, good) ↦
      let e = pair_read (read, unlock_each read old) (keys, l) (rw good at r) in
      (good ∙ ap some e.0, (λ k. unlocked_now old read keys l k e.0 e.1 h))
]

-- ===== src/Redirect/Served.antt =====
-- Which command arrays may be executed.
use redisraft.Prelude.{
  ℕ, ◌+◌, ◌%◌, ◌^◌, ◌≡◌, refl, sym, ap, ◌∙◌, Bool, true, false, ◌&&◌, Option, none, some, List, [],
  ◌∷◌, ◌==◌, if◌then◌else◌, length, arith, get_elem?, ◌↔◌, ◌⊎◌, Bool-cases, inl, inr,
}
use redisraft.Wire.{Bytes}
use redisraft.Commands.{Command, CommandArray}
use redisraft.Sharding.{
  ShardGroup, ShardGroupNode, ShardingInfo, SlotType, stable, importing, migrating, unknown,
}
use redisraft.SlotCompute.{hash_slot_compute}
use redisraft.Redirect.{
  KeysStatus, all_exist, some_exist, none_exist, locked_exist, Verdict, rr_ok, rr_error, fault,
  group_at, get_slot_shard_group, slot_type, redirect, redirect_to, first_node, ask_group,
  by_status, foreign, by_group, by_slot, validate_key_existence, validate_array, handle_sharding,
}

-- The type lets the commands through: a stable slot always does, a migrating or importing one where all keys are there.
abbrev pub Passes : SlotType → KeysStatus → Type 0
Passes type status =
    (type ≡ stable) ⊎ (((type ≡ migrating) ⊎ (type ≡ importing)) × (status ≡ all_exist))

abbrev pub is_ok : Verdict → Bool
is_ok rr_ok = true
is_ok (rr_error reply si) = false
is_ok fault = false

is_ok→rr_ok : (v : Verdict) → is_ok v ≡ true → v ≡ rr_ok
is_ok→rr_ok rr_ok h = refl
is_ok→rr_ok (rr_error reply si) h = cc
is_ok→rr_ok fault h = cc

redirect_to-no :
    (si : ShardingInfo) (sg : ShardGroup) (slot n : ℕ) (o : Option ShardGroupNode)
    → is_ok (redirect_to si sg slot n o) ≡ false
redirect_to-no si sg slot n none = refl
redirect_to-no si sg slot n (some node) = refl

redirect-no : (si : ShardingInfo) (sg : ShardGroup) (slot : ℕ) → is_ok (redirect si sg slot) ≡ false
unfolding redirect
redirect-no si sg slot = elim (Bool-cases (length sg.nodes == 0)) [
  | inl empty ↦ rw empty refl
  | inr nodes ↦ rw nodes (
      redirect_to-no si sg slot _
        (get_elem? sg.nodes ((sg.next_redir + 1) % 2 ^ 32 % length sg.nodes)))
]

first_node-no :
    (nodes : List ShardGroupNode) (slot : ℕ) (si : ShardingInfo)
    → is_ok (first_node nodes slot si) ≡ false
first_node-no [] slot si = refl
first_node-no (node ∷ nodes) slot si = refl

ask_group-no :
    (o : Option ShardGroup) (slot : ℕ) (si : ShardingInfo) → is_ok (ask_group o slot si) ≡ false
ask_group-no none slot si = refl
ask_group-no (some isg) slot si = first_node-no isg.nodes slot si

foreign-no :
    (reply_ctx : Bool) (si : ShardingInfo) (sg : ShardGroup) (slot : ℕ) (type : SlotType)
    → is_ok (foreign reply_ctx si sg slot type) ≡ false
foreign-no reply_ctx si sg slot unknown = refl
foreign-no true si sg slot stable = redirect-no si sg slot
foreign-no true si sg slot importing = redirect-no si sg slot
foreign-no true si sg slot migrating = redirect-no si sg slot
foreign-no false si sg slot stable = refl
foreign-no false si sg slot importing = refl
foreign-no false si sg slot migrating = refl

-- whether the type lets the commands through
abbrev passes : SlotType → KeysStatus → Bool
passes stable status = true
passes unknown status = false
passes migrating all_exist = true
passes importing all_exist = true
passes migrating _ = false
passes importing _ = false

by_status-passes :
    (reply_ctx : Bool) (si : ShardingInfo) (slot : ℕ) (type : SlotType) (status : KeysStatus)
    → is_ok (by_status reply_ctx si slot type status) ≡ passes type status
unfolding by_status
by_status-passes reply_ctx si slot stable status = refl
by_status-passes reply_ctx si slot unknown status = refl
by_status-passes reply_ctx si slot migrating all_exist = refl
by_status-passes reply_ctx si slot migrating some_exist = refl
by_status-passes reply_ctx si slot migrating locked_exist = refl
by_status-passes true si slot migrating none_exist =
    ask_group-no (group_at si si.importing_slots_map slot) slot si
by_status-passes false si slot migrating none_exist = refl
by_status-passes reply_ctx si slot importing all_exist = refl
by_status-passes reply_ctx si slot importing some_exist = refl
by_status-passes reply_ctx si slot importing locked_exist = refl
by_status-passes reply_ctx si slot importing none_exist = refl

-- whether the group, if there is one, lets them through
abbrev group_passes : ℕ → KeysStatus → Option ShardGroup → Bool
group_passes slot status none = false
group_passes slot status (some sg) = sg.is_local && passes (slot_type sg.slot_ranges slot) status

is_ok_if :
    (own : Bool) (here there : Verdict) (p : Bool)
    → is_ok here ≡ p
    → is_ok there ≡ false
    → is_ok (if own then here else there) ≡ (own && p)
is_ok_if true here there p h k = h
is_ok_if false here there p h k = k

by_group-passes :
    (reply_ctx : Bool) (si : ShardingInfo) (slot : ℕ) (status : KeysStatus) (o : Option ShardGroup)
    → is_ok (by_group reply_ctx si slot status o) ≡ group_passes slot status o
unfolding by_group
by_group-passes reply_ctx si slot status none = refl
by_group-passes reply_ctx si slot status (some sg) =
    is_ok_if sg.is_local _ _ _
      (by_status-passes reply_ctx si slot (slot_type sg.slot_ranges slot) status)
      (foreign-no reply_ctx si sg slot (slot_type sg.slot_ranges slot))

Passes-passes :
    (type : SlotType) (status : KeysStatus) → passes type status ≡ true → Passes type status
Passes-passes stable status h = inl refl
Passes-passes unknown status h = cc
Passes-passes migrating all_exist h = inr (inl refl, refl)
Passes-passes migrating some_exist h = cc
Passes-passes migrating none_exist h = cc
Passes-passes migrating locked_exist h = cc
Passes-passes importing all_exist h = inr (inr refl, refl)
Passes-passes importing some_exist h = cc
Passes-passes importing none_exist h = cc
Passes-passes importing locked_exist h = cc

passes-Passes :
    (type : SlotType) (status : KeysStatus) → Passes type status → passes type status ≡ true
passes-Passes type status (inl e) = rw e refl
passes-Passes type status (inr (inl e, s)) = rw (e, s) refl
passes-Passes type status (inr (inr e, s)) = rw (e, s) refl

on-eq : true ≡ false → ⊥
on-eq h = cc

by_sharding :
    (on : Bool) (v : Verdict) (S : Type 0)
    → ((v ≡ rr_ok) ↔ S)
    → ((if on then v else rr_ok) ≡ rr_ok) ↔ ((on ≡ false) ⊎ S)
by_sharding true v S (to, from) =
    ((λ h. inr (to h)), (λ c. elim c [ inl e ↦ absurd (on-eq e) | inr s ↦ from s ]))
by_sharding false v S (to, from) = ((λ h. inl refl), (λ c. refl))

module _ (exists : Bytes → Bool) (keys_of : Command → List Bytes) (locked_keys : List Bytes) where
  -- A local group serves the slot and its range lets the commands through.
  abbrev pub Served : ShardingInfo → CommandArray → ℕ → Type 0
  Served si cmds slot =
      (sg : ShardGroup) × (get_slot_shard_group si slot cmds.asking ≡ some sg)
      × (sg.is_local ≡ true)
      × Passes (slot_type sg.slot_ranges slot)
          (validate_key_existence exists keys_of locked_keys cmds)

  group_passes-Served :
      (slot : ℕ) (status : KeysStatus) (o : Option ShardGroup)
      → group_passes slot status o ≡ true
      → (sg : ShardGroup) × (o ≡ some sg)
        × (sg.is_local ≡ true)
        × Passes (slot_type sg.slot_ranges slot) status
  group_passes-Served slot status none h = cc
  group_passes-Served slot status (some sg) h =
      let (own, rest) : (sg.is_local ≡ true)
          × (passes (slot_type sg.slot_ranges slot) status ≡ true) =
        ground (arith, h) in
      (sg, refl, own, Passes-passes (slot_type sg.slot_ranges slot) status rest)

  validate_array_iff :
      (reply_ctx : Bool) (si : ShardingInfo) (cmds : CommandArray) (slot : ℕ)
      → (validate_array exists keys_of locked_keys reply_ctx si cmds slot ≡ rr_ok)
        ↔ Served si cmds slot
  validate_array_iff reply_ctx si cmds slot =
      let status = validate_key_existence exists keys_of locked_keys cmds in
      let o = get_slot_shard_group si slot cmds.asking in
      let e = by_group-passes reply_ctx si slot status o in
      (
        (λ h. group_passes-Served slot status o (sym e ∙ ap is_ok h)),
        (λ (sg, found, own, p).
            is_ok→rr_ok _
              (e ∙ rw (found, own, passes-Passes (slot_type sg.slot_ranges slot) status p) refl)),
      )

  -- What `HashSlotCompute` must have given: no key at all, or one slot that is served here.
  abbrev pub SlotServed : ShardingInfo → CommandArray → Option (Option ℕ) → Type 0
  SlotServed si cmds none = ⊥
  SlotServed si cmds (some none) = Unit
  SlotServed si cmds (some (some slot)) = Served si cmds slot

  by_slot_iff :
      (reply_ctx : Bool) (si : ShardingInfo) (cmds : CommandArray) (o : Option (Option ℕ))
      → (by_slot exists keys_of locked_keys reply_ctx si cmds o ≡ rr_ok) ↔ SlotServed si cmds o
  by_slot_iff reply_ctx si cmds none = ((λ h. absurd (cc)), (λ h. absurd h))
  by_slot_iff reply_ctx si cmds (some none) = ((λ h. tt), (λ h. refl))
  by_slot_iff reply_ctx si cmds (some (some slot)) = validate_array_iff reply_ctx si cmds slot

  -- Commands may be executed exactly when there is no sharding, or they have no keys, or all keys have one slot, the group
  -- that answers for it is the local one, and its first range with the slot is stable, or migrating or importing while
  -- every key exists and none of them is locked. Whether there is a client to reply to makes no difference.
  pub handle_sharding_iff :
      (crc : Bytes → ℕ) (reply_ctx : Bool) (si : ShardingInfo) (cmds : CommandArray)
      → (handle_sharding exists keys_of locked_keys crc reply_ctx si cmds ≡ rr_ok)
        ↔ ((si.is_sharding ≡ false) ⊎ SlotServed si cmds (hash_slot_compute crc keys_of cmds))
  unfolding handle_sharding
  handle_sharding_iff crc reply_ctx si cmds =
      by_sharding si.is_sharding _ _
        (by_slot_iff reply_ctx si cmds (hash_slot_compute crc keys_of cmds))

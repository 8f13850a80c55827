-- ===== src/Redirect/Empty.antt =====
-- A foreign group without nodes.
use redisraft.Prelude.{
  ap, if_pos, sym, [], ◌∷◌, ℕ, ◌≡◌, ◌≢◌, refl, ◌∙◌, Bool, true, false, none, some, List, ◌==◌,
  if◌then◌else◌, length, arith,
}
use redisraft.Wire.{Bytes}
use redisraft.Commands.{Command, CommandArray}
use redisraft.Sharding.{
  add_shard_group, rr_ok, SlotRange, ShardGroup, ShardingInfo, SlotType, stable, importing,
  migrating, unknown,
}
use redisraft.Sharding.Slots.{within, covered}
use redisraft.Sharding.Add.{entered, add_shard_group-rr_ok, add_shard_group-is_sharding}
use redisraft.SlotCompute.{hash_slot_compute}
use redisraft.Redirect.{
  by_slot, handle_sharding, Verdict, rr_error, fault, get_slot_shard_group, slot_type, redirect,
  foreign, by_group, validate_array,
}

redirect-empty :
    (si : ShardingInfo) (sg : ShardGroup) (slot : ℕ)
    → length sg.nodes ≡ 0
    → redirect si sg slot ≡ fault
unfolding redirect
redirect-empty si sg slot empty =
    let e : (length sg.nodes == 0) ≡ true = ground (arith, empty) in rw e refl

foreign-empty :
    (si : ShardingInfo) (sg : ShardGroup) (slot : ℕ) (type : SlotType)
    → length sg.nodes ≡ 0
    → type ≢ unknown
    → (foreign true si sg slot type ≡ fault) × (foreign false si sg slot type ≡ rr_error none si)
foreign-empty si sg slot stable empty known = (redirect-empty si sg slot empty, refl)
foreign-empty si sg slot importing empty known = (redirect-empty si sg slot empty, refl)
foreign-empty si sg slot migrating empty known = (redirect-empty si sg slot empty, refl)
foreign-empty si sg slot unknown empty known = absurd (known refl)

by_group-foreign :
    (reply_ctx own : Bool) (here there : Verdict)
    → own ≡ false
    → (if own then here else there) ≡ there
by_group-foreign reply_ctx own here there e = rw e refl

stable_known :
    (ranges : List SlotRange) (r : SlotRange) (slot : ℕ)
    → ranges ≡ r ∷ []
    → r.type ≡ stable
    → within r slot ≡ true
    → slot_type ranges slot ≢ unknown
unfolding slot_type
stable_known ranges r slot one type inside =
    let e : slot_type ranges slot ≡ stable = rw (one, inside) type in λ h. cc (sym e ∙ h)

-- the group that has been added answers for its slots
stable_found :
    (external : Bool) (si : ShardingInfo) (sg : ShardGroup) (r : SlotRange) (si' : ShardingInfo)
    (slot : ℕ) (asking : Bool)
    → sg.slot_ranges ≡ r ∷ []
    → r.type ≡ stable
    → within r slot ≡ true
    → add_shard_group external si sg ≡ rr_ok si'
    → get_slot_shard_group si' slot asking ≡ some (entered external sg)
unfolding get_slot_shard_group covered
stable_found external si sg r si' slot asking one type inside added =
    let (assigns, free, count, there, fresh) = add_shard_group-rr_ok external si sg si' added in
    let mine : covered sg.slot_ranges stable slot ≡ true = rw (one, type, inside) refl in
    let owned : si'.stable_slots_map slot ≡ some sg.id = assigns.0 slot ∙ if_pos _ _ _ mine in
    rw (owned, there) refl

module _ (exists : Bytes → Bool) (keys_of : Command → List Bytes) (locked_keys : List Bytes) where
  validate_array-empty :
      (si : ShardingInfo) (cmds : CommandArray) (slot : ℕ) (sg : ShardGroup)
      → get_slot_shard_group si slot cmds.asking ≡ some sg
      → sg.is_local ≡ false
      → length sg.nodes ≡ 0
      → slot_type sg.slot_ranges slot ≢ unknown
      → (validate_array exists keys_of locked_keys true si cmds slot ≡ fault)
        × (validate_array exists keys_of locked_keys false si cmds slot ≡ rr_error none si)
  unfolding by_group
  validate_array-empty si cmds slot sg found other empty known =
      let (with_client, without) =
        foreign-empty si sg slot (slot_type sg.slot_ranges slot) empty known in
      (
        rw found (by_group-foreign true sg.is_local _ _ other ∙ with_client),
        rw found (by_group-foreign false sg.is_local _ _ other ∙ without),
      )

  -- Where a foreign group that has no nodes and one range of stable slots is added, and then come commands whose
  -- keys all have one slot of that range: a node without a client to reply to refuses them, and one with a client
  -- divides by zero, which ends its process.
  pub add_shard_group-empty :
      (crc : Bytes → ℕ) (external : Bool) (si : ShardingInfo) (sg : ShardGroup) (r : SlotRange)
      (si' : ShardingInfo) (cmds : CommandArray) (slot : ℕ)
      → sg.is_local ≡ false
      → length sg.nodes ≡ 0
      → sg.slot_ranges ≡ r ∷ []
      → r.type ≡ stable
      → within r slot ≡ true
      → add_shard_group external si sg ≡ rr_ok si'
      → hash_slot_compute crc keys_of cmds ≡ some (some slot)
      → (handle_sharding exists keys_of locked_keys crc true si' cmds ≡ fault)
        × (handle_sharding exists keys_of locked_keys crc false si' cmds ≡ rr_error none si')
  unfolding handle_sharding
  add_shard_group-empty crc external si sg r si' cmds slot other empty one type inside added slots =
      let on = add_shard_group-is_sharding external si sg si' added other in
      let found = stable_found external si sg r si' slot cmds.asking one type inside added in
      let (with_client, without) =
        validate_array-empty si' cmds slot (entered external sg) found other empty
          (stable_known sg.slot_ranges r slot one type inside) in
      (
        if_pos _ _ _ on ∙ ap (by_slot exists keys_of locked_keys true si' cmds) slots ∙ with_client,
        if_pos _ _ _ on ∙ ap (by_slot exists keys_of locked_keys false si' cmds) slots ∙ without,
      )

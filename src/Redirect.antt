-- ===== src/Redirect.antt =====
-- raft.c: what is checked of the hash slot of a command array before it is executed. `exists` is
-- RedisModule_KeyExists, `crc` and `keys_of` are those of SlotCompute.
pub mod Keys
pub mod Served
pub mod Empty
mod Tests
use redisraft.Prelude.{
  ℕ, zero, suc, ◌+◌, ◌-◌, ◌*◌, ◌/◌, ◌%◌, ◌^◌, ◌≤◌, ◌<◌, ◌≡◌, ◌≢◌, refl, sym, ap, ◌∙◌, Bool, true,
  false, ◌&&◌, ◌||◌, not, Option, none, some, List, [], ◌∷◌, ◌++◌, ◌==◌, ◌>>=◌, leb, ltb,
  if◌then◌else◌, length, take, drop, arith, bytes_eq, get_elem?, Bool-cases, Option-cases, inl, inr,
  c_string, is_digit, ℤ, pos, negsuc, fits, lt→ltb, append_assoc, append-nil, length-append,
  take-append, drop-append,
}
use redisraft.Wire.{Bytes}
use redisraft.NodeAddr.{NodeAddr}
use redisraft.Commands.{Command, CommandArray}
use redisraft.LockKeys.{has_key}
use redisraft.Sharding.{
  ShardGroup, ShardGroupNode, ShardingInfo, SlotRange, SlotType, stable, importing, migrating,
  unknown, get_group,
}
use redisraft.SlotCompute.{hash_slot_compute}

-- `KeysStatus`
pub data KeysStatus : Type 0 where
  all_exist some_exist none_exist locked_exist : KeysStatus

-- `total_keys`, `found` and `locked`
pub record Counts : Type 0 where
  pub total_keys : ℕ
  pub found : ℕ
  pub locked : ℕ

-- What is sent to the client, where there is one.
pub data Reply : Type 0 where
  cross_slot : Reply
  cluster_down : Reply
  internal_error : Reply
  moved : ℕ → NodeAddr → Reply
  try_again : Reply
  ask : ℕ → NodeAddr → Reply
  no_importing_group : Reply

-- RR_OK; RR_ERROR, with the reply and the assignment, in which a counter may have moved; or a division by zero or a read
-- past an array
pub data Verdict : Type 0 where
  rr_ok : Verdict
  rr_error : Option Reply → ShardingInfo → Verdict
  fault : Verdict

-- the group that a slot's pointer in a table points to
abbrev pub group_at : ShardingInfo → (ℕ → Option Bytes) → ℕ → Option ShardGroup
group_at si table slot = do id ← table slot; get_group si.shard_group_map id

abbrev if_local : Option ShardGroup → Option ShardGroup
if_local none = none
if_local (some sg) = if sg.is_local then some sg else none

abbrev or_else : Option ShardGroup → Option ShardGroup → Option ShardGroup
or_else none other = other
or_else (some sg) other = some sg

-- `getSlotShardGroup`
unfoldable pub get_slot_shard_group : ShardingInfo → ℕ → Bool → Option ShardGroup
get_slot_shard_group si slot asking =
    let sg = group_at si si.migrating_slots_map slot in
    let isg = if asking then if_local (group_at si si.importing_slots_map slot) else none in
    or_else (group_at si si.stable_slots_map slot) (or_else (if_local sg) (or_else isg sg))

-- the type of the first range that has the slot; `unknown` is SLOTRANGE_TYPE_UNDEF
unfoldable pub slot_type : List SlotRange → ℕ → SlotType
slot_type [] slot = unknown
slot_type (r ∷ ranges) slot =
    let rest = slot_type ranges slot in
    if leb r.start_slot slot && leb slot r.end_slot then r.type else rest

-- the group with its counter moved, wherever it stands
unfoldable pub set_next_redir : List ShardGroup → Bytes → ℕ → List ShardGroup
set_next_redir [] id n = []
set_next_redir (g ∷ gs) id n =
    let rest = set_next_redir gs id n in
    if bytes_eq g.id id then record g { next_redir = n } ∷ gs else g ∷ rest

abbrev pub redirect_to : ShardingInfo → ShardGroup → ℕ → ℕ → Option ShardGroupNode → Verdict
redirect_to si sg slot n none = fault
redirect_to si sg slot n (some node) =
    rr_error (some (moved slot node.addr))
      (record si { shard_group_map = set_next_redir si.shard_group_map sg.id n })

-- the next node of a foreign group, in turn
unfoldable pub redirect : ShardingInfo → ShardGroup → ℕ → Verdict
redirect si sg slot =
    let n = (sg.next_redir + 1) % 2 ^ 32 % length sg.nodes in
    if length sg.nodes == 0 then fault else redirect_to si sg slot n (get_elem? sg.nodes n)

abbrev pub first_node : List ShardGroupNode → ℕ → ShardingInfo → Verdict
first_node [] slot si = fault
first_node (node ∷ nodes) slot si = rr_error (some (ask slot node.addr)) si

abbrev pub ask_group : Option ShardGroup → ℕ → ShardingInfo → Verdict
ask_group none slot si = rr_error (some no_importing_group) si
ask_group (some isg) slot si = first_node isg.nodes slot si

-- a reply, where there is a client
abbrev pub refuse : Bool → Reply → ShardingInfo → Verdict
refuse reply_ctx reply si = rr_error (if reply_ctx then some reply else none) si

-- the end of `validateRaftRedisCommandArray`, on the type of the slot and the status of the keys
unfoldable pub by_status : Bool → ShardingInfo → ℕ → SlotType → KeysStatus → Verdict
by_status reply_ctx si slot migrating some_exist = refuse reply_ctx try_again si
by_status reply_ctx si slot migrating locked_exist = refuse reply_ctx try_again si
by_status reply_ctx si slot migrating none_exist =
    if reply_ctx
    then ask_group (group_at si si.importing_slots_map slot) slot si
    else rr_error none si
by_status reply_ctx si slot migrating all_exist = rr_ok
by_status reply_ctx si slot importing some_exist = refuse reply_ctx try_again si
by_status reply_ctx si slot importing none_exist = refuse reply_ctx try_again si
by_status reply_ctx si slot importing locked_exist = refuse reply_ctx try_again si
by_status reply_ctx si slot importing all_exist = rr_ok
by_status reply_ctx si slot stable status = rr_ok
by_status reply_ctx si slot unknown status = refuse reply_ctx internal_error si

-- where the group is not local
abbrev pub foreign : Bool → ShardingInfo → ShardGroup → ℕ → SlotType → Verdict
foreign reply_ctx si sg slot unknown = refuse reply_ctx internal_error si
foreign reply_ctx si sg slot _ = if reply_ctx then redirect si sg slot else rr_error none si

unfoldable pub by_group : Bool → ShardingInfo → ℕ → KeysStatus → Option ShardGroup → Verdict
by_group reply_ctx si slot status none = refuse reply_ctx cluster_down si
by_group reply_ctx si slot status (some sg) =
    let type = slot_type sg.slot_ranges slot in
    if sg.is_local
    then by_status reply_ctx si slot type status
    else foreign reply_ctx si sg slot type

-- the status that the counts give
abbrev pub status_of : Counts → KeysStatus
status_of c =
    if ltb 0 c.locked
    then locked_exist
    else if not (c.found == c.total_keys)
    then (if c.found == 0 then none_exist else some_exist)
    else all_exist

module _ (exists : Bytes → Bool) (keys_of : Command → List Bytes) (locked_keys : List Bytes) where
  abbrev count_key : Bytes → Counts → Counts
  count_key key c =
      if exists key
      then record c {
        found = c.found + 1;
        locked = if has_key locked_keys key then c.locked + 1 else c.locked;
      }
      else c

  unfoldable pub count_keys : List Bytes → Counts → Counts
  count_keys [] c = c
  count_keys (key ∷ keys) c = count_keys keys (count_key key c)

  unfoldable pub count_commands : List Command → Counts → Counts
  count_commands [] c = c
  count_commands (cmd ∷ cmds) c =
      let keys = keys_of cmd in
      count_commands cmds (count_keys keys (record c { total_keys = c.total_keys + length keys }))

  -- `validateKeyExistence`
  unfoldable pub validate_key_existence : CommandArray → KeysStatus
  validate_key_existence cmds =
      status_of (count_commands cmds.commands (record { total_keys = 0; found = 0; locked = 0 }))

  -- `validateRaftRedisCommandArray`; the keys are read only where the slot is migrating or importing
  abbrev pub validate_array : Bool → ShardingInfo → CommandArray → ℕ → Verdict
  validate_array reply_ctx si cmds slot =
      by_group reply_ctx si slot (validate_key_existence cmds)
        (get_slot_shard_group si slot cmds.asking)

  abbrev pub by_slot : Bool → ShardingInfo → CommandArray → Option (Option ℕ) → Verdict
  by_slot reply_ctx si cmds none = refuse reply_ctx cross_slot si
  by_slot reply_ctx si cmds (some none) = rr_ok
  by_slot reply_ctx si cmds (some (some slot)) = validate_array reply_ctx si cmds slot

  -- `handleSharding`; `reply_ctx` is whether there is a client to reply to
  unfoldable pub handle_sharding : (Bytes → ℕ) → Bool → ShardingInfo → CommandArray → Verdict
  handle_sharding crc reply_ctx si cmds =
      if si.is_sharding
      then by_slot reply_ctx si cmds (hash_slot_compute crc keys_of cmds)
      else rr_ok

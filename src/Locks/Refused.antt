-- ===== src/Locks/Refused.antt =====
-- Commands on a key that is being moved.
use redisraft.Prelude.{
  ℕ, ◌≡◌, ◌≢◌, refl, sym, ap, ◌∙◌, Bool, true, false, Option, none, some, List, [], ◌∷◌, arith,
  if_pos, bytes_eq, bytes_eq→eq, Bool-cases, inl, inr,
}
use redisraft.Wire.{Bytes}
use redisraft.Commands.{Command, CommandArray}
use redisraft.LockKeys.{has_key, deserialize_lock}
use redisraft.Sharding.{ShardGroup, ShardingInfo, SlotType, stable}
use redisraft.SlotCompute.{hash_slot_compute}
use redisraft.Redirect.{
  KeysStatus, locked_exist, rr_ok, get_slot_shard_group, slot_type, validate_key_existence,
  handle_sharding,
}
use redisraft.Redirect.Keys.{any, all_keys, is_held, validate_key_existence_lem}
use redisraft.Redirect.Served.{Passes, SlotServed, handle_sharding_iff}
use redisraft.Locks.{locked, lock_keys}
use redisraft.Locks.Held.{lock_keys_lem}

any-has_key :
    (p : Bytes → Bool) (keys : List Bytes) (k : Bytes)
    → has_key keys k ≡ true
    → p k ≡ true
    → any p keys ≡ true
unfolding any has_key
any-has_key p [] k m h = cc
any-has_key p (x ∷ keys) k m h = elim (Bool-cases (bytes_eq x k)) [
  | inl same ↦ let first : p x ≡ true = ap p (bytes_eq→eq x k same) ∙ h in rw first refl
  | inr other ↦ ground (arith, any-has_key p keys k (ground (arith, m, other)) h)
]

not_passing : (type : SlotType) → type ≢ stable → Passes type locked_exist → ⊥
not_passing type moving (inl e) = moving e
not_passing type moving (inr (t, e)) = cc

on_off : true ≡ false → ⊥
on_off e = cc

found_same : (a b : ShardGroup) → some a ≡ some b → a ≡ b
found_same a b e = cc

read_same : (a b : List Bytes) → some a ≡ some b → a ≡ b
read_same a b e = cc

no_slot : (slot : ℕ) → some none ≡ some (some slot) → ⊥
no_slot slot e = cc

slot_same : (s slot : ℕ) → some (some s) ≡ some (some slot) → s ≡ slot
slot_same s slot e = cc

type_same :
    (a b : ShardGroup) (s slot : ℕ)
    → a ≡ b
    → s ≡ slot
    → slot_type a.slot_ranges s ≡ slot_type b.slot_ranges slot
type_same a b s slot e f = cc

passing_now :
    (type : SlotType) (status : KeysStatus)
    → status ≡ locked_exist
    → Passes type status
    → Passes type locked_exist
passing_now type status e p = rw (← e) p

module _ (crc : Bytes → ℕ) (exists : Bytes → Bool) (keys_of : Command → List Bytes) where
  served_locked :
      (l : List Bytes) (si : ShardingInfo) (cmds : CommandArray) (slot : ℕ) (sg : ShardGroup)
      (o : Option (Option ℕ))
      → o ≡ some (some slot)
      → SlotServed exists keys_of l si cmds o
      → get_slot_shard_group si slot cmds.asking ≡ some sg
      → slot_type sg.slot_ranges slot ≢ stable
      → validate_key_existence exists keys_of l cmds ≡ locked_exist
      → ⊥
  served_locked l si cmds slot sg none e served found moving status = served
  served_locked l si cmds slot sg (some none) e served found moving status = no_slot slot e
  served_locked l si cmds slot sg (some (some s)) e (group, g, own, passes) found moving status =
      let there : get_slot_shard_group si s cmds.asking ≡ some sg =
        ap (λ i. get_slot_shard_group si i cmds.asking) (slot_same s slot e) ∙ found in
      let kind : slot_type group.slot_ranges s ≡ slot_type sg.slot_ranges slot =
        type_same group sg s slot (found_same group sg (sym g ∙ there)) (slot_same s slot e) in
      not_passing _ (λ t. moving (sym kind ∙ t)) (passing_now _ _ status passes)

  -- Once keys have been locked, no command array is executed that has one of them, as long as the key exists and the slot's
  -- range is not stable; whether there is a client or not.
  pub lock_keys-refused :
      (reply_ctx : Bool) (si : ShardingInfo) (old l keys : List Bytes) (body k : Bytes)
      (cmds : CommandArray) (slot : ℕ) (sg : ShardGroup)
      → lock_keys crc exists si old body ≡ locked l
      → deserialize_lock body ≡ some keys
      → has_key keys k ≡ true
      → exists k ≡ true
      → has_key (all_keys exists keys_of l cmds.commands) k ≡ true
      → si.is_sharding ≡ true
      → hash_slot_compute crc keys_of cmds ≡ some (some slot)
      → get_slot_shard_group si slot cmds.asking ≡ some sg
      → slot_type sg.slot_ranges slot ≢ stable
      → handle_sharding exists keys_of l crc reply_ctx si cmds ≢ rr_ok
  lock_keys-refused reply_ctx si old l keys body k cmds slot sg lock read listed there used on
        slotted found moving ok =
      let (keys', _, o, _, member) = lock_keys_lem crc exists si old body l lock in
      let same = read_same keys' keys (sym o ∙ read) in
      let listed' : has_key keys' k ≡ true = rw same listed in
      let held : has_key l k ≡ true = ground (arith, member k, listed', there) in
      let is : is_held exists keys_of l k ≡ true = rw (there, held) refl in
      let some_held =
        any-has_key (is_held exists keys_of l) (all_keys exists keys_of l cmds.commands) k used
          is in
      let status : validate_key_existence exists keys_of l cmds ≡ locked_exist =
        validate_key_existence_lem exists keys_of l cmds ∙ if_pos _ _ _ some_held in
      elim ((handle_sharding_iff exists keys_of l crc reply_ctx si cmds).0 ok) [
        | inl off ↦ on_off (sym on ∙ off)
        | inr served ↦ served_locked l si cmds slot sg _ slotted served found moving status
      ]

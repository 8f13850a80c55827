-- ===== src/Locks.antt =====
-- raft.c: the keys that are locked while they are moved to another cluster. `crc` is the checksum of
-- HashSlot, and `exists` is RedisModule_KeyExists.
pub mod Held
pub mod Refused
mod Tests
use redisraft.Prelude.{
  ℕ, zero, suc, ◌+◌, ◌-◌, ◌*◌, ◌/◌, ◌%◌, ◌^◌, ◌≤◌, ◌<◌, ◌≡◌, ◌≢◌, refl, sym, ap, ◌∙◌, Bool, true,
  false, ◌&&◌, ◌||◌, not, Option, none, some, List, [], ◌∷◌, ◌++◌, ◌==◌, ◌>>=◌, leb, ltb,
  if◌then◌else◌, length, take, drop, arith, if_pos, if_neg, bytes_eq, bytes_eq→eq, bytes_eq_refl,
  ◌↔◌, ◌⊎◌, Bool-cases, Option-cases, inl, inr, c_string, is_digit, ℤ, pos, negsuc, fits, lt→ltb,
  append_assoc, append-nil, length-append, take-append, drop-append,
}
use redisraft.Wire.{Bytes}
use redisraft.HashSlot.{key_hash_slot}
use redisraft.LockKeys.{deserialize_lock}
use redisraft.Dict.{set_absent}
use redisraft.Sharding.{ShardGroup, ShardingInfo}
use redisraft.Redirect.{group_at}

-- why the keys are not locked
pub data Refusal : Type 0 where
  cross_slot no_keys not_migratable not_owner no_importer importer_is_self : Refusal

-- the locked keys, or a refusal, or keys that cannot be read
pub data LockResult : Type 0 where
  locked : List Bytes → LockResult
  refused : Refusal → LockResult
  unreadable : LockResult

-- the slot of all keys, which is -1, here the inner `none`, at first; the outer `none` is the cross-slot error
unfoldable pub common_slot : (Bytes → ℕ) → List Bytes → Option ℕ → Option (Option ℕ)
common_slot crc [] slot = some slot
common_slot crc (key ∷ keys) none = common_slot crc keys (some (key_hash_slot crc key))
common_slot crc (key ∷ keys) (some slot) =
    let rest = common_slot crc keys (some slot) in
    if slot == key_hash_slot crc key then rest else none

abbrev pub check_importer : Option ShardGroup → Option Refusal
check_importer none = some no_importer
check_importer (some sg) = if sg.is_local then some importer_is_self else none

abbrev pub check_owner : Option ShardGroup → Option Refusal → Option Refusal
check_owner none next = some not_migratable
check_owner (some sg) next = if sg.is_local then next else some not_owner

-- whether the slot is on its way from this cluster to another one
unfoldable pub check_slot : ShardingInfo → ℕ → Option Refusal
check_slot si slot =
    check_owner (group_at si si.migrating_slots_map slot)
      (check_importer (group_at si si.importing_slots_map slot))

-- the keys that exist are entered
unfoldable pub lock_each : (Bytes → Bool) → List Bytes → List Bytes → List Bytes
lock_each exists [] locked_keys = locked_keys
lock_each exists (key ∷ keys) locked_keys =
    lock_each exists keys (if exists key then set_absent bytes_eq locked_keys key else locked_keys)

abbrev pub lock_checked : List Bytes → Option Refusal → LockResult
lock_checked l none = locked l
lock_checked l (some why) = refused why

abbrev pub lock_in_slot : ShardingInfo → List Bytes → Option (Option ℕ) → LockResult
lock_in_slot si l none = refused cross_slot
lock_in_slot si l (some none) = refused no_keys
lock_in_slot si l (some (some slot)) = lock_checked l (check_slot si slot)

abbrev pub lock_read :
    (Bytes → ℕ) → (Bytes → Bool) → ShardingInfo → List Bytes → Option (List Bytes) → LockResult
lock_read crc exists si locked_keys none = unreadable
lock_read crc exists si locked_keys (some keys) =
    lock_in_slot si (lock_each exists keys locked_keys) (common_slot crc keys none)

-- `lockKeys`, on the data of the entry
unfoldable pub lock_keys :
    (Bytes → ℕ) → (Bytes → Bool) → ShardingInfo → List Bytes → Bytes → LockResult
lock_keys crc exists si locked_keys body =
    lock_read crc exists si locked_keys (deserialize_lock body)

unfoldable pub unlock : List Bytes → Bytes → List Bytes
unlock [] key = []
unlock (k ∷ locked_keys) key =
    let rest = unlock locked_keys key in if bytes_eq k key then locked_keys else k ∷ rest

unfoldable pub unlock_each : List Bytes → List Bytes → List Bytes
unlock_each [] locked_keys = locked_keys
unlock_each (key ∷ keys) locked_keys = unlock_each keys (unlock locked_keys key)

-- `unlockDeleteKeys`: the keys that Redis is told to delete, and those that stay locked; `none` are keys that cannot be read
unfoldable pub unlock_delete_keys : List Bytes → Bytes → Option (List Bytes × List Bytes)
unlock_delete_keys locked_keys body = do
  keys ← deserialize_lock body
  some (keys, unlock_each keys locked_keys)

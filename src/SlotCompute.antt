-- ===== src/SlotCompute.antt =====
-- cluster.c: `HashSlotCompute`, the one hash slot that all keys of a command array share. `crc` is
-- `crc16_ccitt` of deps/common, and `keys_of` gives the arguments at the positions that
-- `RedisModule_GetCommandKeys` returns for a command.
pub mod Shared
mod Tests
use redisraft.Prelude.{ℕ, Option, none, some, List, [], ◌∷◌, ◌==◌, ◌>>=◌, if◌then◌else◌}
use redisraft.Wire.{Bytes}
use redisraft.Commands.{Command, CommandArray}
use redisraft.HashSlot.{key_hash_slot}

module _ (crc : Bytes → ℕ) (keys_of : Command → List Bytes) where
  -- The loop over the keys of one command, with `*slot`, which is `none` for -1. The outer `none` is
  -- RR_ERROR.
  unfoldable pub compute_keys : List Bytes → Option ℕ → Option (Option ℕ)
  compute_keys [] slot = some slot
  compute_keys (key ∷ keys) none = compute_keys keys (some (key_hash_slot crc key))
  compute_keys (key ∷ keys) (some slot) =
      let rest = compute_keys keys (some slot) in
      if slot == key_hash_slot crc key then rest else none

  -- the loop over the commands
  unfoldable pub compute_commands : List Command → Option ℕ → Option (Option ℕ)
  compute_commands [] slot = some slot
  compute_commands (cmd ∷ cmds) slot = do
    slot ← compute_keys (keys_of cmd) slot
    compute_commands cmds slot

  unfoldable pub hash_slot_compute : CommandArray → Option (Option ℕ)
  hash_slot_compute cmds = compute_commands cmds.commands none

-- ===== src/Snapshot/Whole.antt =====
-- snapshot.c: the whole record, saved and loaded again.
use redisraft.Prelude.{ℕ, Bool, true, false, Option, some, List, [], ◌∷◌, ◌>>=◌, length, bytes_eq}
use redisraft.Wire.{Bytes}
use redisraft.Rdb.{Stream, unsigned, buffer, load_unsigned, load_buffer, load_times, save_each}
use redisraft.Dict.{set_all}
use redisraft.Sharding.{ShardGroup, ShardingInfo}
use redisraft.Sessions.{ClientSession, same_client, clear_client_sessions}
use redisraft.Commands.{CommandArray}
use redisraft.Blocked.{BlockedCommands}
use redisraft.Blocked.Save.{blocked_commands_save, blocked_commands_load}
use redisraft.Snapshot.{SnapshotInfo, save_info, load_info}
use redisraft.Snapshot.Groups.{sharding_info_rdb_save, sharding_info_rdb_load}

abbrev pub save_key : Bytes → Stream → Stream
save_key key rest = buffer key ∷ rest

-- `lockedKeysRDBSave`
unfoldable pub locked_keys_rdb_save : List Bytes → Stream → Stream
locked_keys_rdb_save keys rest = unsigned (length keys) ∷ save_each save_key keys rest

-- `lockedKeysRDBLoad`
unfoldable pub locked_keys_rdb_load : Stream → Option (List Bytes × Stream)
locked_keys_rdb_load s = do
  (count, s) ← load_unsigned s
  (keys, s) ← load_times load_buffer count s
  some (set_all bytes_eq [] keys, s)

abbrev pub save_session : ClientSession → Stream → Stream
save_session c rest = unsigned c.client_id ∷ rest

-- `clientSessionRDBSave`
unfoldable pub client_session_rdb_save : List ClientSession → Stream → Stream
client_session_rdb_save sessions rest =
    unsigned (length sessions) ∷ save_each save_session sessions rest

abbrev pub load_session : Stream → Option (ClientSession × Stream)
load_session s = do (id, s) ← load_unsigned s; some (record { client_id = id; is_local = false }, s)

-- `clientSessionRDBLoad`: the clients it disconnects, and the new sessions
unfoldable pub client_session_rdb_load :
    List ClientSession → Stream → Option (List ℕ × (List ClientSession × Stream))
client_session_rdb_load old s = do
  (count, s) ← load_unsigned s
  (sessions, s) ← load_times load_session count s
  some (
    (clear_client_sessions old).0,
    (set_all same_client (clear_client_sessions old).1 sessions, s),
  )

-- The parts of `RedisRaftCtx` that a snapshot holds.
pub record Context (R : Type 0) : Type 0 where
  pub snapshot_info : SnapshotInfo
  pub sharding_info : Option ShardingInfo
  pub locked_keys : List Bytes
  pub client_sessions : List ClientSession
  pub blocked : BlockedCommands R

-- `rdbSaveSnapshotInfo`
unfoldable pub rdb_save_snapshot_info :
    {R : Type 0} → (List ShardGroup → List ShardGroup) → Context R → Stream → Stream
rdb_save_snapshot_info order rr rest = save_info rr.snapshot_info (
    sharding_info_rdb_save order rr.sharding_info (
      locked_keys_rdb_save rr.locked_keys (
        client_session_rdb_save rr.client_sessions
          (blocked_commands_save rr.snapshot_info.last_applied_idx rr.blocked rest))))

-- `external` is the configuration's `external_sharding`, `dbid` that of the metadata; for the others see
-- `Blocked.Save`.
module _ {W R : Type 0} (external : Bool) (dbid : Bytes) (calloc : W → ℕ × W)
    (execute : W → CommandArray → Option R × W) (promise : R → Bool) (abort : R → Bool) where
  -- `rdbLoadSnapshotInfo`; `none` is a failed assertion, or the end of the process in Redis
  unfoldable pub rdb_load_snapshot_info :
      W → Context R → Stream → Option (Context R × (W × (List ℕ × Stream)))
  rdb_load_snapshot_info w rr s = do
    (info, s) ← load_info rr.snapshot_info s
    (sharding, s) ← sharding_info_rdb_load external dbid rr.sharding_info s
    (keys, s) ← locked_keys_rdb_load s
    (closed, (sessions, s)) ← client_session_rdb_load rr.client_sessions s
    (blocked, (w, s)) ← blocked_commands_load calloc execute promise abort w rr.blocked s
    some (
      record {
        snapshot_info = record info { loaded = true };
        sharding_info = some sharding;
        locked_keys = keys;
        client_sessions = sessions;
        blocked = blocked;
      },
      (w, (closed, s)),
    )

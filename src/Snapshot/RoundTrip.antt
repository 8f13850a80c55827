-- ===== src/Snapshot/RoundTrip.antt =====
-- A snapshot that is loaded gives back the state that was saved.
use redisraft.Prelude.{
  ℕ, ◌^◌, ◌<◌, ◌≡◌, refl, sym, ◌∙◌, Bool, true, false, Option, some, List, [], ◌∷◌, length, map,
  bytes_eq,
}
use redisraft.Wire.{Bytes}
use redisraft.Rdb.{All, Stream, load_buffer, load_times, save_each}
use redisraft.Dict.{IsDict, set_all-IsDict}
use redisraft.Sharding.{ShardGroup, ShardingInfo}
use redisraft.Sessions.{ClientSession, same_client, clear_client_sessions}
use redisraft.Commands.{CommandArray}
use redisraft.Blocked.{same_idx}
use redisraft.Blocked.Save.{applied, blocked_commands_save}
use redisraft.Blocked.RoundTrip.{view, IsBlocked, blocked_commands_load-save}
use redisraft.Snapshot.Info.{IsInfo, load_info-save_info}
use redisraft.Snapshot.Groups.{
  IsGroup, hash_slots, sharding_info_rdb_save, sharding_info_rdb_load-save,
}
use redisraft.Snapshot.Tables.{TablesOf, Enterable, onto, reentered, add_groups-reset_sharding}
use redisraft.Snapshot.Whole.{
  Context, save_key, save_session, load_session, locked_keys_rdb_save, locked_keys_rdb_load,
  client_session_rdb_save, client_session_rdb_load, rdb_save_snapshot_info, rdb_load_snapshot_info,
}

load_keys :
    (keys : List Bytes) (s : Stream)
    → load_times load_buffer (length keys) (save_each save_key keys s) ≡ some (keys, s)
load_keys [] s = refl
load_keys (k ∷ keys) s = rw (load_keys keys s) refl

locked_keys_rdb_load-save :
    (keys : List Bytes) (rest : Stream)
    → IsDict bytes_eq keys
    → locked_keys_rdb_load (locked_keys_rdb_save keys rest) ≡ some (keys, rest)
unfolding locked_keys_rdb_load locked_keys_rdb_save
locked_keys_rdb_load-save keys rest h =
    rw (load_keys keys rest, set_all-IsDict bytes_eq keys h) refl

-- the session of a client that is not connected here
abbrev pub remote : ClientSession → ClientSession
remote c = record c { is_local = false }

clear_client_sessions-empty : (d : List ClientSession) → (clear_client_sessions d).1 ≡ []
unfolding clear_client_sessions
clear_client_sessions-empty [] = refl
clear_client_sessions-empty (s ∷ d) = clear_client_sessions-empty d

load_sessions :
    (d : List ClientSession) (s : Stream)
    → load_times load_session (length d) (save_each save_session d s) ≡ some (map remote d, s)
load_sessions [] s = refl
load_sessions (c ∷ d) s = rw (load_sessions d s) refl

client_session_rdb_load-save :
    (old sessions : List ClientSession) (rest : Stream)
    → IsDict same_client (map remote sessions)
    → client_session_rdb_load old (client_session_rdb_save sessions rest)
      ≡ some ((clear_client_sessions old).0, (map remote sessions, rest))
unfolding client_session_rdb_load client_session_rdb_save
client_session_rdb_load-save old sessions rest h =
    rw
      (
        load_sessions sessions rest,
        clear_client_sessions-empty old,
        set_all-IsDict same_client (map remote sessions) h,
      )
      refl

-- The state can be saved: strings fit and hold no NUL, numbers fit their types, no key of a dictionary stands twice, the number of groups is right,
-- the tables are those of the groups' ranges, and the groups can be entered in the order in which they are saved.
pub record IsSavable {R : Type 0} (order : List ShardGroup → List ShardGroup) (rr : Context R)
    (si : ShardingInfo) : Type 0 where
  pub info : IsInfo rr.snapshot_info
  pub sharding : rr.sharding_info ≡ some si
  pub count : si.shard_groups_num ≡ length (order si.shard_group_map)
  pub few : length (order si.shard_group_map) < 2 ^ 32
  pub groups : All IsGroup (order si.shard_group_map)
  pub tables : TablesOf si (onto (order si.shard_group_map) [])
  pub order_fits : Enterable [] (order si.shard_group_map)
  pub keys : IsDict bytes_eq rr.locked_keys
  pub sessions : IsDict same_client (map remote rr.client_sessions)
  pub indices : IsDict same_idx rr.blocked.list

-- The assignment is the saved one: its three tables, the terms of all slots, and in the map the saved groups, with a new runtime state.
abbrev pub SameSharding :
    Bool → Bytes → (List ShardGroup → List ShardGroup) → ShardingInfo → ShardingInfo → Type 0
SameSharding external dbid order si now =
    ((j : ℕ) → now.stable_slots_map j ≡ si.stable_slots_map j)
    × ((j : ℕ) → now.importing_slots_map j ≡ si.importing_slots_map j)
    × ((j : ℕ) → now.migrating_slots_map j ≡ si.migrating_slots_map j)
    × ((j : ℕ) → j < hash_slots → now.max_importing_term j ≡ si.max_importing_term j)
    × (now.shard_group_map ≡ map (reentered external dbid) (onto (order si.shard_group_map) []))

same_sharding :
    (external : Bool) (dbid : Bytes) (order : List ShardGroup → List ShardGroup)
    (si built : ShardingInfo) (terms : ℕ → ℕ)
    → TablesOf si (onto (order si.shard_group_map) [])
    → TablesOf built (onto (order si.shard_group_map) [])
    → (built.shard_group_map ≡ map (reentered external dbid) (onto (order si.shard_group_map) []))
    → ((j : ℕ) → j < hash_slots → terms j ≡ si.max_importing_term j)
    → SameSharding external dbid order si (record built { max_importing_term = terms })
same_sharding external dbid order si built terms saved loaded groups values = (
  (λ j. loaded.0 j ∙ sym (saved.0 j)),
  (λ j. loaded.1 j ∙ sym (saved.1 j)),
  (λ j. loaded.2 j ∙ sym (saved.2 j)),
  values,
  groups,
)

-- What has been loaded is what was saved.
abbrev pub Restored :
    {R : Type 0}
    → Bool
    → Bytes
    → (List ShardGroup → List ShardGroup)
    → Context R
    → ShardingInfo
    → Context R
    → Type 0
Restored external dbid order rr si rr' =
    (rr'.snapshot_info ≡ record rr.snapshot_info { loaded = true })
    × ((now : ShardingInfo) × (rr'.sharding_info ≡ some now)
        × SameSharding external dbid order si now)
    × (rr'.locked_keys ≡ rr.locked_keys)
    × (rr'.client_sessions ≡ map remote rr.client_sessions)
    × (map view rr'.blocked.list
        ≡ map view (applied rr.snapshot_info.last_applied_idx rr.blocked.list))
    × (rr'.blocked.dict ≡ rr'.blocked.list)

module _ {W R : Type 0} (external : Bool) (dbid : Bytes) (calloc : W → ℕ × W)
    (execute : W → CommandArray → Option R × W) (promise : R → Bool) (abort : R → Bool) where
  -- A state whose strings and numbers fit their fields, whose dictionaries have no key twice, whose tables are those of its groups, whose groups can
  -- be entered in the order of saving, and whose applied blocked commands block when executed again, is restored by loading its snapshot, whatever the
  -- state before, if that has a sharding record and every blocked reply can be aborted: the record with its nodes and used ids, the tables, terms and
  -- groups of the sharding, the locked keys, the sessions, which are remote now, and the blocked commands up to the last applied index.
  -- Loading reads no more than was saved, and the disconnected clients are the local ones of the old sessions.
  pub rdb_load-rdb_save :
      (order : List ShardGroup → List ShardGroup) (w : W) (old rr : Context R)
      (old_si si : ShardingInfo) (rest : Stream)
      → IsSavable order rr si
      → old.sharding_info ≡ some old_si
      → ((r : R) → abort r ≡ true)
      → All
          (IsBlocked calloc execute promise abort)
          (applied rr.snapshot_info.last_applied_idx rr.blocked.list)
      → (rr' : Context R) × (w' : W) × (rdb_load_snapshot_info external dbid calloc execute promise
            abort w old
            (rdb_save_snapshot_info order rr rest)
          ≡ some (rr', (w', ((clear_client_sessions old.client_sessions).0, rest))))
        × Restored external dbid order rr si rr'
  unfolding rdb_load_snapshot_info rdb_save_snapshot_info
  rdb_load-rdb_save order w old rr old_si si rest h initialized aborts blocks =
      let last = rr.snapshot_info.last_applied_idx in
      let blocked_part = blocked_commands_save last rr.blocked rest in
      let sessions_part = client_session_rdb_save rr.client_sessions blocked_part in
      let keys_part = locked_keys_rdb_save rr.locked_keys sessions_part in
      let (built, enters, tables, in_map) =
        add_groups-reset_sharding external dbid (order si.shard_group_map) old_si h.order_fits in
      let (terms, groups, values) =
        sharding_info_rdb_load-save external dbid order old_si si built keys_part h.count h.few
          h.groups enters in
      let (b', w', commands, listed, same) =
        blocked_commands_load-save calloc execute promise abort w old.blocked rr.blocked last rest
          aborts h.indices blocks in
      (
        record {
          snapshot_info = record rr.snapshot_info { loaded = true };
          sharding_info = some (record built { max_importing_term = terms });
          locked_keys = rr.locked_keys;
          client_sessions = map remote rr.client_sessions;
          blocked = b';
        },
        w',
        rw
            (
              load_info-save_info old.snapshot_info rr.snapshot_info
                  (sharding_info_rdb_save order rr.sharding_info keys_part) h.info,
              h.sharding,
              initialized,
              groups,
              locked_keys_rdb_load-save rr.locked_keys sessions_part h.keys,
              client_session_rdb_load-save old.client_sessions rr.client_sessions blocked_part
                  h.sessions,
              commands,
            )
            refl,
        (
          refl,
          (_, refl, same_sharding external dbid order si built terms h.tables tables in_map values),
          refl,
          refl,
          listed,
          same,
        ),
      )

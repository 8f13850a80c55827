-- ===== src/Snapshot/Tests.antt =====
-- A snapshot with a node, a group, a locked key, a session and a blocked command.
use redisraft.Prelude.{
  ℕ, ◌+◌, ◌≡◌, refl, Bool, true, false, ◌&&◌, Option, none, some, [], ◌∷◌, leb, if◌then◌else◌,
  arith, c_string, pos,
}
use redisraft.Wire.{Bytes}
use redisraft.Sharding.{stable}
use redisraft.Sessions.{clear_client_sessions}
use redisraft.Snapshot.Info.{IsCfgEntry}
use redisraft.Snapshot.Groups.{IsGroup}
use redisraft.Snapshot.Whole.{Context, rdb_save_snapshot_info, rdb_load_snapshot_info}
use redisraft.Snapshot.RoundTrip.{IsSavable, Restored, rdb_load-rdb_save}
use redisraft.Wire.Writer.{read_integer, read_string}
use redisraft.Wire.{decode_integer, decode_string}
use redisraft.Commands.{read_commands, read_command, read_args, argc_rounds, free}
use redisraft.Prelude.{scan_digits, strtoul}
use redisraft.Snapshot.Tables.{TablesOf}
use redisraft.Sharding.Slots.{covered}
use redisraft.Rdb.{All}
use redisraft.Sharding.{ShardGroup, ShardingInfo}
use redisraft.Commands.{CommandArray, empty_array, deserialize}
use redisraft.Blocked.{BlockedCommand, BlockedCommands}
use redisraft.Blocked.Save.{applied}
use redisraft.Blocked.RoundTrip.{IsBlocked}

-- BLPOP k
abbrev blpop : Bytes
blpop = 66 ∷ 76 ∷ 80 ∷ 79 ∷ 80 ∷ []

abbrev body : Bytes
body =
    42 ∷ 48 ∷ 10 ∷ 42 ∷ 48 ∷ 10 ∷ 36 ∷ 48 ∷ 10 ∷ 10 ∷ 42 ∷ 49 ∷ 10 ∷ 42 ∷ 50 ∷ 10 ∷ 36 ∷ 53 ∷ 10
    ∷ 66 ∷ 76 ∷ 80 ∷ 79 ∷ 80 ∷ 10 ∷ 36 ∷ 49 ∷ 10 ∷ 107 ∷ 10 ∷ []

abbrev one_command : CommandArray
one_command = record empty_array {
  client_id = 3;
  size = 1;
  commands = (blpop ∷ (107 ∷ []) ∷ []) ∷ [];
}

body_read : deserialize (record empty_array { client_id = 3 }) body ≡ some one_command
unfolding deserialize read_commands read_command read_args argc_rounds free read_integer read_string
    decode_integer decode_string scan_digits strtoul
body_read = refl

abbrev blocked_pop : BlockedCommand ℕ
blocked_pop = record {
  address = 4096;
  idx = pos 12;
  session = 3;
  command = blpop;
  body = body;
  req = some 1;
  reply = 7;
}

-- the second one has not been applied
abbrev two_blocked : BlockedCommands ℕ
two_blocked =
    let list = blocked_pop ∷ record blocked_pop { address = 8192; idx = pos 13 } ∷ [] in
    record { list = list; dict = list }

abbrev a_group : ShardGroup
a_group = record {
  id = 97 ∷ 98 ∷ [];
  slot_ranges =
      record { start_slot = 5; end_slot = 6; type = stable; migration_session_key = 1 } ∷ [];
  nodes = record { node_id = 110 ∷ 49 ∷ []; addr = record { host = 104 ∷ []; port = 6379 } } ∷ [];
  is_local = true;
  next_redir = 0;
  node_conn_idx = 0;
  use_conn_addr = false;
  conn = true;
}

abbrev sharding : ShardingInfo
sharding = record {
  shard_groups_num = 1;
  shard_group_map = a_group ∷ [];
  is_sharding = true;
  stable_slots_map = λ j. if leb 5 j && leb j 6 then some (97 ∷ 98 ∷ []) else none;
  importing_slots_map = λ _. none;
  migrating_slots_map = λ _. none;
  max_importing_term = λ j. j;
}

abbrev empty_sharding : ShardingInfo
empty_sharding = record {
  shard_groups_num = 0;
  shard_group_map = [];
  is_sharding = false;
  stable_slots_map = λ _. none;
  importing_slots_map = λ _. none;
  migrating_slots_map = λ _. none;
  max_importing_term = λ _. 0;
}

abbrev state : Context ℕ
state = record {
  snapshot_info = record {
    loaded = false;
    dbid = 97 ∷ 98 ∷ [];
    last_applied_term = pos 2;
    last_applied_idx = pos 12;
    cfg =
        record { id = pos 1; voting = pos 1; addr = record { host = 104 ∷ []; port = 6379 } } ∷ [];
    used_node_ids = pos 1 ∷ pos 77 ∷ [];
  };
  sharding_info = some sharding;
  locked_keys = (107 ∷ []) ∷ [];
  client_sessions = record { client_id = 3; is_local = true } ∷ [];
  blocked = two_blocked;
}

abbrev fresh_state : Context ℕ
fresh_state = record {
  snapshot_info = record {
    loaded = false;
    dbid = [];
    last_applied_term = pos 0;
    last_applied_idx = pos 0;
    cfg = [];
    used_node_ids = [];
  };
  sharding_info = some empty_sharding;
  locked_keys = [];
  client_sessions = record { client_id = 9; is_local = true } ∷ [];
  blocked = record { list = []; dict = [] };
}

-- the objects stand one after the other, and every reply is a promise
abbrev calloc : ℕ → ℕ × ℕ
calloc w = (w, w + 64)

abbrev execute : ℕ → CommandArray → Option ℕ × ℕ
execute w cmds = (some 5, w)

abbrev always : ℕ → Bool
always r = true

a_group-TablesOf : TablesOf sharding (a_group ∷ [])
unfolding covered
a_group-TablesOf = ((λ j. ground arith), (λ j. refl), (λ j. refl))

a_group-IsGroup : IsGroup a_group
a_group-IsGroup = record {
  id_line = ((λ e. omega arith), ((λ e. omega arith), tt));
  id_string = ((λ e. omega arith), ((λ e. omega arith), tt));
  id_fits = omega arith;
  ranges =
      (record { start_fits = omega arith; end_fits = omega arith; key_fits = omega arith }, tt);
  nodes_valid = (
    record {
      id_line = ((λ e. omega arith), ((λ e. omega arith), tt));
      id_string = ((λ e. omega arith), ((λ e. omega arith), tt));
      id_fits = omega arith;
      host_line = ((λ e. omega arith), tt);
      host_string = ((λ e. omega arith), tt);
      host_fits = omega arith;
      port_low = omega arith;
      port_high = omega arith;
    },
    tt,
  );
  few_ranges = omega arith;
  few_nodes = omega arith;
}

pos-eq : (m n : ℕ) → pos m ≡ pos n → m ≡ n
pos-eq m n e = cc

a_node-IsCfgEntry :
    IsCfgEntry
      (record { id = pos 1; voting = pos 1; addr = record { host = 104 ∷ []; port = 6379 } })
a_node-IsCfgEntry = record {
  id_set = ((λ e. omega (arith, pos-eq 1 0 e)), refl);
  voting_fits = refl;
  host_string = ((λ e. omega arith), tt);
  host_fits = omega arith;
  port_fits = omega arith;
}

state-IsSavable : IsSavable (λ groups. groups) state sharding
state-IsSavable = record {
  info = record {
    dbid_string = ((λ e. omega arith), ((λ e. omega arith), tt));
    dbid_fits = omega arith;
    term_fits = refl;
    idx_fits = refl;
    cfg_valid = (a_node-IsCfgEntry, tt);
    ids_valid = (
      ((λ e. omega (arith, pos-eq 1 0 e)), refl),
      (((λ e. omega (arith, pos-eq 77 0 e)), refl), tt),
    );
  };
  sharding = refl;
  count = refl;
  few = omega arith;
  groups = (a_group-IsGroup, tt);
  tables = a_group-TablesOf;
  order_fits = (tt, omega arith, ((λ e. cc), omega arith, omega arith, (λ j le lt. refl), tt), tt);
  keys = (tt, tt);
  sessions = (tt, tt);
  indices = ((refl, tt), (tt, tt));
}

c_string-blpop : blpop ≡ c_string blpop
unfolding c_string
c_string-blpop = refl

blocked_pop-IsBlocked : IsBlocked calloc execute always always blocked_pop
blocked_pop-IsBlocked = record {
  idx_fits = refl;
  cmds = one_command;
  name = blpop;
  read = body_read;
  named = refl;
  command = c_string-blpop;
  blocks = λ w. (5, w, refl, refl);
}

applied_one : All (IsBlocked calloc execute always always) (applied (pos 12) two_blocked.list)
unfolding applied
applied_one = (blocked_pop-IsBlocked, tt)

rdb_load-rdb_save_example :
    (rr' : Context ℕ) × (w' : ℕ) × (rdb_load_snapshot_info false
        (97 ∷ 98 ∷ [])
        calloc
        execute
        always
        always
        4096
        fresh_state
        (rdb_save_snapshot_info (λ groups. groups) state [])
      ≡ some (rr', (w', ((clear_client_sessions fresh_state.client_sessions).0, []))))
    × Restored false (97 ∷ 98 ∷ []) (λ groups. groups) state sharding rr'
rdb_load-rdb_save_example =
    rdb_load-rdb_save false (97 ∷ 98 ∷ []) calloc execute always always (λ groups. groups) 4096
      fresh_state state empty_sharding sharding [] state-IsSavable refl (λ r. refl) applied_one

-- ===== src/Snapshot.antt =====
-- snapshot.c: the record that an RDB file holds beside the data, its first part here: the id of the cluster,
-- the last applied entry, the nodes and the used node ids.
pub mod Info
pub mod Groups
pub mod Tables
pub mod Whole
pub mod RoundTrip
mod Tests
use redisraft.Prelude.{
  ℕ, zero, suc, ◌+◌, ◌-◌, ◌*◌, ◌/◌, ◌%◌, ◌^◌, ◌≤◌, ◌<◌, ◌≡◌, ◌≢◌, refl, sym, ap, ◌∙◌, Bool, true,
  false, ◌&&◌, ◌||◌, not, Option, none, some, List, [], ◌∷◌, ◌++◌, ◌==◌, ◌>>=◌, leb, ltb,
  if◌then◌else◌, length, take, drop, arith, Bool-cases, Option-cases, inl, inr, c_string, is_digit,
  ℤ, pos, negsuc, fits, lt→ltb, append_assoc, append-nil, length-append, take-append, drop-append,
}
use redisraft.Wire.{Bytes}
use redisraft.Rdb.{
  Item, Stream, unsigned, buffer, load_unsigned, load_buffer, to_uint64, to_int, to_long,
}
use redisraft.NodeAddr.{NodeAddr}

-- `SnapshotCfgEntry`
pub record CfgEntry : Type 0 where
  pub id : ℤ
  pub voting : ℤ
  pub addr : NodeAddr

-- `RaftSnapshotInfo`; the strings are the bytes before the terminator
pub record SnapshotInfo : Type 0 where
  pub loaded : Bool
  pub dbid : Bytes
  pub last_applied_term : ℤ
  pub last_applied_idx : ℤ
  pub cfg : List CfgEntry
  pub used_node_ids : List ℤ

-- the nodes, and the marker behind the last one
unfoldable pub save_cfg : List CfgEntry → Stream → Stream
save_cfg [] rest = unsigned 0 ∷ rest
save_cfg (e ∷ cfg) rest =
    unsigned (to_uint64 e.id)
    ∷ unsigned (to_uint64 e.voting)
    ∷ buffer (c_string e.addr.host)
    ∷ unsigned e.addr.port
    ∷ save_cfg cfg rest

unfoldable pub save_ids : List ℤ → Stream → Stream
save_ids [] rest = unsigned 0 ∷ rest
save_ids (id ∷ ids) rest = unsigned (to_uint64 id) ∷ save_ids ids rest

-- `rdbSaveSnapshotInfo`, up to the sharding information
unfoldable pub save_info : SnapshotInfo → Stream → Stream
save_info info rest =
    buffer (c_string info.dbid)
    ∷ unsigned (to_uint64 info.last_applied_term)
    ∷ unsigned (to_uint64 info.last_applied_idx)
    ∷ save_cfg info.cfg (save_ids info.used_node_ids rest)

-- an entry of the loop over the nodes; the length of the host is asserted
abbrev cfg_entry : ℕ → ℕ → Bytes → ℕ → Option CfgEntry
cfg_entry id voting host port =
    if ltb (length host) 256
    then some (record {
      id = to_int id;
      voting = to_int voting;
      addr = record { host = c_string host; port = port % 2 ^ 16 };
    })
    else none

abbrev cons_cfg :
    Option CfgEntry → Option (List CfgEntry × Stream) → Option (List CfgEntry × Stream)
cons_cfg o rest = do e ← o; (cfg, s) ← rest; some (e ∷ cfg, s)

unfoldable pub load_cfg : Stream → Option (List CfgEntry × Stream)
load_cfg (unsigned zero ∷ s) = some ([], s)
load_cfg (unsigned (suc n) ∷ unsigned voting ∷ buffer host ∷ unsigned port ∷ s) =
    cons_cfg (cfg_entry (suc n) voting host port) (load_cfg s)
load_cfg _ = none

unfoldable pub load_ids : Stream → Option (List ℤ × Stream)
load_ids (unsigned zero ∷ s) = some ([], s)
load_ids (unsigned (suc n) ∷ s) = do (ids, s) ← load_ids s; some (to_int (suc n) ∷ ids, s)
load_ids _ = none

-- `rdbLoadSnapshotInfo`, up to the sharding information; the length of the id is asserted
unfoldable pub load_info : SnapshotInfo → Stream → Option (SnapshotInfo × Stream)
load_info info s = do
  (dbid, s) ← load_buffer s
  (term, s) ← load_unsigned s
  (idx, s) ← load_unsigned s
  (cfg, s) ← load_cfg s
  (ids, s) ← load_ids s
  if leb (length dbid) 32
      then some (
        record info {
          dbid = c_string dbid;
          last_applied_term = to_long term;
          last_applied_idx = to_long idx;
          cfg = cfg;
          used_node_ids = ids;
        },
        s,
      )
      else none

-- ===== src/Startup.antt =====
-- raft.c: `loadRaftLog`, which puts the log, the metadata and the snapshot together at the start, before
-- the Raft library takes over the log and the term.
pub mod Check
mod Tests
use redisraft.Prelude.{
  ℕ, zero, suc, ◌+◌, ◌-◌, ◌*◌, ◌/◌, ◌%◌, ◌^◌, ◌≤◌, ◌<◌, ◌≡◌, ◌≢◌, refl, sym, ap, ◌∙◌, Bool, true,
  false, ◌&&◌, ◌||◌, not, Option, none, some, List, [], ◌∷◌, ◌++◌, ◌==◌, ◌>>=◌, leb, ltb,
  if◌then◌else◌, length, take, drop, arith, bytes_eq, lt_ℤ, Bool-cases, Option-cases, inl, inr,
  c_string, is_digit, ℤ, pos, negsuc, fits, lt→ltb, append_assoc, append-nil, length-append,
  take-append, drop-append,
}
use redisraft.Wire.{Bytes}
use redisraft.Metadata.{Metadata}
use redisraft.Log.{Log, log_load, prev_log_term, prev_log_index, current_idx}
use redisraft.LogImpl.{Ctx, impl_reset}
use redisraft.Snapshot.{SnapshotInfo}

-- `a < b`
abbrev pub ltb_ℤ : ℤ → ℤ → Bool
ltb_ℤ (pos m) (pos n) = ltb m n
ltb_ℤ (pos m) (negsuc n) = false
ltb_ℤ (negsuc m) (pos n) = true
ltb_ℤ (negsuc m) (negsuc n) = ltb n m

-- the next index
abbrev pub suc_ℤ : ℤ → ℤ
suc_ℤ (pos n) = pos (n + 1)
suc_ℤ (negsuc zero) = pos 0
suc_ℤ (negsuc (suc n)) = negsuc n

abbrev pub to_ℕ : ℤ → ℕ
to_ℕ (pos n) = n
to_ℕ (negsuc n) = 0

-- RR_OK with the state that the library is given, RR_ERROR, or the end of the process
pub data Loaded : Type 0 where
  started : SnapshotInfo → Ctx → Loaded
  rr_error : Loaded
  panicked : Loaded

-- the log does not belong to the snapshot
unfoldable pub mismatch : Metadata → SnapshotInfo → Log → Bool
mismatch meta info log =
    if info.loaded
    then not (bytes_eq info.dbid meta.dbid)
      || ltb_ℤ info.last_applied_term (prev_log_term log)
      || ltb_ℤ (suc_ℤ info.last_applied_idx) (pos (prev_log_index log))
    else not (prev_log_index log == 0)

abbrev pub reset_done : Metadata → SnapshotInfo → Option Ctx → Loaded
reset_done meta info none = panicked
reset_done meta info (some ctx) = started (record info { dbid = meta.dbid }) ctx

-- `size` is as for `LogImpl`
module _ (size : ℕ) (crc32 : ℕ → Bytes → ℕ) where
  -- the log starts anew where the snapshot is more advanced; `written` is for the log's new header
  unfoldable pub settle : Bool → Metadata → SnapshotInfo → Ctx → Loaded
  settle written meta info ctx = reset_done meta info (
      if lt_ℤ (current_idx ctx.log) info.last_applied_idx
      then impl_reset size crc32 written (to_ℕ (suc_ℤ info.last_applied_idx)) info.last_applied_term
          ctx
      else some ctx)

  abbrev pub loaded_log : Bool → Metadata → SnapshotInfo → Ctx → Option Log → Loaded
  loaded_log written meta info ctx none = rr_error
  loaded_log written meta info ctx (some log) =
      if not (bytes_eq meta.dbid log.dbid)
      then panicked
      else if mismatch meta info log
      then panicked
      else settle written meta info (record ctx { log = log })

  -- `loadRaftLog`
  unfoldable pub load_raft_log : Bool → Metadata → SnapshotInfo → Ctx → Loaded
  load_raft_log written meta info ctx = loaded_log written meta info ctx (log_load crc32 ctx.log)

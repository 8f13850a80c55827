-- ===== src/Metadata.antt =====
-- metadata.c: the file with the node's id, its term and its vote, which is replaced by renaming a new one.
pub mod RoundTrip
pub mod Crash
mod Tests
use redisraft.Prelude.{
  ℕ, zero, suc, ◌^◌, Bool, true, false, ◌&&◌, ◌||◌, not, Option, none, some, List, [], ◌∷◌, ◌++◌,
  ◌==◌, ◌>>=◌, if◌then◌else◌, length, take, ℤ, pos, negsuc, eq_ℤ, bytes_eq,
}
use redisraft.Wire.{Bytes, star}
use redisraft.Multibulk.{read_len, read_str, read_signed, write_len, write_str, write_signed}

-- `Metadata`, for one file name
pub record Metadata : Type 0 where
  pub dbid : Bytes
  pub node_id : ℤ
  pub term : ℤ
  pub vote : ℤ

-- "METADATA"
abbrev pub metadata_str : Bytes
metadata_str = 77 ∷ 69 ∷ 84 ∷ 65 ∷ 68 ∷ 65 ∷ 84 ∷ 65 ∷ []

-- `MetadataInit`, with RAFT_NODE_ID_NONE
abbrev pub metadata_init : Metadata
metadata_init = record { dbid = []; node_id = negsuc 0; term = pos 0; vote = negsuc 0 }

-- `MetadataSetClusterConfig`
pub set_cluster_config : Bytes → ℤ → Metadata → Option Metadata
set_cluster_config dbid node_id m =
    if length dbid == 32 then some (record m { dbid = dbid; node_id = node_id }) else none

-- the text of the file, which `MetadataWrite` builds
unfoldable pub metadata_text : Metadata → Bytes
metadata_text m =
    write_len star (pos 6)
    ++ (write_str metadata_str
        ++ (write_signed (pos 1)
            ++ (write_str m.dbid
                ++ (write_signed m.node_id ++ (write_signed m.term ++ write_signed m.vote)))))

-- the two files, where they exist
pub record Disk : Type 0 where
  pub tmp : Option Bytes
  pub meta : Option Bytes

-- What `MetadataWrite` asks of the file system: to create the temporary file, to put a byte at its end,
-- and to rename it. Renaming is atomic.
pub data Call : Type 0 where
  create : Call
  put : ℕ → Call
  swap : Call

abbrev extend_file : Option Bytes → ℕ → Option Bytes
extend_file none c = none
extend_file (some text) c = some (text ++ c ∷ [])

abbrev pub perform : Call → Disk → Disk
perform create d = record d { tmp = some [] }
perform (put c) d = record d { tmp = extend_file d.tmp c }
perform swap d = record { tmp = none; meta = d.tmp }

abbrev pub run : List Call → Disk → Disk
run [] d = d
run (c ∷ calls) d = run calls (perform c d)

abbrev pub writes : Bytes → List Call → List Call
writes [] calls = calls
writes (c ∷ text) calls = put c ∷ writes text calls

abbrev pub metadata_calls : Bytes → List Call
metadata_calls text = create ∷ writes text (swap ∷ [])

-- How the calls of `MetadataWrite` end: whether the file is opened, after how many bytes a write or
-- the close fails, whether the file and then its directory are synced, whether the rename is done, and
-- whether the directory is synced after it. Each stands for the whole of what the routine tests.
pub record Outcomes : Type 0 where
  pub opens : Bool
  pub write_fails : Option ℕ
  pub syncs : Bool
  pub syncs_dir : Bool
  pub renames : Bool
  pub syncs_rename : Bool

-- a PANIC, the return of RR_ERROR, or the next step
pub data Step : Type 0 where
  panics : Disk → Step
  fails : Disk → Step
  goes : Disk → Step

abbrev next : Step → (Disk → Step) → Step
next (panics d) f = panics d
next (fails d) f = fails d
next (goes d) f = f d

-- `FileOpen` with O_TRUNC
abbrev open_tmp : Bool → Disk → Step
open_tmp opens d = if opens then goes (perform create d) else panics d

-- `FileWrite` and `FileTerm`
abbrev write_text : Bytes → Option ℕ → Disk → Step
write_text text none d = goes (run (writes text []) d)
write_text text (some k) d = panics (run (take k (writes text [])) d)

-- `fsyncDir`, which does not return if the directory cannot be synced
abbrev fsync_dir : Bool → Disk → Step
fsync_dir ok d = if ok then goes d else panics d

-- `fsyncFileAt`
abbrev fsync_file_at : Bool → Bool → Disk → Step
fsync_file_at syncs syncs_dir d = if syncs then fsync_dir syncs_dir d else fails d

-- `syncRename`
abbrev sync_rename : Bool → Bool → Disk → Step
sync_rename renames syncs_rename d =
    if renames then fsync_dir syncs_rename (perform swap d) else fails d

-- what is on the disk, and RR_OK or RR_ERROR with the `Metadata`, where `none` is PANIC
abbrev returned : Metadata → Metadata → Step → Disk × Option (Bool × Metadata)
returned old new (panics d) = (d, none)
returned old new (fails d) = (d, some (false, old))
returned old new (goes d) = (d, some (true, new))

-- `MetadataWrite`
unfoldable pub metadata_write : Outcomes → Disk → Metadata → ℤ → ℤ → Disk × Option (Bool × Metadata)
metadata_write o disk m term vote =
    let new = record m { term = term; vote = vote } in
    let written = next (open_tmp o.opens disk) (write_text (metadata_text new) o.write_fails) in
    let synced = next written (fsync_file_at o.syncs o.syncs_dir) in
    returned m new (next synced (sync_rename o.renames o.syncs_rename))

-- the text of a file; `none` is a PANIC or a failed assertion
unfoldable pub read_text : Bytes → Option Metadata
read_text s = do
  (elem_count, s) ← read_len star s
  (str, s) ← read_str 128 s
  (version, s) ← read_signed (2 ^ 31) s
  (dbid, s) ← read_str 64 s
  (node_id, s) ← read_signed (2 ^ 31) s
  (term, s) ← read_signed (2 ^ 63) s
  (vote, s) ← read_signed (2 ^ 31) s
  if eq_ℤ elem_count (pos 6)
        && bytes_eq (take 8 str) metadata_str
        && eq_ℤ version (pos 1)
        && length dbid == 32
      then some (record { dbid = dbid; node_id = node_id; term = term; vote = vote })
      else none

-- `MetadataRead`; the inner `none` is RR_ERROR, where there is no file
unfoldable pub metadata_read : Disk → Option (Option Metadata)
metadata_read disk = elim disk.meta [
  | none ↦ some none
  | some text ↦ do m ← read_text text; some (some m)
]

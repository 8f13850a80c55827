-- ===== src/Chunks.antt =====
-- snapshot.c: the transfer of a snapshot file in chunks. The Raft library sends a chunk again after an
-- error, and goes on behind it otherwise.
pub mod Part
mod Tests
use redisraft.Prelude.{
  ℕ, zero, suc, ◌+◌, ◌-◌, ◌*◌, ◌/◌, ◌%◌, ◌^◌, ◌≤◌, ◌<◌, ◌≡◌, ◌≢◌, refl, sym, ap, ◌∙◌, Bool, true,
  false, ◌&&◌, ◌||◌, not, Option, none, some, List, [], ◌∷◌, ◌++◌, ◌==◌, ◌>>=◌, leb, ltb,
  if◌then◌else◌, length, take, drop, arith, min, ◌⊎◌, Bool-cases, Option-cases, inl, inr, c_string,
  is_digit, ℤ, pos, negsuc, fits, lt→ltb, append_assoc, append-nil, length-append, take-append,
  drop-append,
}
use redisraft.Wire.{Bytes}

-- `raft_snapshot_chunk_t`; `len` is the length of the data
pub record Chunk : Type 0 where
  pub body : Bytes
  pub last_chunk : Bool

-- What `raftGetSnapshotChunk` gives: a chunk, RAFT_ERR_DONE, or a failed assertion.
pub data Sent : Type 0 where
  chunk : Chunk → Sent
  err_done : Sent
  aborted : Sent

-- `snapshot_req_max_count` and `snapshot_req_max_size`
pub record Limits : Type 0 where
  pub max_count : ℕ
  pub max_size : ℕ

abbrev chunk_at : Limits → Bytes → ℕ → ℕ → Sent
chunk_at limits file offset len =
    if len == 0
    then err_done
    else chunk
        (record { body = take len (drop offset file); last_chunk = offset + len == length file })

-- `raftGetSnapshotChunk`, for a node with so many pending responses
unfoldable pub get_snapshot_chunk : Limits → Bool → ℕ → Bytes → ℕ → Sent
get_snapshot_chunk limits connected pending file offset =
    if not connected || leb limits.max_count pending
    then err_done
    else if ltb (length file) offset
    then aborted
    else chunk_at limits file offset (min limits.max_size (length file - offset))

-- `incoming_snapshot_idx`, and the bytes of `incoming_snapshot_file`, if it is there
pub record Incoming : Type 0 where
  pub idx : ℕ
  pub file : Option Bytes

-- Whether the file can be opened and positioned, and how many bytes are written at most.
pub record Disk : Type 0 where
  pub opens : Bool
  pub seeks : Bool
  pub writes : ℕ

-- `write` on the file: bytes are replaced, the file grows, and a gap is filled with zeros
unfoldable pub overwrite : Bytes → Bytes → Bytes
overwrite [] body = body
overwrite (c ∷ file) [] = c ∷ file
overwrite (c ∷ file) (d ∷ body) = d ∷ overwrite file body

unfoldable pub write_at : Bytes → ℕ → Bytes → Bytes
write_at file zero body = overwrite file body
write_at [] (suc offset) [] = []
write_at [] (suc offset) (d ∷ body) = 0 ∷ write_at [] offset (d ∷ body)
write_at (c ∷ file) (suc offset) body = c ∷ write_at file offset body

-- the result, 0 or -1, as whether it is 0; or PANIC
pub data Stored : Type 0 where
  stored : Bool → Incoming → Stored
  panicked : Stored

abbrev contents : Option Bytes → Bytes
contents none = []
contents (some file) = file

-- `O_CREAT`, and `O_TRUNC` for the first chunk
abbrev open_file : ℕ → Option Bytes → Bytes
open_file offset file = if offset == 0 then [] else contents file

abbrev pub write_chunk : Disk → ℕ → Bytes → Incoming → Bytes → Stored
write_chunk disk offset body inc file =
    if disk.seeks
    then stored (leb (length body) disk.writes)
        (record inc { file = some (write_at file offset (take disk.writes body)) })
    else stored false (record inc { file = some file })

-- `raftStoreSnapshotChunk`
unfoldable pub store_snapshot_chunk : Disk → ℕ → ℕ → Bytes → Incoming → Stored
store_snapshot_chunk disk snapshot_index offset body inc =
    let idx = if offset == 0 then snapshot_index else inc.idx in
    if not (idx == snapshot_index)
    then panicked
    else if disk.opens
    then write_chunk disk offset body (record inc { idx = idx }) (open_file offset inc.file)
    else stored false (record inc { idx = idx })

-- the offset of the next chunk, which the sender keeps, and the receiver
pub record Transfer : Type 0 where
  pub offset : ℕ
  pub incoming : Incoming

-- the circumstances of one attempt
pub record Attempt : Type 0 where
  pub connected : Bool
  pub pending : ℕ
  pub disk : Disk

abbrev pub answered : ℕ → Transfer → Stored → Option Transfer
answered len t panicked = none
answered len t (stored true inc) = some (record { offset = t.offset + len; incoming = inc })
answered len t (stored false inc) = some (record t { incoming = inc })

abbrev pub deliver : Attempt → ℕ → Transfer → Sent → Option Transfer
deliver a idx t aborted = none
deliver a idx t err_done = some t
deliver a idx t (chunk c) =
    answered (length c.body) t (store_snapshot_chunk a.disk idx t.offset c.body t.incoming)

-- An attempt to send the next chunk, as the Raft library makes it with these callbacks.
unfoldable pub attempt : Limits → Bytes → ℕ → Transfer → Attempt → Option Transfer
attempt limits file idx t a =
    deliver a idx t (get_snapshot_chunk limits a.connected a.pending file t.offset)

unfoldable pub transfer : Limits → Bytes → ℕ → Transfer → List Attempt → Option Transfer
transfer limits file idx t [] = some t
transfer limits file idx t (a ∷ attempts) = do
  t ← attempt limits file idx t a
  transfer limits file idx t attempts

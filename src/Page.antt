-- ===== src/Page.antt =====
-- log.c: one page of the Raft log, a file of entries and the file of their offsets. A file is the bytes
-- that have been written to it, whether or not they are still in the buffer of src/file.c.
pub mod Text
pub mod Spec
pub mod Rep
pub mod Append
pub mod Seek
pub mod Delete
pub mod Load
pub mod Crash
pub mod Reset
pub use redisraft.RaftEntry.{Entry}
use redisraft.Prelude.{
  bytes_eq, get_elem?, eq_ℤ, ℕ, zero, suc, ◌+◌, ◌-◌, ◌*◌, ◌/◌, ◌%◌, ◌^◌, ◌≤◌, ◌<◌, ◌≡◌, ◌≢◌, refl,
  sym, ap, ◌∙◌, Bool, true, false, ◌&&◌, ◌||◌, not, Option, none, some, List, [], ◌∷◌, ◌++◌, ◌==◌,
  ◌>>=◌, leb, ltb, if◌then◌else◌, length, take, drop, arith, Bool-cases, Option-cases, inl, inr,
  c_string, is_digit, ℤ, pos, negsuc, fits, lt→ltb, append_assoc, append-nil, length-append,
  take-append, drop-append,
}
use redisraft.Wire.{Bytes, star, dollar}
use redisraft.Multibulk.{
  crlf, read_len, read_str, read_signed, read_unsigned, file_read, is_crlf, as_length, write_len,
  write_str, write_signed, write_unsigned,
}

-- `LogPage`. `file` and `idxfile` are the contents of the files; the latter is written and read in
-- cells of 8 bytes, each of them an offset. Indices are not negative.
pub record LogPage : Type 0 where
  pub dbid : Bytes
  pub node_id : ℤ
  pub prev_log_term : ℤ
  pub prev_log_idx : ℕ
  pub num_entries : ℕ
  pub index : ℕ
  pub file : Bytes
  pub idxfile : List ℕ
  pub current_crc : ℤ

-- "ENTRY" and "RAFTLOG"
abbrev pub entry_str : Bytes
entry_str = 69 ∷ 78 ∷ 84 ∷ 82 ∷ 89 ∷ []

abbrev pub raftlog_str : Bytes
raftlog_str = 82 ∷ 65 ∷ 70 ∷ 84 ∷ 76 ∷ 79 ∷ 71 ∷ []

-- a `long` as the `uint32_t` argument of `sc_crc32`
abbrev pub low32 : ℤ → ℕ
low32 (pos n) = n % 2 ^ 32
low32 (negsuc n) = 2 ^ 32 - 1 - n % 2 ^ 32

-- what the header of a page says
pub record Header : Type 0 where
  pub dbid : Bytes
  pub node_id : ℤ
  pub prev_log_term : ℤ
  pub prev_log_idx : ℕ

abbrev pub header_of : LogPage → Header
header_of p = record {
  dbid = p.dbid;
  node_id = p.node_id;
  prev_log_term = p.prev_log_term;
  prev_log_idx = p.prev_log_idx;
}

-- `pageGenerateHeader`
unfoldable pub page_header : Header → Bytes
page_header h =
    write_len star (pos 7)
    ++ (write_str raftlog_str
        ++ (write_signed (pos 1)
            ++ (write_str h.dbid
                ++ (write_signed h.node_id
                    ++ (write_signed h.prev_log_term ++ write_signed (pos h.prev_log_idx))))))

-- `generateEntryHeader`
unfoldable pub entry_header : Entry → Bytes
entry_header e =
    write_len star (pos 7)
    ++ (write_str entry_str
        ++ (write_signed e.term
            ++ (write_signed e.id
                ++ (write_unsigned e.session
                    ++ (write_signed e.type ++ write_len dollar (pos (length e.body)))))))

-- a page of this header with no entries counted yet, and with this file
abbrev pub fresh_page : Header → Bytes → LogPage
fresh_page h file = record {
  dbid = h.dbid;
  node_id = h.node_id;
  prev_log_term = h.prev_log_term;
  prev_log_idx = h.prev_log_idx;
  num_entries = 0;
  index = h.prev_log_idx;
  file = file;
  idxfile = [];
  current_crc = pos 0;
}

-- `pageReadHeader`, with the crc; a negative index is refused here
unfoldable pub read_header : Bytes → Option ((Header × ℤ) × Bytes)
read_header s = do
  (num_elements, s) ← read_len star s
  (str, s) ← read_str 64 s
  (version, s) ← read_signed (2 ^ 63) s
  (dbid, s) ← read_str 64 s
  if not (eq_ℤ num_elements (pos 7))
        || not (bytes_eq (take 7 str) raftlog_str)
        || not (eq_ℤ version (pos 1))
        || not (length dbid == 32)
      then none
      else do
        (node_id, s) ← read_signed (2 ^ 31) s
        (prev_log_term, s) ← read_signed (2 ^ 63) s
        (idx, s) ← read_signed (2 ^ 63) s
        (crc, s) ← read_signed (2 ^ 63) s
        prev_log_idx ← as_length idx
        some (
          (
            record {
              dbid = dbid;
              node_id = node_id;
              prev_log_term = prev_log_term;
              prev_log_idx = prev_log_idx;
            },
            crc,
          ),
          s,
        )

-- `pageReadEntry`, with the crc
unfoldable pub read_entry : Bytes → Option ((Entry × ℤ) × Bytes)
read_entry s = do
  (num_elements, s) ← read_len star s
  (str, s) ← read_str 64 s
  if not (eq_ℤ num_elements (pos 7)) || not (bytes_eq (take 5 str) entry_str) then none else do
    (term, s) ← read_signed (2 ^ 63) s
    (id, s) ← read_signed (2 ^ 31) s
    (session, s) ← read_unsigned s
    (type, s) ← read_signed (2 ^ 31) s
    (len, s) ← read_len dollar s
    n ← as_length len
    (body, s) ← file_read n s
    two ← file_read 2 s
    s ← is_crlf two
    (crc, s) ← read_signed (2 ^ 63) s
    some ((record { term = term; id = id; session = session; type = type; body = body }, crc), s)

-- `FileWrite`, one call for each chunk; where `faults` gives a number for a call, so many bytes of the
-- chunk reach the file and the call fails. The result says whether all have been written.
unfoldable pub append_chunks : (ℕ → Option ℕ) → ℕ → List Bytes → Bytes → Bool × Bytes
append_chunks faults i [] file = (true, file)
append_chunks faults i (chunk ∷ chunks) file = elim (faults i) [
  | some k ↦ (false, file ++ take k chunk)
  | none ↦ append_chunks faults (i + 1) chunks (file ++ chunk)
]

abbrev pub is_none : Option ℕ → Bool
is_none none = true
is_none (some k) = false

-- `pageTruncateFiles` to the sizes from before, and the assertion that it succeeds. It first flushes
-- what is in the buffer, so it may fail as the write did.
abbrev pub roll_back : Option ℕ → LogPage → Bytes → Option (Bool × LogPage)
roll_back none p text = some (false, record p { file = take (length p.file) text })
roll_back (some k) p text = none

-- `pageSeekEntry`: the offset, or 0; reading past the end of the index file fails
unfoldable pub page_seek : LogPage → ℕ → ℕ
page_seek p idx =
    if leb idx p.prev_log_idx || ltb (p.prev_log_idx + p.num_entries) idx
    then 0
    else elim (get_elem? p.idxfile (idx - p.prev_log_idx - 1)) [ none ↦ 0 | some offset ↦ offset ]

-- `pageGet`; the outer `none` is the failed assertion, the inner one NULL
unfoldable pub page_get : LogPage → ℕ → Option (Option Entry)
page_get p idx =
    let offset = page_seek p idx in
    if offset == 0
    then some none
    else elim (read_entry (drop offset p.file)) [ none ↦ none | some r ↦ some (some r.0.0) ]

pub data Outcome : Type 0 where
  rr_ok : LogPage → Outcome
  rr_error : Outcome
  aborted : Outcome

-- `crc32` is `sc_crc32` of deps/common.
module _ (crc32 : ℕ → Bytes → ℕ) where
  unfoldable pub header_crc : Header → ℤ
  header_crc h = pos (crc32 0 (page_header h))

  -- the crc of an entry, which continues that of what is before it
  unfoldable pub entry_crc : ℤ → Entry → ℤ
  entry_crc crc e = pos (crc32 (crc32 (crc32 (low32 crc) (entry_header e)) e.body) crlf)

  -- `pageWriteHeader`, and whether it returns RR_OK
  unfoldable pub page_write_header : Bool → LogPage → Bool × LogPage
  page_write_header true p = (
    true,
    record p {
      file = page_header (header_of p) ++ write_signed (header_crc (header_of p));
      idxfile = [];
      current_crc = header_crc (header_of p);
    },
  )
  page_write_header false p = (false, record p { file = []; idxfile = [] })

  -- `pageCreate`
  unfoldable pub page_create : Bool → Header → Option LogPage
  page_create written h =
      let (done, p) = page_write_header written (fresh_page h []) in if done then some p else none

  -- `pageOpen` of a file with the given bytes
  unfoldable pub page_open : Bytes → Option LogPage
  page_open file = do
    ((h, read_crc), rest) ← read_header file
    let p = fresh_page h file
    if eq_ℤ (header_crc h) read_crc then some p else none

  -- `pageAppend`; `faults` are those of its five writes, the last one to the index file, and of the
  -- truncation that takes them back. `none` is a failed assertion.
  unfoldable pub page_append : (ℕ → Option ℕ) → LogPage → Entry → Option (Bool × LogPage)
  page_append faults p e =
      let crc = entry_crc p.current_crc e in
      let (done, text) =
        append_chunks faults 0 (entry_header e ∷ e.body ∷ crlf ∷ write_signed crc ∷ []) p.file in
      if done && is_none (faults 4)
      then some (
        true,
        record p {
          file = text;
          idxfile = p.idxfile ++ length p.file ∷ [];
          current_crc = crc;
          index = p.index + 1;
          num_entries = p.num_entries + 1;
        },
      )
      else roll_back (faults 5) p text

  -- The loop of `pageLoadEntries`, with what is left of the file; `none` is the end of the fuel.
  unfoldable pub load_loop : ℕ → Bytes → LogPage → Option LogPage
  load_loop zero rest p = none
  load_loop (suc fuel) rest p =
      let offset = length p.file - length rest in
      elim (read_entry rest) [
        | none ↦ some (record p { file = take offset p.file })
        | some r ↦
            let crc = entry_crc p.current_crc r.0.0 in
            let more = load_loop fuel r.1 (record p {
              current_crc = crc;
              index = p.index + 1;
              num_entries = p.num_entries + 1;
              idxfile = p.idxfile ++ offset ∷ [];
            }) in
            if eq_ℤ crc r.0.1 then more else some (record p { file = take offset p.file })
      ]

  -- `pageLoadEntries`; `none` is RR_ERROR
  unfoldable pub page_load : LogPage → Option LogPage
  page_load p = do
    ((h, read_crc), rest) ← read_header p.file
    load_loop (length p.file + 1) rest (record p {
      dbid = h.dbid;
      node_id = h.node_id;
      prev_log_term = h.prev_log_term;
      prev_log_idx = h.prev_log_idx;
      index = h.prev_log_idx;
      num_entries = 0;
      current_crc = read_crc;
    })

  abbrev reread : LogPage → Option ((Entry × ℤ) × Bytes) → Outcome
  reread p none = aborted
  reread p (some ((e, crc), rest)) = rr_ok (record p { current_crc = crc })

  -- the new running crc, after a truncation
  unfoldable pub restore_crc : LogPage → Outcome
  restore_crc p =
      if p.num_entries == 0
      then rr_ok (record p { current_crc = header_crc (header_of p) })
      else (let offset = page_seek p p.index in
          if offset == 0 then aborted else reread p (read_entry (drop offset p.file)))

  -- `pageDelete`; `aborted` is a failed assertion, or a null entry that is read
  unfoldable pub page_delete : LogPage → ℕ → Outcome
  page_delete p from_idx =
      if leb from_idx p.prev_log_idx || ltb p.index from_idx
      then rr_error
      else (let count = p.index - from_idx + 1 in
          let offset = page_seek p from_idx in
          if offset == 0
          then rr_error
          else restore_crc (record p {
            file = take offset p.file;
            idxfile = take (from_idx - p.prev_log_idx - 1) p.idxfile;
            num_entries = p.num_entries - count;
            index = p.index - count;
          }))

  -- what `LogReset` does to the first page
  unfoldable pub page_reset : Bool → ℕ → ℤ → LogPage → Bool × LogPage
  page_reset written index term p =
      page_write_header written
        (record p { index = index; prev_log_idx = index; prev_log_term = term })

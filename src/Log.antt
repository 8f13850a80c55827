-- ===== src/Log.antt =====
-- log.c: the Raft log, which is one page, or two while a snapshot is being taken.
-- The second page's file is the first one's with the suffix ".1". `none` stands for a failed assertion
-- or a PANIC, and the Boolean for RR_OK or RR_ERROR.
pub mod Rep
pub mod Access
pub mod Append
pub mod Delete
pub mod Compaction
pub mod Recovery
pub mod Example
mod Tests
use redisraft.Prelude.{
  ℕ, zero, suc, ◌+◌, ◌-◌, ◌*◌, ◌%◌, ◌^◌, Bool, true, false, ◌&&◌, ◌||◌, not, Option, none, some,
  List, [], ◌∷◌, ◌++◌, ◌==◌, ◌>>=◌, leb, ltb, if◌then◌else◌, length, ℤ, pos, negsuc, eq_ℤ, bytes_eq,
}
use redisraft.Wire.{Bytes}
use redisraft.Page.{
  Entry, LogPage, Header, Outcome, rr_ok, rr_error, aborted, header_of, page_create, page_open,
  page_append, page_load, page_get, page_delete, page_reset,
}

-- `Log`; `page0` and `page1` are `pages`. The `fsync` counters are of 64 bits.
pub record Log : Type 0 where
  pub dbid : Bytes
  pub node_id : ℤ
  pub page0 : LogPage
  pub page1 : Option LogPage
  pub fsync_index : ℕ
  pub fsync_count : ℕ
  pub fsync_max : ℕ
  pub fsync_total : ℕ

-- `LogInit`, with the first page
abbrev pub fresh_log : LogPage → Option LogPage → Log
fresh_log p0 p1 = record {
  dbid = p0.dbid;
  node_id = p0.node_id;
  page0 = p0;
  page1 = p1;
  fsync_index = 0;
  fsync_count = 0;
  fsync_max = 0;
  fsync_total = 0;
}

-- `log->pages[1] ? log->pages[1] : log->pages[0]`
abbrev pub last_of : LogPage → Option LogPage → LogPage
last_of p0 none = p0
last_of p0 (some p1) = p1

abbrev pub last_page : Log → LogPage
last_page log = last_of log.page0 log.page1

abbrev pub set_last : Log → LogPage → Option LogPage → Log
set_last log p none = record log { page0 = p }
set_last log p (some p1) = record log { page1 = some p }

-- `LogPrevLogTerm`
unfoldable pub prev_log_term : Log → ℤ
prev_log_term log = log.page0.prev_log_term

-- `LogPrevLogIndex`
unfoldable pub prev_log_index : Log → ℕ
prev_log_index log = log.page0.prev_log_idx

-- `LogCompactionIdx`
unfoldable pub compaction_idx : Log → ℕ
compaction_idx log = log.page0.index

-- `LogFirstIdx`
unfoldable pub first_idx : Log → ℕ
first_idx log = log.page0.prev_log_idx + 1

-- `LogCurrentIdx`
unfoldable pub current_idx : Log → ℕ
current_idx log = (last_page log).index

abbrev entries_of : Option LogPage → ℕ
entries_of none = 0
entries_of (some p) = p.num_entries

abbrev file_size : Option LogPage → ℕ
file_size none = 0
file_size (some p) = length p.file

-- `LogCount`
unfoldable pub log_count : Log → ℕ
log_count log = log.page0.num_entries + entries_of log.page1

-- `LogFileSize`
unfoldable pub log_file_size : Log → ℕ
log_file_size log = length log.page0.file + file_size log.page1

abbrev has_page : Option LogPage → Bool
has_page none = false
has_page (some p) = true

-- `LogCompactionStarted`
unfoldable pub compaction_started : Log → Bool
compaction_started log = has_page log.page1

-- from the first page, where the second one gave NULL
abbrev pub get_or : LogPage → ℕ → Option (Option Entry) → Option (Option Entry)
get_or p0 idx none = none
get_or p0 idx (some none) = page_get p0 idx
get_or p0 idx (some (some ety)) = some (some ety)

abbrev pub get_from : LogPage → Option LogPage → ℕ → Option (Option Entry)
get_from p0 none idx = page_get p0 idx
get_from p0 (some p1) idx = get_or p0 idx (page_get p1 idx)

-- `LogGet`: the second page first
unfoldable pub log_get : Log → ℕ → Option (Option Entry)
log_get log idx = get_from log.page0 log.page1 idx

-- a page after `pageDelete`, which changes nothing where it returns an error
abbrev pub deleted : LogPage → Outcome → Option LogPage
deleted p (rr_ok p') = some p'
deleted p rr_error = some p
deleted p aborted = none

-- the second page, unless entries have gone from the first one
abbrev pub kept_second : ℕ → LogPage → Option LogPage
kept_second index p1 = if not (index == p1.prev_log_idx) then none else some p1

-- what `LogSync` does to the counters, after a `pageSync` of `took` microseconds
unfoldable pub log_sync : Bool → ℕ → Log → Option Log
log_sync synced took log =
    if synced
    then some (record log {
      fsync_index = current_idx log;
      fsync_count = (log.fsync_count + 1) % 2 ^ 64;
      fsync_total = (log.fsync_total + took) % 2 ^ 64;
      fsync_max = if ltb log.fsync_max took then took else log.fsync_max;
    })
    else none

-- `LogCompactionEnd`: the second page takes the place, and the names, of the first one
unfoldable pub compaction_end : Log → Option Log
compaction_end log = do p1 ← log.page1; some (record log { page0 = p1; page1 = none })

-- the second page, behind the entry `e` at index `idx`
abbrev pub next_header : LogPage → Entry → ℕ → Header
next_header p e idx = record {
  dbid = p.dbid;
  node_id = p.node_id;
  prev_log_term = e.term;
  prev_log_idx = idx;
}

abbrev pub with_second : Log → Option LogPage → Bool × Log
with_second log none = (false, log)
with_second log (some p1) = (true, record log { page1 = some p1 })

module _ (crc32 : ℕ → Bytes → ℕ) where
  -- `LogCreate`; `none` is RR_ERROR, or the assertion on the length of the id
  unfoldable pub log_create : Bool → Header → Option Log
  log_create written h =
      if not (length h.dbid == 32)
      then none
      else do p0 ← page_create crc32 written h; some (fresh_log p0 none)

  -- the pages of a log; `none` is the PANIC for pages that do not match
  abbrev pub open_second : LogPage → Option Bytes → Option Log
  open_second p0 none = some (fresh_log p0 none)
  open_second p0 (some file) = do
    p1 ← page_open crc32 file
    if not (eq_ℤ p0.node_id p1.node_id) || not (bytes_eq p0.dbid p1.dbid)
        then none
        else some (fresh_log p0 (some p1))

  -- `LogOpen` of the two files, of which the second need not exist; `none` is RR_ERROR, or that PANIC
  unfoldable pub log_open : Bytes → Option Bytes → Option Log
  log_open file0 file1 = do p0 ← page_open crc32 file0; open_second p0 file1

  -- the second page, unless it is empty or there is a gap before it
  abbrev pub second_if_subsequent : ℕ → LogPage → Option LogPage
  second_if_subsequent index p1 =
      if p1.num_entries == 0 || not (p1.prev_log_idx == index) then none else some p1

  abbrev pub load_second : Log → Option LogPage → Option Log
  load_second log none = some log
  load_second log (some second) = do
    p1 ← page_load crc32 second
    some (record log { page1 = second_if_subsequent log.page0.index p1 })

  -- `LogLoadEntries`; `none` is RR_ERROR
  unfoldable pub log_load : Log → Option Log
  log_load log = do
    p0 ← page_load crc32 log.page0
    load_second (record log { page0 = p0 }) log.page1

  -- `LogAppend`, with the faults of the page's calls
  unfoldable pub log_append : (ℕ → Option ℕ) → Log → Entry → Option (Bool × Log)
  log_append faults log e = do
    (done, p) ← page_append crc32 faults (last_page log) e
    some (done, set_last log p log.page1)

  abbrev pub delete_second : Log → ℕ → Option LogPage → Option (Bool × Log)
  delete_second log from_idx none = some (true, log)
  delete_second log from_idx (some second) = do
    p1 ← deleted second (page_delete crc32 second from_idx)
    some (true, record log { page1 = kept_second log.page0.index p1 })

  -- `LogDelete`
  unfoldable pub log_delete : Log → ℕ → Option (Bool × Log)
  log_delete log from_idx =
      if log_count log == 0 || ltb from_idx (first_idx log) || ltb (current_idx log) from_idx
      then some (false, log)
      else do
        p0 ← deleted log.page0 (page_delete crc32 log.page0 from_idx)
        delete_second (record log { page0 = p0 }) from_idx log.page1

  -- `LogReset`; `written` says whether the header could be written
  unfoldable pub log_reset : Bool → ℕ → ℤ → Log → Bool × Log
  log_reset written index term log =
      let (done, p0) = page_reset crc32 written index term log.page0 in
      (done, record log { page0 = p0; page1 = none })

  abbrev pub begin_second : Bool → Bool → Log → Option LogPage → Option (Bool × Log)
  begin_second synced written log (some p1) = some (true, log)
  begin_second synced written log none =
      if leb log.page0.num_entries 1 then some (false, log) else do
        ety ← page_get log.page0 log.page0.index
        e ← ety
        if synced
            then some (
                with_second log
                  (page_create crc32 written (next_header log.page0 e log.page0.index)))
            else none

  -- `LogCompactionBegin`; `synced` and `written` say whether the first page could be synced, and the header
  -- of the second one written. Reading the term of a null entry is a fault.
  unfoldable pub compaction_begin : Bool → Bool → Log → Option (Bool × Log)
  compaction_begin synced written log = begin_second synced written log log.page1

-- ===== src/Startup/Tests.antt =====
-- A log that begins behind a snapshot, with one entry between them missing.
use redisraft.Prelude.{◌<◌, ◌≡◌, refl, ap, true, false, none, some, [], arith, lt_ℤ, pos}
use redisraft.EntryCache.{new}
use redisraft.Metadata.{Metadata}
use redisraft.Page.{LogPage, fresh_page, header_of, page_load}
use redisraft.Page.Rep.{IsPage}
use redisraft.Page.Crash.{page_load-whole}
use redisraft.Log.{Log, fresh_log, log_load, prev_log_term, prev_log_index, current_idx, first_idx}
use redisraft.Log.Example.{
  counted, counted_small, header_at, header_at-IsHeader, page_of, page_of-IsPage, two,
  two-AllEntries,
}
use redisraft.LogImpl.{Ctx}
use redisraft.Snapshot.{SnapshotInfo}
use redisraft.Startup.{ltb_ℤ, started, load_raft_log}
use redisraft.Startup.Check.{Matches, load_raft_log-started, load_raft_log-gap}

abbrev page : LogPage
page = page_of (header_at 5) two

page-IsPage : IsPage counted page two
page-IsPage = page_of-IsPage (header_at 5) two (header_at-IsHeader 5 (omega arith)) two-AllEntries

-- the page before and after its entries are loaded
abbrev opened : LogPage
opened = fresh_page (header_of page) page.file

abbrev loaded_page : LogPage
loaded_page = (page_load-whole counted counted_small page two page-IsPage).0

abbrev ctx : Ctx
ctx = record { logcache = new 512; log = fresh_log opened none }

abbrev loaded : Log
loaded = record (fresh_log opened none) { page0 = loaded_page }

page_loads : page_load counted opened ≡ some loaded_page
page_loads = (page_load-whole counted counted_small page two page-IsPage).2

same_header : header_of loaded_page ≡ header_of page
same_header = (page_load-whole counted counted_small page two page-IsPage).3

loaded_page-IsPage : IsPage counted loaded_page two
loaded_page-IsPage = (page_load-whole counted counted_small page two page-IsPage).4

loads : log_load counted ctx.log ≡ some loaded
unfolding log_load
loads = rw page_loads refl

abbrev meta : Metadata
meta = record { dbid = page.dbid; node_id = pos 1; term = pos 3; vote = pos 1 }

-- the snapshot goes to entry 4, and the log begins at entry 6
abbrev info : SnapshotInfo
info = record {
  loaded = true;
  dbid = page.dbid;
  last_applied_term = pos 2;
  last_applied_idx = pos 4;
  cfg = [];
  used_node_ids = [];
}

prev_term : loaded_page.prev_log_term ≡ pos 2
prev_term = ap (λ h. h.prev_log_term) same_header

prev_idx : loaded_page.prev_log_idx ≡ 5
prev_idx = ap (λ h. h.prev_log_idx) same_header

term_checks : ltb_ℤ info.last_applied_term (prev_log_term loaded) ≡ false
unfolding prev_log_term
term_checks = rw prev_term refl

index_gap : prev_log_index loaded ≡ 5
unfolding prev_log_index
index_gap = prev_idx

is_ahead : 4 < current_idx loaded
unfolding current_idx
is_ahead = omega (arith, loaded_page-IsPage.last, prev_idx)

load_raft_log-gap_example :
    (load_raft_log 8 counted true meta info ctx
      ≡ started (record info { dbid = meta.dbid }) (record ctx { log = loaded }))
    × (first_idx loaded ≡ 6)
load_raft_log-gap_example =
    load_raft_log-gap counted 8 true meta info ctx loaded 4 loads refl refl refl refl term_checks
      index_gap is_ahead

starts :
    load_raft_log 8 counted true meta info ctx
    ≡ started (record info { dbid = meta.dbid }) (record ctx { log = loaded })
starts =
    (load_raft_log-gap counted 8 true meta info ctx loaded 4 loads refl refl refl refl term_checks
      index_gap is_ahead).0

load_raft_log-started_example :
    (log : Log) × (log_load counted ctx.log ≡ some log)
    × Matches meta info log
    × (lt_ℤ (current_idx loaded) (pos 4) ≡ false)
    × (record info { dbid = meta.dbid } ≡ record info { dbid = meta.dbid })
load_raft_log-started_example =
    load_raft_log-started counted 8 true meta info (record info { dbid = meta.dbid }) ctx
      (record ctx { log = loaded }) starts

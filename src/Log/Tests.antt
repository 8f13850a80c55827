-- ===== src/Log/Tests.antt =====
-- The operations of the log, on the examples.
use redisraft.Prelude.{
  ℕ, suc, ◌-◌, ◌≤◌, ◌<◌, ◌≡◌, true, false, some, [], ◌++◌, ◌>>=◌, take, drop, arith, ◌⊎◌, pos,
}
use redisraft.Wire.{digits}
use redisraft.Multibulk.{write_len, write_str, write_signed, print_ℤ}
use redisraft.Page.{page_header, header_crc}
use redisraft.Page.Spec.{header_text, entries_text}
use redisraft.Page.Crash.{size_with}
use redisraft.Page.{LogPage, page_delete, page_append, page_reset, aborted}
use redisraft.Page.Reset.{no_faults, page_delete-page_reset}
use redisraft.Log.{Log, log_open, log_load, compaction_begin, compaction_started, prev_log_index}
use redisraft.Log.Rep.{IsLog}
use redisraft.Log.Compaction.{compaction_begin_refines}
use redisraft.Log.Recovery.{log_load-take, crashed, earlier}
use redisraft.Log.Example.{
  counted, counted_small, header_at, header_at-IsHeader, entry, page_of, page_of-IsPage, two,
  two-AllEntries, one_page, one_page-IsLog, two_pages, two_pages-IsLog,
}

compaction_begin_refines_example :
    ((log' : Log) × (compaction_begin counted true true one_page ≡ some (true, log'))
      × (compaction_started log' ≡ true)
      × (prev_log_index log' ≡ prev_log_index one_page)
      × IsLog counted log' two)
    ⊎ ((compaction_begin counted true true one_page ≡ some (false, one_page))
        × (compaction_started one_page ≡ false)
        × (2 ≤ 1))
compaction_begin_refines_example =
    compaction_begin_refines counted counted_small one_page two one_page-IsLog (omega arith)

enough_left : size_with counted counted_small (header_at 7) [] ≤ 200
unfolding header_text entries_text header_crc page_header write_len write_str write_signed print_ℤ
    digits
enough_left = omega arith

-- the second entry of the second page is lost
log_load-take_example :
    let files = crashed one_page.page0 two_pages.page1 200 in
    (log' : Log) × (k : ℕ) × ((log_open counted files.0 files.1 >>= log_load counted) ≡ some log')
    × (prev_log_index log' ≡ prev_log_index two_pages)
    × IsLog counted log' (take k (two ++ two))
    × (earlier two_pages ≤ k)
    × ((k ≡ 4)
        ⊎ (200
            < size_with counted counted_small
                (header_at 7)
                (take (suc k - earlier two_pages) (drop (earlier two_pages) (two ++ two)))))
log_load-take_example =
    log_load-take counted counted_small two_pages (two ++ two) 200 two_pages-IsLog enough_left

page_delete-page_reset_example :
    let p = page_of (header_at 5) two in
    (q' : LogPage) × (page_append counted no_faults
        (page_reset counted true 9 (pos 3) p).1
        (entry 68)
      ≡ some (true, q'))
    × (page_delete counted q' 10 ≡ aborted)
page_delete-page_reset_example =
    page_delete-page_reset counted (page_of (header_at 5) two) two 9 (pos 3) (entry 68)
      (page_of-IsPage (header_at 5) two (header_at-IsHeader 5 (omega arith)) two-AllEntries)
      (omega arith)

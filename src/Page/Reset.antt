-- ===== src/Page/Reset.antt =====
-- What `LogReset` leaves of the first page.
use redisraft.Prelude.{
  ℕ, ◌+◌, ◌-◌, ◌<◌, ◌≡◌, refl, true, false, Option, none, List, [], ◌∷◌, ◌++◌, ◌==◌, leb, ltb,
  length, arith, ℤ, length-append,
}
use redisraft.Wire.{Bytes}
use redisraft.Page.{
  some, write_signed, Entry, LogPage, aborted, header_of, page_header, header_crc, page_reset,
  page_write_header, page_append, page_delete, page_seek, restore_crc, append_chunks,
}
use redisraft.Page.Seek.{header_pos}
use redisraft.Page.Rep.{IsPage}

abbrev pub no_faults : ℕ → Option ℕ
no_faults i = none

module _ (crc32 : ℕ → Bytes → ℕ) where
  -- a page with one entry whose counter says more
  page_delete_stale :
      (q : LogPage) (offset : ℕ)
      → q.index ≡ q.prev_log_idx + 1
      → 1 < q.num_entries
      → q.idxfile ≡ offset ∷ []
      → 0 < offset
      → page_delete crc32 q (q.prev_log_idx + 1) ≡ aborted
  unfolding page_delete page_seek restore_crc
  page_delete_stale q offset last many cells positive =
      let low : leb (q.prev_log_idx + 1) q.prev_log_idx ≡ false = ground arith in
      let high : ltb q.index (q.prev_log_idx + 1) ≡ false = ground (arith, last) in
      let inside : ltb (q.prev_log_idx + q.num_entries) (q.prev_log_idx + 1) ≡ false =
        ground (arith, many) in
      let first : q.prev_log_idx + 1 - q.prev_log_idx - 1 ≡ 0 = omega arith in
      let found : (offset == 0) ≡ false = ground (arith, positive) in
      let left : (q.num_entries - (q.index - (q.prev_log_idx + 1) + 1) == 0) ≡ false =
        ground (arith, many, last) in
      let back : leb (q.index - (q.index - (q.prev_log_idx + 1) + 1)) q.prev_log_idx ≡ true =
        ground (arith, last) in
      rw (low, high, inside, first, cells, found, left, back) refl

  -- Where a page that holds entries is reset to an index, an entry is appended to it, with no fault, and is deleted
  -- again, `pageDelete` fails an assertion: the number of entries still counts those from before.
  pub page_delete-page_reset :
      (p : LogPage) (es : List Entry) (index : ℕ) (term : ℤ) (e : Entry)
      → IsPage crc32 p es
      → 0 < length es
      → let q = (page_reset crc32 true index term p).1 in
        (q' : LogPage) × (page_append crc32 no_faults q e ≡ some (true, q'))
        × (page_delete crc32 q' (index + 1) ≡ aborted)
  unfolding page_append page_reset page_write_header append_chunks
  page_delete-page_reset p es index term e r some_left =
      let h = record (header_of p) { prev_log_idx = index; prev_log_term = term } in
      let many : 1 < p.num_entries + 1 = omega (arith, r.count) in
      let positive : 0 < length (page_header h ++ write_signed (header_crc crc32 h)) =
        omega (
          arith,
          header_pos h,
          length-append (page_header h) (write_signed (header_crc crc32 h)),
        ) in
      (_, refl, page_delete_stale _ _ refl many refl positive)

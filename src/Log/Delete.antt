-- ===== src/Log/Delete.antt =====
-- `LogDelete` takes entries from the end of the log, and the second page when that leaves a gap.
use redisraft.Prelude.{
  ℕ, ◌+◌, ◌-◌, ◌^◌, ◌≤◌, ◌<◌, ◌≡◌, refl, sym, ap, ◌∙◌, Bool, true, false, ◌||◌, Option, none, some,
  List, [], ◌++◌, ◌==◌, ◌>>=◌, ltb, length, take, arith, Bool-cases, inl, inr, append-nil,
  length-append, ◌⊎◌, take-append_of_le, take-append_beyond, length-take_of_le,
}
use mathlib.Core.Path.{subst}
use redisraft.Wire.{Bytes}
use redisraft.Page.{Entry, LogPage, page_delete, header_of, rr_ok, rr_error}
use redisraft.Page.Rep.{IsPage}
use redisraft.Page.Delete.{page_delete_refines}
use redisraft.Log.{
  Log, log_delete, prev_log_index, log_count, first_idx, current_idx, deleted, delete_second,
}
use redisraft.Log.Rep.{IsLog, IsSplit, IsSplit-cases, same_header-Follows, log_count_refines}

module _ (crc32 : ℕ → Bytes → ℕ) (crc_small : (c : ℕ) (s : Bytes) → crc32 c s < 2 ^ 32) where
  -- what `LogDelete` does behind its guard
  abbrev delete_pages : Log → ℕ → Option (Bool × Log)
  delete_pages log from_idx = do
    p0 ← deleted log.page0 (page_delete crc32 log.page0 from_idx)
    delete_second crc32 (record log { page0 = p0 }) from_idx log.page1

  -- a log with the entries before `from_idx`
  abbrev Shortened : Log → List Entry → ℕ → Type 0
  Shortened log es from_idx =
      (log' : Log) × (delete_pages log from_idx ≡ some (true, log'))
      × (prev_log_index log' ≡ prev_log_index log)
      × IsLog crc32 log' (take (from_idx - prev_log_index log - 1) es)

  -- The index lies on the first page; a second page goes.
  delete_pages-first :
      (log : Log) (xs ys : List Entry) (from_idx : ℕ) (p0 : LogPage)
      → IsSplit crc32 log xs ys
      → page_delete crc32 log.page0 from_idx ≡ rr_ok p0
      → log.page0.prev_log_idx < from_idx
      → from_idx ≤ log.page0.prev_log_idx + length xs
      → header_of p0 ≡ header_of log.page0
      → IsPage crc32 p0 (take (from_idx - log.page0.prev_log_idx - 1) xs)
      → Shortened log (xs ++ ys) from_idx
  unfolding prev_log_index
  delete_pages-first log xs ys from_idx p0 r runs low high same held =
      let i = from_idx - log.page0.prev_log_idx - 1 in
      let prev : p0.prev_log_idx ≡ log.page0.prev_log_idx = ap (λ h. h.prev_log_idx) same in
      let front : take i (xs ++ ys) ≡ take i xs ++ [] =
        take-append_of_le xs ys i (omega (arith, low, high)) ∙ sym (append-nil _) in
      let left : p0.index ≡ from_idx - 1 =
        omega
          (arith, held.last, prev, low, high, length-take_of_le xs i (omega (arith, low, high))) in
      elim (IsSplit-cases crc32 log xs ys r) [
        | inl (none_there, empty) ↦ (
          record log { page0 = p0 },
          rw (none_there, runs) refl,
          prev,
          (take i xs, [], front, record { first = held; second = rw none_there refl }),
        )
        | inr (p1, there, more, after) ↦
            let gap : (p0.index == p1.prev_log_idx) ≡ false =
              ground (arith, left, after.subsequent, r.first.last, low, high) in
            elim (page_delete_refines crc32 crc_small p1 ys from_idx more) [
              | inl (p, done, behind, within, same_header, fewer) ↦
                  absurd (omega (arith, behind, after.subsequent, r.first.last, high))
              | inr (error, outside) ↦ (
                record log { page0 = p0; page1 = none },
                rw (there, runs, error, gap) refl,
                prev,
                (take i xs, [], front, record { first = held; second = refl }),
              )
            ]
      ]

  -- The index lies on the second page; the first one stays as it is.
  delete_pages-second :
      (log : Log) (xs ys : List Entry) (from_idx : ℕ)
      → IsSplit crc32 log xs ys
      → page_delete crc32 log.page0 from_idx ≡ rr_error
      → log.page0.prev_log_idx + length xs < from_idx
      → from_idx ≤ log.page0.prev_log_idx + length (xs ++ ys)
      → Shortened log (xs ++ ys) from_idx
  unfolding prev_log_index
  delete_pages-second log xs ys from_idx r error low high =
      let size = length-append xs ys in
      elim (IsSplit-cases crc32 log xs ys r) [
        | inl (none_there, empty) ↦ absurd (omega (arith, ap length empty, size, low, high))
        | inr (p1, there, more, after) ↦
            elim (page_delete_refines crc32 crc_small p1 ys from_idx more) [
              | inr (refused, outside) ↦
                  absurd (ground (arith, outside, after.subsequent, r.first.last, low, high, size))
              | inl (p, runs, behind, within, same, held) ↦
                  let next : (log.page0.index == p.prev_log_idx) ≡ true =
                    ground (arith, ap (λ h. h.prev_log_idx) same, after.subsequent) in
                  let i = from_idx - log.page0.prev_log_idx - 1 in
                  let k : i - length xs ≡ from_idx - p1.prev_log_idx - 1 =
                    omega (arith, after.subsequent, r.first.last) in
                  (
                    record log { page1 = some p },
                    rw (there, error, runs, next) refl,
                    refl,
                    (
                      xs,
                      take (from_idx - p1.prev_log_idx - 1) ys,
                      take-append_beyond xs ys i (omega (arith, low)) ∙ ap (λ k. xs ++ take k ys) k,
                      record {
                        first = r.first;
                        second = (held, same_header-Follows log.page0 p1 p same after);
                      },
                    ),
                  )
            ]
      ]

  delete_pages-IsLog :
      (log : Log) (xs ys : List Entry) (from_idx : ℕ)
      → IsSplit crc32 log xs ys
      → prev_log_index log < from_idx
      → from_idx ≤ prev_log_index log + length (xs ++ ys)
      → Shortened log (xs ++ ys) from_idx
  unfolding prev_log_index
  delete_pages-IsLog log xs ys from_idx r low high =
      elim (page_delete_refines crc32 crc_small log.page0 xs from_idx r.first) [
        | inl (p0, runs, behind, within, same, held) ↦
            delete_pages-first log xs ys from_idx p0 r runs behind within same held
        | inr (error, outside) ↦
            delete_pages-second log xs ys from_idx r error (ground (arith, outside, low)) high
      ]

  -- On a log that holds entries, `LogDelete` from a log index on fails no assertion. For the index of an entry, on either
  -- page, it succeeds and leaves the entries before that one; for any other index it returns an error and the log
  -- is as it was.
  pub log_delete_refines :
      (log : Log) (es : List Entry) (from_idx : ℕ)
      → IsLog crc32 log es
      → ((log' : Log) × (log_delete crc32 log from_idx ≡ some (true, log'))
          × (prev_log_index log < from_idx)
          × (from_idx ≤ prev_log_index log + length es)
          × (prev_log_index log' ≡ prev_log_index log)
          × IsLog crc32 log' (take (from_idx - prev_log_index log - 1) es))
        ⊎ ((log_delete crc32 log from_idx ≡ some (false, log))
            × ((from_idx ≤ prev_log_index log) ⊎ (prev_log_index log + length es < from_idx)))
  unfolding log_delete
  log_delete_refines log es from_idx (xs, ys, split, r) =
      let (num, first, last) = log_count_refines crc32 log es (xs, ys, split, r) in
      let guard =
        log_count log == 0 || ltb from_idx (first_idx log) || ltb (current_idx log) from_idx in
      elim (Bool-cases guard) [
        | inl outside ↦ inr (rw outside refl, ground (arith, outside, num, first, last))
        | inr inside ↦
            let low : prev_log_index log < from_idx = ground (arith, inside, first) in
            let high : from_idx ≤ prev_log_index log + length es = ground (arith, inside, last) in
            let (log', runs, same, held) =
              delete_pages-IsLog log xs ys from_idx r low
                (subst (λ l. from_idx ≤ prev_log_index log + length l) split high) in
            inl (
              log',
              rw inside runs,
              low,
              high,
              same,
              subst (λ l. IsLog crc32 log' (take (from_idx - prev_log_index log - 1) l)) (sym split)
                  held,
            )
      ]

-- ===== src/Log/Recovery.antt =====
-- The log after a crash.

use redisraft.Prelude.{
  ℕ, suc, ◌+◌, ◌-◌, ◌^◌, ◌≤◌, ◌<◌, ◌≡◌, refl, sym, ap, ◌∙◌, true, Option, none, some, List, [], ◌∷◌,
  ◌++◌, ◌==◌, ◌>>=◌, length, take, drop, arith, Bool-cases, inl, inr, append-nil, length-append,
  ◌⊎◌, take-append_beyond,
}
use mathlib.Core.Path.{subst}
use redisraft.Wire.{Bytes}
use redisraft.Prelude.{bytes_eq, bytes_eq_refl, eq_ℤ, drop-append}
use redisraft.Page.{Entry, LogPage, header_of, fresh_page}
use redisraft.Page.Rep.{IsPage}
use redisraft.Page.Load.{eq_ℤ-refl}
use redisraft.Page.Crash.{page_load-take, page_open-take, page_load-whole, size_with}
use redisraft.Log.{
  second_if_subsequent, Log, log_open, log_load, prev_log_index, last_page, fresh_log,
}
use redisraft.Log.Rep.{SecondHolds, IsLog, IsSplit-cases, Follows}

-- the two files when only `n` bytes of the last one are left
abbrev pub crashed : LogPage → Option LogPage → ℕ → Bytes × Option Bytes
crashed p0 none n = (take n p0.file, none)
crashed p0 (some p1) n = (p0.file, some (take n p1.file))

-- how many entries are on a page before the last one
abbrev pub earlier : Log → ℕ
earlier log = (last_page log).prev_log_idx - prev_log_index log

module _ (crc32 : ℕ → Bytes → ℕ) (crc_small : (c : ℕ) (s : Bytes) → crc32 c s < 2 ^ 32) where
  abbrev Recovered : Log → List Entry → ℕ → Type 0
  Recovered log es n =
      let files = crashed log.page0 log.page1 n in
      (log' : Log) × (k : ℕ) × ((log_open crc32 files.0 files.1 >>= log_load crc32) ≡ some log')
      × (prev_log_index log' ≡ prev_log_index log)
      × IsLog crc32 log' (take k es)
      × (earlier log ≤ k)
      × ((k ≡ length es)
          ⊎ (n
              < size_with crc32 crc_small (header_of (last_page log))
                  (take (suc k - earlier log) (drop (earlier log) es))))

  one_page :
      (log : Log) (es : List Entry) (n : ℕ)
      → log.page1 ≡ none
      → IsPage crc32 log.page0 es
      → size_with crc32 crc_small (header_of log.page0) [] ≤ n
      → Recovered log es n
  unfolding log_open log_load prev_log_index
  one_page log es n none_there r h =
      let (p, k, runs, same, held, low, high) = page_load-take crc32 crc_small log.page0 es n r h in
      let opens = page_open-take crc32 crc_small log.page0 es n r h in
      let unchanged : suc k - 0 ≡ suc k = omega arith in
      let none_before : log.page0.prev_log_idx - log.page0.prev_log_idx ≡ 0 = omega arith in
      (
        record (fresh_log (fresh_page (header_of log.page0) (take n log.page0.file)) none) {
          page0 = p;
        },
        k,
        rw (none_there, opens, (rw opens at runs)) refl,
        ap (λ h. h.prev_log_idx) same,
        (take k es, [], sym (append-nil _), record { first = held; second = refl }),
        rw none_there (omega arith),
        rw (none_there, none_before, unchanged) high,
      )

  empty_of_length : (zs : List Entry) (k : ℕ) → k ≡ length zs → (k == 0) ≡ true → zs ≡ []
  empty_of_length [] k e h = refl
  empty_of_length (z ∷ zs) k e h = absurd (ground (arith, e, h))

  -- a second page that holds entries is kept, and one that holds none is no loss
  second-SecondHolds :
      (p0 p1 : LogPage) (zs : List Entry)
      → IsPage crc32 p1 zs
      → Follows p0 p1
      → SecondHolds crc32 p0 (second_if_subsequent crc32 p0.index p1) zs
  second-SecondHolds p0 p1 zs r after =
      let next : (p1.prev_log_idx == p0.index) ≡ true = ground (arith, after.subsequent) in
      elim (Bool-cases (p1.num_entries == 0)) [
        | inl none_left ↦ rw none_left (empty_of_length zs p1.num_entries r.count none_left)
        | inr some_left ↦ rw (some_left, next) (r, after)
      ]

  two_pages :
      (log : Log) (xs ys : List Entry) (n : ℕ) (p1 : LogPage)
      → log.page1 ≡ some p1
      → IsPage crc32 log.page0 xs
      → IsPage crc32 p1 ys
      → Follows log.page0 p1
      → size_with crc32 crc_small (header_of p1) [] ≤ n
      → Recovered log (xs ++ ys) n
  unfolding log_open log_load prev_log_index
  two_pages log xs ys n p1 there r held after h =
      let (q0, opens0, loads0, same0, held0) = page_load-whole crc32 crc_small log.page0 xs r in
      let (q1, k, runs1, same1, held1, low, high) = page_load-take crc32 crc_small p1 ys n held h in
      let opens1 = page_open-take crc32 crc_small p1 ys n held h in
      let node : eq_ℤ log.page0.node_id p1.node_id ≡ true =
        rw after.same_node (eq_ℤ-refl log.page0.node_id) in
      let id : bytes_eq log.page0.dbid p1.dbid ≡ true =
        rw after.same_dbid (bytes_eq_refl log.page0.dbid) in
      let before : p1.prev_log_idx - log.page0.prev_log_idx ≡ length xs =
        omega (arith, after.subsequent, r.last) in
      let next : suc (length xs + k) - length xs ≡ suc k = omega arith in
      let more : length xs + k - length xs ≡ k = omega arith in
      let still : Follows q0 q1 = record {
        subsequent = omega (
          arith,
          ap (λ h. h.prev_log_idx) same1,
          ap (λ h. h.prev_log_idx) same0,
          after.subsequent,
          held0.last,
          r.last,
        );
        same_dbid = ap (λ h. h.dbid) same1 ∙ after.same_dbid ∙ sym (ap (λ h. h.dbid) same0);
        same_node = ap (λ h. h.node_id) same1 ∙ after.same_node ∙ sym (ap (λ h. h.node_id) same0);
      } in
      (
        record (fresh_log (fresh_page (header_of log.page0) log.page0.file) none) {
          page0 = q0;
          page1 = second_if_subsequent crc32 q0.index q1;
        },
        length xs + k,
        rw (there, opens0, opens1, node, id, loads0, (rw opens1 at runs1)) refl,
        ap (λ h. h.prev_log_idx) same0,
        (
          xs,
          take k ys,
          take-append_beyond xs ys (length xs + k) (omega arith) ∙ ap (λ j. xs ++ take j ys) more,
          record { first = held0; second = second-SecondHolds q0 q1 (take k ys) held1 still },
        ),
        rw there (omega (arith, before)),
        rw (there, before, next, drop-append xs ys)
            (elim high [
              | inl all ↦ inl (omega (arith, all, length-append xs ys))
              | inr stops ↦ inr stops
            ]),
      )

  -- Where a crash leaves the first `n` bytes of the last page's file, its whole header among them, `LogOpen` and
  -- `LogLoadEntries` succeed. The log then begins at the same index and holds the first entries of what it held: all
  -- those of an earlier page, and those of the last page that lie within the `n` bytes.
  pub log_load-take :
      (log : Log) (es : List Entry) (n : ℕ)
      → IsLog crc32 log es
      → size_with crc32 crc_small (header_of (last_page log)) [] ≤ n
      → let files = crashed log.page0 log.page1 n in
        (log' : Log) × (k : ℕ) × ((log_open crc32 files.0 files.1 >>= log_load crc32) ≡ some log')
        × (prev_log_index log' ≡ prev_log_index log)
        × IsLog crc32 log' (take k es)
        × (earlier log ≤ k)
        × ((k ≡ length es)
            ⊎ (n
                < size_with crc32 crc_small
                    (header_of (last_page log))
                    (take (suc k - earlier log) (drop (earlier log) es))))
  unfolding log_open log_load prev_log_index
  log_load-take log es n (xs, ys, split, r) h = elim (IsSplit-cases crc32 log xs ys r) [
    | inl (none_there, empty) ↦
        one_page log es n none_there
          (subst (IsPage crc32 log.page0) (sym (split ∙ ap (λ t. xs ++ t) empty ∙ append-nil xs))
            r.first)
          (rw none_there at h)
    | inr (p1, there, held, after) ↦
        subst (λ l. Recovered log l n) (sym split)
          (two_pages log xs ys n p1 there r.first held after (rw there at h))
  ]

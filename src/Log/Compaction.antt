-- ===== src/Log/Compaction.antt =====
-- Compaction: a second page is begun behind the first one, and later takes its place.
use redisraft.Prelude.{
  drop-append, ℕ, ◌+◌, ◌-◌, ◌^◌, ◌≤◌, ◌<◌, ◌≡◌, refl, sym, ap, ◌∙◌, true, false, none, some, List,
  [], ◌∷◌, ◌++◌, leb, length, drop, arith, Bool-cases, inl, inr, append-nil, length-append, ◌⊎◌,
}
use mathlib.Core.Path.{subst}
use redisraft.Wire.{Bytes}
use redisraft.Prelude.{get_elem?-lt, split_around}
use redisraft.Page.{Entry, LogPage, page_get, header_of}
use redisraft.Page.Text.{IsHeader, IsEntry}
use redisraft.Page.Seek.{entry_at, page_get_refines}
use redisraft.Page.Rep.{IsPage, AllEntries, AllEntries-back, page_create-IsPage}
use redisraft.Log.{
  Log, compaction_begin, compaction_end, compaction_started, compaction_idx, prev_log_index,
  next_header,
}
use redisraft.Log.Rep.{IsLog, IsSplit-cases}

module _ (crc32 : ℕ → Bytes → ℕ) (crc_small : (c : ℕ) (s : Bytes) → crc32 c s < 2 ^ 32) where
  -- the last entry of a page
  last_entry :
      (p : LogPage) (xs : List Entry)
      → IsPage crc32 p xs
      → 0 < length xs
      → (e : Entry) × (page_get p p.index ≡ some (some e)) × IsEntry e
  unfolding entry_at
  last_entry p xs r some_left =
      let (e, at_last) = get_elem?-lt xs (length xs - 1) (omega (arith, some_left)) in
      let (front, back, split, n) = split_around xs (length xs - 1) e at_last in
      let proper : IsEntry e =
        (AllEntries-back front (e ∷ back) (subst AllEntries split r.entries)).0 in
      let inside : leb p.index p.prev_log_idx ≡ false = ground (arith, r.last, some_left) in
      let i : p.index - p.prev_log_idx - 1 ≡ length xs - 1 = omega (arith, r.last) in
      (
        e,
        page_get_refines crc32 crc_small p xs p.index r ∙ ap some (rw (inside, i) at_last),
        proper,
      )

  next_header-IsHeader :
      (p : LogPage) (e : Entry)
      → IsHeader (header_of p)
      → IsEntry e
      → p.index < 2 ^ 63
      → IsHeader (next_header p e p.index)
  next_header-IsHeader p e h k small = record {
    dbid_length = h.dbid_length;
    dbid_string = h.dbid_string;
    node_fits = h.node_fits;
    term_fits = k.term_fits;
    idx_fits = small;
  }

  -- a log with a second page, and the same entries
  abbrev Begun : Log → List Entry → Type 0
  Begun log es =
      (log' : Log) × (compaction_begin crc32 true true log ≡ some (true, log'))
      × (compaction_started log' ≡ true)
      × (prev_log_index log' ≡ prev_log_index log)
      × IsLog crc32 log' es

  new_page-IsLog :
      (log : Log) (es : List Entry)
      → log.page1 ≡ none
      → IsPage crc32 log.page0 es
      → 1 < length es
      → log.page0.index < 2 ^ 63
      → Begun log es
  unfolding compaction_begin prev_log_index compaction_started
  new_page-IsLog log es none_there r many small =
      let (e, gets, proper) = last_entry log.page0 es r (omega (arith, many)) in
      let (p1, creates, same, held) =
        page_create-IsPage crc32 (next_header log.page0 e log.page0.index)
          (next_header-IsHeader log.page0 e r.header proper small) in
      let enough : leb log.page0.num_entries 1 ≡ false = ground (arith, many, r.count) in
      (
        record log { page1 = some p1 },
        rw (none_there, enough, gets, creates) refl,
        refl,
        refl,
        (
          es,
          [],
          sym (append-nil es),
          record {
            first = r;
            second = (
              held,
              record {
                subsequent = ap (λ h. h.prev_log_idx) same;
                same_dbid = ap (λ h. h.dbid) same;
                same_node = ap (λ h. h.node_id) same;
              },
            );
          },
        ),
      )

  -- On a log that holds entries, with the last index below 2^63, `LogCompactionBegin` fails no assertion where the
  -- page is synced and the new header written. It succeeds, and the log holds the same entries and has a second page;
  -- or there are at most one entry and no second page, and it returns an error and changes nothing.
  pub compaction_begin_refines :
      (log : Log) (es : List Entry)
      → IsLog crc32 log es
      → log.page0.index < 2 ^ 63
      → ((log' : Log) × (compaction_begin crc32 true true log ≡ some (true, log'))
          × (compaction_started log' ≡ true)
          × (prev_log_index log' ≡ prev_log_index log)
          × IsLog crc32 log' es)
        ⊎ ((compaction_begin crc32 true true log ≡ some (false, log))
            × (compaction_started log ≡ false)
            × (length es ≤ 1))
  unfolding compaction_begin compaction_started
  compaction_begin_refines log es (xs, ys, split, r) small =
      elim (IsSplit-cases crc32 log xs ys r) [
        | inr (p1, there, held, after) ↦
            inl (log, rw there refl, rw there refl, refl, (xs, ys, split, r))
        | inl (none_there, empty) ↦
            let all : es ≡ xs = split ∙ ap (λ t. xs ++ t) empty ∙ append-nil xs in
            elim (Bool-cases (leb log.page0.num_entries 1)) [
              | inl few ↦ inr (
                rw (none_there, few) refl,
                rw none_there refl,
                ground (arith, few, r.first.count, ap length all),
              )
              | inr many ↦ inl (
                  new_page-IsLog log es none_there
                    (subst (IsPage crc32 log.page0) (sym all) r.first)
                    (ground (arith, many, r.first.count, ap length all)) small)
            ]
      ]

  -- the first page ends somewhere among the entries
  pub compaction_idx-bounds :
      (log : Log) (es : List Entry)
      → IsLog crc32 log es
      → (prev_log_index log ≤ compaction_idx log)
        × (compaction_idx log ≤ prev_log_index log + length es)
  unfolding compaction_idx prev_log_index
  compaction_idx-bounds log es (xs, ys, split, r) =
      let size : length es ≡ length xs + length ys = ap length split ∙ length-append xs ys in
      (omega (arith, r.first.last), omega (arith, r.first.last, size))

  -- On a log that holds entries and has a second page, `LogCompactionEnd` succeeds and leaves the entries behind the first
  -- page: the log now begins behind `LogCompactionIdx`, without the entries up to it. On a log without one it fails its assertion.
  pub compaction_end_refines :
      (log : Log) (es : List Entry)
      → IsLog crc32 log es
      → ((log' : Log) × (compaction_end log ≡ some log')
          × (compaction_started log ≡ true)
          × (compaction_started log' ≡ false)
          × (prev_log_index log' ≡ compaction_idx log)
          × IsLog crc32 log' (drop (compaction_idx log - prev_log_index log) es))
        ⊎ ((compaction_end log ≡ none) × (compaction_started log ≡ false))
  unfolding compaction_end compaction_started compaction_idx prev_log_index
  compaction_end_refines log es (xs, ys, split, r) = elim (IsSplit-cases crc32 log xs ys r) [
    | inl (none_there, empty) ↦ inr (rw none_there refl, rw none_there refl)
    | inr (p1, there, held, after) ↦
        let n : log.page0.index - log.page0.prev_log_idx ≡ length xs =
          omega (arith, r.first.last) in
        let left : drop (log.page0.index - log.page0.prev_log_idx) es ≡ ys ++ [] =
          rw (n, split) (drop-append xs ys ∙ sym (append-nil ys)) in
        inl (
          record log { page0 = p1; page1 = none },
          rw there refl,
          rw there refl,
          refl,
          after.subsequent,
          (ys, [], left, record { first = held; second = refl }),
        )
  ]

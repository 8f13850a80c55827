-- ===== src/Log/Rep.antt =====
-- When the log holds a list of entries.
use redisraft.Prelude.{
  ◌⊎◌, ℕ, ◌+◌, ◌≡◌, refl, ap, ◌∙◌, true, Option, none, some, List, [], ◌++◌, ◌==◌, length, arith,
  Option-cases, inl, inr, length-append,
}
use mathlib.Core.Path.{subst}
use redisraft.Wire.{Bytes}
use redisraft.Page.{Entry, LogPage, Header, header_of}
use redisraft.Page.Text.{IsHeader}
use redisraft.Page.Rep.{IsPage, page_create-IsPage}
use redisraft.Log.{Log, fresh_log, log_create, log_count, first_idx, current_idx, prev_log_index}

-- The second page belongs to the same node, and continues the first one.
pub record Follows (p0 p1 : LogPage) : Type 0 where
  pub subsequent : p1.prev_log_idx ≡ p0.index
  pub same_dbid : p1.dbid ≡ p0.dbid
  pub same_node : p1.node_id ≡ p0.node_id

pub same_header-Follows :
    (p0 p1 p : LogPage) → header_of p ≡ header_of p1 → Follows p0 p1 → Follows p0 p
same_header-Follows p0 p1 p e after = record {
  subsequent = ap (λ h. h.prev_log_idx) e ∙ after.subsequent;
  same_dbid = ap (λ h. h.dbid) e ∙ after.same_dbid;
  same_node = ap (λ h. h.node_id) e ∙ after.same_node;
}

module _ (crc32 : ℕ → Bytes → ℕ) where
  abbrev pub SecondHolds : LogPage → Option LogPage → List Entry → Type 0
  SecondHolds p0 none ys = ys ≡ []
  SecondHolds p0 (some p1) ys = IsPage crc32 p1 ys × Follows p0 p1

  -- The first page holds `xs`, the second one `ys`.
  pub record IsSplit (log : Log) (xs ys : List Entry) : Type 0 where
    pub first : IsPage crc32 log.page0 xs
    pub second : SecondHolds log.page0 log.page1 ys

  abbrev pub IsLog : Log → List Entry → Type 0
  IsLog log es = (xs : List Entry) × (ys : List Entry) × (es ≡ xs ++ ys) × IsSplit log xs ys

  -- the two ways to have a second page
  pub IsSplit-cases :
      (log : Log) (xs ys : List Entry)
      → IsSplit log xs ys
      → ((log.page1 ≡ none) × (ys ≡ []))
        ⊎ ((p1 : LogPage) × (log.page1 ≡ some p1) × IsPage crc32 p1 ys × Follows log.page0 p1)
  IsSplit-cases log xs ys r = elim (Option-cases log.page1) [
    | inl e ↦ inl (e, subst (λ o. SecondHolds log.page0 o ys) e r.second)
    | inr (p1, e) ↦
        let there = subst (λ o. SecondHolds log.page0 o ys) e r.second in
        inr (p1, e, there.0, there.1)
  ]

  -- `LogCount`, `LogFirstIdx`, `LogPrevLogIndex` and `LogCurrentIdx` of a log that holds entries are what these entries
  -- say: their number, the indices of the first one, of the one before it, and of the last one.
  pub log_count_refines :
      (log : Log) (es : List Entry)
      → IsLog log es
      → (log_count log ≡ length es)
        × (first_idx log ≡ prev_log_index log + 1)
        × (current_idx log ≡ prev_log_index log + length es)
  unfolding log_count first_idx current_idx prev_log_index
  log_count_refines log es (xs, ys, e, r) =
      let size : length es ≡ length xs + length ys = ap length e ∙ length-append xs ys in
      elim (IsSplit-cases log xs ys r) [
        | inl (none_there, empty) ↦
            let no_more : length ys ≡ 0 = ap length empty in
            rw none_there (
              omega (arith, size, no_more, r.first.count),
              refl,
              omega (arith, size, no_more, r.first.last),
            )
        | inr (p1, there, held, after) ↦ rw there (
          omega (arith, size, held.count, r.first.count),
          refl,
          omega (arith, size, held.last, r.first.last, after.subsequent),
        )
      ]

  -- A log that `LogCreate` has created holds no entries.
  pub log_create-IsLog :
      (h : Header)
      → IsHeader h
      → (log : Log) × (log_create crc32 true h ≡ some log)
        × (prev_log_index log ≡ h.prev_log_idx)
        × IsLog log []
  unfolding log_create prev_log_index
  log_create-IsLog h proper =
      let (p, creates, same, held) = page_create-IsPage crc32 h proper in
      let id_length : (length h.dbid == 32) ≡ true = ground (arith, proper.dbid_length) in
      (
        fresh_log p none,
        rw (id_length, creates) refl,
        ap (λ k. k.prev_log_idx) same,
        ([], [], refl, record { first = held; second = refl }),
      )

-- ===== src/Log/Append.antt =====
-- `LogAppend` puts the entry on the last page.
use redisraft.Prelude.{
  ℕ, ◌<◌, ◌≡◌, ◌≢◌, refl, sym, ap, ◌∙◌, true, false, Option, none, some, List, [], ◌∷◌, ◌++◌, inl,
  inr, append_assoc, append-nil, ◌⊎◌,
}
use redisraft.Wire.{Bytes}
use redisraft.Page.{Entry, LogPage, page_append}
use redisraft.Page.Text.{IsEntry}
use redisraft.Page.Append.{page_append-IsPage}
use redisraft.Log.{Log, last_page, set_last, log_append, prev_log_index}
use redisraft.Log.Rep.{IsLog, IsSplit-cases, same_header-Follows}

module _ (crc32 : ℕ → Bytes → ℕ) where
  put_back :
      (faults : ℕ → Option ℕ) (log : Log) (e : Entry) (p : LogPage)
      → last_page log ≡ p
      → set_last log p log.page1 ≡ log
      → (((page_append crc32 faults p e ≡ some (false, p)) × (faults 5 ≡ none))
          ⊎ ((page_append crc32 faults p e ≡ none) × (faults 5 ≢ none)))
      → ((log_append crc32 faults log e ≡ some (false, log)) × (faults 5 ≡ none))
        ⊎ ((log_append crc32 faults log e ≡ none) × (faults 5 ≢ none))
  unfolding log_append
  put_back faults log e p there back (inl (fails, reverts)) =
      inl (rw (there, fails, back) refl, reverts)
  put_back faults log e p there back (inr (aborts, stuck)) = inr (rw (there, aborts) refl, stuck)

  -- On a log that holds entries, `LogAppend` of one more either succeeds, which is so where none of the five writes of
  -- `pageAppend` fails, and the log holds that entry behind the others. Or one of the writes fails: then `LogAppend` does, with the log
  -- as it was before, if the page's files can be truncated, and fails an assertion if not.
  pub log_append_refines :
      (faults : ℕ → Option ℕ) (log : Log) (es : List Entry) (e : Entry)
      → IsLog crc32 log es
      → IsEntry e
      → ((log' : Log) × (log_append crc32 faults log e ≡ some (true, log'))
          × ((j : ℕ) → j < 5 → faults j ≡ none)
          × (prev_log_index log' ≡ prev_log_index log)
          × IsLog crc32 log' (es ++ e ∷ []))
        ⊎ ((((log_append crc32 faults log e ≡ some (false, log)) × (faults 5 ≡ none))
              ⊎ ((log_append crc32 faults log e ≡ none) × (faults 5 ≢ none)))
            × (j : ℕ) × (j < 5)
            × (faults j ≢ none))
  unfolding log_append prev_log_index
  log_append_refines faults log es e (xs, ys, split, r) proper =
      elim (IsSplit-cases crc32 log xs ys r) [
        | inl (none_there, empty) ↦
            elim (page_append-IsPage crc32 faults log.page0 xs e r.first proper) [
              | inl (p, done, no_fault, same, held) ↦ inl (
                record log { page0 = p },
                rw (none_there, done) refl,
                no_fault,
                ap (λ h. h.prev_log_idx) same,
                (
                  xs ++ e ∷ [],
                  [],
                  rw (split, empty, append-nil xs) (sym (append-nil _)),
                  record { first = held; second = rw none_there refl },
                ),
              )
              | inr (fails, j, low, fault) ↦
                  let last : last_page log ≡ log.page0 = rw none_there refl in
                  let back : set_last log log.page0 log.page1 ≡ log =
                    ap (set_last log log.page0) none_there in
                  inr (put_back faults log e log.page0 last back fails, j, low, fault)
            ]
        | inr (p1, there, held, after) ↦
            elim (page_append-IsPage crc32 faults p1 ys e held proper) [
              | inl (p, done, no_fault, same, more) ↦ inl (
                record log { page1 = some p },
                rw (there, done) refl,
                no_fault,
                refl,
                (
                  xs,
                  ys ++ e ∷ [],
                  rw split (append_assoc xs ys (e ∷ [])),
                  record {
                    first = r.first;
                    second = (more, same_header-Follows log.page0 p1 p same after);
                  },
                ),
              )
              | inr (fails, j, low, fault) ↦
                  let last : last_page log ≡ p1 = rw there refl in
                  let back : set_last log p1 log.page1 ≡ log =
                    ap (set_last log p1) there ∙ ap (λ o. record log { page1 = o }) (sym there) in
                  inr (put_back faults log e p1 last back fails, j, low, fault)
            ]
      ]

-- ===== src/Page/Delete.antt =====
-- Entries are deleted from the end of a page.
use redisraft.Prelude.{
  ℕ, ◌+◌, ◌-◌, ◌^◌, ◌≤◌, ◌<◌, ◌≡◌, refl, sym, ap, ◌∙◌, true, false, ◌||◌, List, [], ◌∷◌, ◌++◌, ◌==◌,
  leb, ltb, length, take, arith, Bool-cases, inl, inr, ℤ, length-append, take-append,
}
use mathlib.Core.Path.{subst}
use redisraft.Prelude.{get_elem?-lt, split_around, take-around, last-cases, ◌⊎◌}
use redisraft.Wire.{Bytes}
use redisraft.Page.{
  Entry, LogPage, rr_ok, rr_error, header_of, header_crc, page_seek, page_delete, restore_crc,
}
use redisraft.Page.Spec.{
  offsets, crc_after, header_text, offsets-append, crc_after-append, length-offsets,
}
use redisraft.Page.Rep.{IsPage, AllEntries-front}
use redisraft.Page.Seek.{place, place_pos, page_seek-place, drop-place, read_entry-place}

module _ (crc32 : ℕ → Bytes → ℕ) (crc_small : (c : ℕ) (s : Bytes) → crc32 c s < 2 ^ 32) where
  -- the page with only the entries `xs`, and with the crc `crc`
  abbrev cut : LogPage → List Entry → ℤ → LogPage
  cut p xs crc = record p {
    file = take (place crc32 crc_small p xs) p.file;
    idxfile = take (length xs) p.idxfile;
    num_entries = length xs;
    index = p.prev_log_idx + length xs;
    current_crc = crc;
  }

  cut-IsPage :
      (p : LogPage) (xs ys : List Entry)
      → IsPage crc32 p (xs ++ ys)
      → IsPage crc32 (cut p xs (crc_after crc32 (header_crc crc32 (header_of p)) xs)) xs
  cut-IsPage p xs ys r =
      let c = header_crc crc32 (header_of p) in
      let o = length (header_text crc32 (header_of p)) in
      record {
        header = r.header;
        entries = AllEntries-front xs ys r.entries;
        text = (drop-place crc32 crc_small p xs ys r).1;
        cells =
            rw (r.cells, offsets-append crc32 o c xs ys, ← length-offsets crc32 o c xs)
              (take-append (offsets crc32 o c xs) _);
        count = refl;
        last = refl;
        crc = refl;
      }

  abbrev with_crc : LogPage → List Entry → LogPage
  with_crc q xs = record q { current_crc = crc_after crc32 (header_crc crc32 (header_of q)) xs }

  page_seek-with_crc :
      (q : LogPage) (xs : List Entry) (idx : ℕ) → page_seek (with_crc q xs) idx ≡ page_seek q idx
  unfolding page_seek
  page_seek-with_crc q xs idx = refl

  restore_crc-last :
      (q : LogPage) (zs : List Entry) (z : Entry)
      → IsPage crc32 (with_crc q (zs ++ z ∷ [])) (zs ++ z ∷ [])
      → restore_crc crc32 q ≡ rr_ok (with_crc q (zs ++ z ∷ []))
  unfolding restore_crc crc_after
  restore_crc-last q zs z r =
      let q' = with_crc q (zs ++ z ∷ []) in
      let some_left : (q.num_entries == 0) ≡ false =
        ground (arith, r.count, length-append zs (z ∷ [])) in
      let idx : q.index ≡ q.prev_log_idx + length zs + 1 =
        omega (arith, r.last, length-append zs (z ∷ [])) in
      let seek : page_seek q q.index ≡ place crc32 crc_small q zs =
        ap (page_seek q) idx
        ∙ sym (page_seek-with_crc q (zs ++ z ∷ []) (q.prev_log_idx + length zs + 1))
        ∙ page_seek-place crc32 crc_small q' zs [] z r in
      let nonzero : (place crc32 crc_small q zs == 0) ≡ false =
        ground (arith, place_pos crc32 crc_small q zs) in
      let reads = read_entry-place crc32 crc_small q' zs [] z r in
      rw
        (
          some_left,
          seek,
          nonzero,
          reads,
          crc_after-append crc32 (header_crc crc32 (header_of q)) zs (z ∷ []),
        )
        refl

  -- The running crc of a page that was cut to `xs` is restored to that behind `xs`.
  restore_crc-IsPage :
      (q : LogPage) (xs : List Entry)
      → IsPage crc32 (with_crc q xs) xs
      → restore_crc crc32 q ≡ rr_ok (with_crc q xs)
  unfolding restore_crc crc_after
  restore_crc-IsPage q [] r =
      let empty : (q.num_entries == 0) ≡ true = ground (arith, r.count) in rw empty refl
  restore_crc-IsPage q (x ∷ xs) r = elim (last-cases (x ∷ xs)) [
    | inl e ↦ cc
    | inr (zs, z, e) ↦
        subst (λ l. restore_crc crc32 q ≡ rr_ok (with_crc q l)) (sym e)
          (restore_crc-last q zs z (subst (λ l. IsPage crc32 (with_crc q l) l) e r))
  ]

  page_delete-inside :
      (p : LogPage) (xs ys : List Entry) (e : Entry)
      → IsPage crc32 p (xs ++ e ∷ ys)
      → (p' : LogPage) × (page_delete crc32 p (p.prev_log_idx + length xs + 1) ≡ rr_ok p')
        × (header_of p' ≡ header_of p)
        × IsPage crc32 p' xs
  unfolding page_delete
  page_delete-inside p xs ys e r =
      let size = length-append xs (e ∷ ys) in
      let inside : (leb (p.prev_log_idx + length xs + 1) p.prev_log_idx
            || ltb p.index (p.prev_log_idx + length xs + 1))
          ≡ false =
        ground (arith, r.last, size) in
      let nonzero : (place crc32 crc_small p xs == 0) ≡ false =
        ground (arith, place_pos crc32 crc_small p xs) in
      let relidx : p.prev_log_idx + length xs + 1 - p.prev_log_idx - 1 ≡ length xs = omega arith in
      let num : p.num_entries - (p.index - (p.prev_log_idx + length xs + 1) + 1) ≡ length xs =
        omega (arith, r.count, r.last, size) in
      let index : p.index - (p.index - (p.prev_log_idx + length xs + 1) + 1)
          ≡ p.prev_log_idx + length xs =
        omega (arith, r.last, size) in
      let kept = cut-IsPage p xs (e ∷ ys) r in
      (
        _,
        rw (inside, page_seek-place crc32 crc_small p xs ys e r, nonzero, relidx, num, index)
            (restore_crc-IsPage (cut p xs p.current_crc) xs kept),
        refl,
        kept,
      )

  -- On a page that holds entries, `pageDelete` from a log index on fails no assertion. For the index of an entry it succeeds and
  -- leaves the entries before that one, and the page's files, counters and running crc are as if no others had been
  -- appended; for any other index it returns an error.
  pub page_delete_refines :
      (p : LogPage) (es : List Entry) (from_idx : ℕ)
      → IsPage crc32 p es
      → ((p' : LogPage) × (page_delete crc32 p from_idx ≡ rr_ok p')
          × (p.prev_log_idx < from_idx)
          × (from_idx ≤ p.prev_log_idx + length es)
          × (header_of p' ≡ header_of p)
          × IsPage crc32 p' (take (from_idx - p.prev_log_idx - 1) es))
        ⊎ ((page_delete crc32 p from_idx ≡ rr_error)
            × ((from_idx ≤ p.prev_log_idx) ⊎ (p.prev_log_idx + length es < from_idx)))
  unfolding page_delete
  page_delete_refines p es from_idx r =
      elim (Bool-cases (leb from_idx p.prev_log_idx || ltb p.index from_idx)) [
        | inl outside ↦ inr (rw outside refl, ground (arith, outside, r.last))
        | inr inside ↦
            let i = from_idx - p.prev_log_idx - 1 in
            let low : p.prev_log_idx < from_idx = ground (arith, inside) in
            let high : from_idx ≤ p.prev_log_idx + length es = ground (arith, inside, r.last) in
            let (e, at_i) = get_elem?-lt es i (omega (arith, low, high)) in
            let (xs, ys, split, n) = split_around es i e at_i in
            let idx : p.prev_log_idx + length xs + 1 ≡ from_idx = omega (arith, n, low) in
            let (p', runs, same, kept) =
              page_delete-inside p xs ys e (subst (IsPage crc32 p) split r) in
            let front : take i es ≡ xs = take-around es xs (e ∷ ys) i split n in
            inl (
              p',
              subst (λ k. page_delete crc32 p k ≡ rr_ok p') idx runs,
              low,
              high,
              same,
              subst (IsPage crc32 p') (sym front) kept,
            )
      ]

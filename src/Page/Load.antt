-- ===== src/Page/Load.antt =====
-- Loading a page finds the entries that are complete, and cuts off what is behind them.
use redisraft.Prelude.{
  ℕ, suc, ◌+◌, ◌-◌, ◌^◌, ◌≤◌, ◌<◌, ◌≡◌, refl, sym, ap, ◌∙◌, true, false, none, some, List, [], ◌∷◌,
  ◌++◌, length, take, arith, inl, inr, ℤ, pos, negsuc, append_assoc, append-nil, length-append,
  take-append,
}
use redisraft.Prelude.{◌⊎◌, eq_ℤ}
use redisraft.Wire.{Bytes}
use redisraft.Multibulk.{write_len, write_signed}
use redisraft.Page.{
  entry_header, Entry, LogPage, Header, header_of, page_header, entry_crc, header_crc, read_entry,
  read_header, page_load, load_loop, page_open, fresh_page,
}
use redisraft.Page.Text.{entry_with, IsHeader, read_entry-with, read_header-page_header}
use redisraft.Page.Spec.{entries_text, entry_text, offsets, crc_after, header_text}
use redisraft.Page.Rep.{IsPage, AllEntries}
use redisraft.Page.Seek.{entry_crc_fits, header_crc_fits}

pub eq_ℤ-refl : (v : ℤ) → eq_ℤ v v ≡ true
eq_ℤ-refl (pos n) = ground arith
eq_ℤ-refl (negsuc n) = ground arith

offset_of :
    (file front rest : Bytes) → file ≡ front ++ rest → length file - length rest ≡ length front
offset_of file front rest e = omega (arith, ap length e, length-append front rest)

pub entry_with_pos : (e : Entry) (crc : ℤ) → 0 < length (entry_with e crc)
unfolding entry_with entry_header write_len
entry_with_pos e crc = omega arith

-- Pages with the same header are the same where the counters and the files are.
same_page :
    (p : LogPage) {n n' i i' : ℕ} {f f' : Bytes} {c c' : List ℕ} {crc crc' : ℤ}
    → n ≡ n'
    → i ≡ i'
    → f ≡ f'
    → c ≡ c'
    → crc ≡ crc'
    → record p { num_entries = n; index = i; file = f; idxfile = c; current_crc = crc }
      ≡ record p { num_entries = n'; index = i'; file = f'; idxfile = c'; current_crc = crc' }
same_page p n i f c crc = cc

module _ (crc32 : ℕ → Bytes → ℕ) (crc_small : (c : ℕ) (s : Bytes) → crc32 c s < 2 ^ 32) where
  -- what stops the loop: no entry can be read, or its crc is not the one of the entry
  abbrev pub IsTorn : ℤ → Bytes → Type 0
  IsTorn crc junk =
      (read_entry junk ≡ none)
      ⊎ ((e : Entry) × (c : ℤ) × (rest : Bytes) × (read_entry junk ≡ some ((e, c), rest))
          × (eq_ℤ (entry_crc crc32 crc e) c ≡ false))

  stops_none :
      (fuel : ℕ) (p : LogPage) (rest : Bytes)
      → read_entry rest ≡ none
      → load_loop crc32 (suc fuel) rest p
        ≡ some (record p { file = take (length p.file - length rest) p.file })
  unfolding load_loop
  stops_none fuel p rest e = ground (arith, e)

  stops_differs :
      (fuel : ℕ) (p : LogPage) (s : Bytes) (e : Entry) (c : ℤ) (rest : Bytes)
      → read_entry s ≡ some ((e, c), rest)
      → eq_ℤ (entry_crc crc32 p.current_crc e) c ≡ false
      → load_loop crc32 (suc fuel) s p
        ≡ some (record p { file = take (length p.file - length s) p.file })
  unfolding load_loop
  stops_differs fuel p s e c rest reads differs = ground (arith, reads, differs)

  goes_on :
      (fuel : ℕ) (p : LogPage) (s : Bytes) (e : Entry) (rest : Bytes)
      → read_entry s ≡ some ((e, entry_crc crc32 p.current_crc e), rest)
      → load_loop crc32 (suc fuel) s p
        ≡ load_loop crc32 fuel rest (record p {
          current_crc = entry_crc crc32 p.current_crc e;
          index = p.index + 1;
          num_entries = p.num_entries + 1;
          idxfile = p.idxfile ++ (length p.file - length s) ∷ [];
        })
  unfolding load_loop
  goes_on fuel p s e rest reads =
      let same = eq_ℤ-refl (entry_crc crc32 p.current_crc e) in ground (arith, reads, same)

  load_loop-IsTorn :
      (fuel : ℕ) (p : LogPage) (front junk : Bytes)
      → p.file ≡ front ++ junk
      → IsTorn p.current_crc junk
      → load_loop crc32 (suc fuel) junk p ≡ some (record p { file = front })
  load_loop-IsTorn fuel p front junk e torn =
      let cut : take (length p.file - length junk) p.file ≡ front =
        rw (offset_of p.file front junk e, e) (take-append front junk) in
      let same : some (record p { file = take (length p.file - length junk) p.file })
          ≡ some (record p { file = front }) =
        ap (λ f. some (record p { file = f })) cut in
      elim torn [
        | inl none_read ↦ stops_none fuel p junk none_read ∙ same
        | inr (x, c, rest, reads, differs) ↦ stops_differs fuel p junk x c rest reads differs ∙ same
      ]

  -- the page when `es` have been found behind `front`
  abbrev loaded : LogPage → Bytes → List Entry → LogPage
  loaded p front es = record p {
    file = front ++ entries_text crc32 p.current_crc es;
    idxfile = p.idxfile ++ offsets crc32 (length front) p.current_crc es;
    current_crc = crc_after crc32 p.current_crc es;
    index = p.index + length es;
    num_entries = p.num_entries + length es;
  }

  abbrev one_more : LogPage → Bytes → Entry → LogPage
  one_more p front x = record p {
    current_crc = entry_crc crc32 p.current_crc x;
    index = p.index + 1;
    num_entries = p.num_entries + 1;
    idxfile = p.idxfile ++ length front ∷ [];
  }

  loaded-one_more :
      (p : LogPage) (front : Bytes) (x : Entry) (es : List Entry)
      → loaded (one_more p front x) (front ++ entry_text crc32 p.current_crc x) es
        ≡ loaded p front (x ∷ es)
  unfolding entries_text crc_after offsets
  loaded-one_more p front x es =
      let here = entry_text crc32 p.current_crc x in
      let next = entry_crc crc32 p.current_crc x in
      same_page p (omega arith) (omega arith) (append_assoc front here (entries_text crc32 next es))
        (append_assoc p.idxfile (length front ∷ []) _
          ∙ ap (λ o. p.idxfile ++ length front ∷ offsets crc32 o next es)
              (length-append front here))
        refl

  load_loop-entries :
      (es : List Entry) (more : ℕ) (p : LogPage) (front junk : Bytes)
      → AllEntries es
      → p.file ≡ front ++ (entries_text crc32 p.current_crc es ++ junk)
      → IsTorn (crc_after crc32 p.current_crc es) junk
      → load_loop crc32 (suc (more + length es)) (entries_text crc32 p.current_crc es ++ junk) p
        ≡ some (loaded p front es)
  unfolding entries_text crc_after offsets
  load_loop-entries [] more p front junk all e torn =
      load_loop-IsTorn (more + 0) p front junk e torn
      ∙ ap some (
          same_page p (omega arith) (omega arith) (sym (append-nil front))
            (sym (append-nil p.idxfile)) refl)
  load_loop-entries (x ∷ es) more p front junk all e torn =
      let crc = p.current_crc in
      let next = entry_crc crc32 crc x in
      let here = entry_text crc32 crc x in
      let rest = entries_text crc32 next es ++ junk in
      let moved : p.file ≡ (front ++ here) ++ rest =
        e
        ∙ ap (λ t. front ++ t) (append_assoc here (entries_text crc32 next es) junk)
        ∙ sym (append_assoc front here rest) in
      let offset : length p.file - length (here ++ rest) ≡ length front =
        offset_of p.file front (here ++ rest) (moved ∙ append_assoc front here rest) in
      let reads : read_entry (here ++ rest) ≡ some ((x, next), rest) =
        read_entry-with x next rest all.0 (entry_crc_fits crc32 crc_small crc x) in
      let fuel : more + suc (length es) ≡ suc (more + length es) = omega arith in
      ap (λ s. load_loop crc32 (suc (more + suc (length es))) s p)
        (append_assoc here (entries_text crc32 next es) junk)
      ∙ goes_on (more + suc (length es)) p (here ++ rest) x rest reads
      ∙ rw (offset, fuel)
          (load_loop-entries es more (one_more p front x) (front ++ here) junk all.1 moved torn)
      ∙ ap some (loaded-one_more p front x es)

  pub length-entries_text :
      (crc : ℤ) (es : List Entry) → length es ≤ length (entries_text crc32 crc es)
  unfolding entries_text
  length-entries_text crc [] = omega arith
  length-entries_text crc (x ∷ es) = omega (
    arith,
    length-entries_text (entry_crc crc32 crc x) es,
    entry_with_pos x (entry_crc crc32 crc x),
    length-append (entry_text crc32 crc x) (entries_text crc32 (entry_crc crc32 crc x) es),
  )

  -- a file with these entries, and something behind them
  abbrev pub page_text : Header → List Entry → Bytes → Bytes
  page_text h es junk = header_text crc32 h ++ (entries_text crc32 (header_crc crc32 h) es ++ junk)

  read_header-page_text :
      (h : Header) (rest : Bytes)
      → IsHeader h
      → read_header (header_text crc32 h ++ rest) ≡ some ((h, header_crc crc32 h), rest)
  unfolding header_text
  read_header-page_text h rest proper =
      rw (append_assoc (page_header h) (write_signed (header_crc crc32 h)) rest) (
        read_header-page_header h (header_crc crc32 h) rest proper
          (header_crc_fits crc32 crc_small h))

  pub page_open-page_text :
      (h : Header) (rest : Bytes)
      → IsHeader h
      → page_open crc32 (header_text crc32 h ++ rest)
        ≡ some (fresh_page h (header_text crc32 h ++ rest))
  unfolding page_open
  page_open-page_text h rest proper =
      rw (read_header-page_text h rest proper, eq_ℤ-refl (header_crc crc32 h)) refl

  loaded-IsPage :
      (h : Header) (es : List Entry)
      → IsHeader h
      → AllEntries es
      → (file : Bytes)
      → IsPage crc32
          (loaded
            (record (fresh_page h file) { current_crc = header_crc crc32 h })
            (header_text crc32 h)
            es)
          es
  loaded-IsPage h es proper all file = record {
    header = proper;
    entries = all;
    text = refl;
    cells = refl;
    count = omega arith;
    last = refl;
    crc = refl;
  }

  -- A file of entries, with something behind them that is no entry, is loaded with these entries, and what is
  -- behind them is cut off.
  pub page_load-IsPage :
      (h : Header) (es : List Entry) (junk : Bytes)
      → IsHeader h
      → AllEntries es
      → IsTorn (crc_after crc32 (header_crc crc32 h) es) junk
      → (p : LogPage) × (page_load crc32 (fresh_page h (page_text h es junk)) ≡ some p)
        × (header_of p ≡ h)
        × IsPage crc32 p es
  unfolding page_load
  page_load-IsPage h es junk proper all torn =
      let file = page_text h es junk in
      let opened = record (fresh_page h file) { current_crc = header_crc crc32 h } in
      let fuel : length file + 1 ≡ suc (length file - length es + length es) = omega (
        arith,
        length-entries_text (header_crc crc32 h) es,
        length-append (header_text crc32 h) (entries_text crc32 (header_crc crc32 h) es ++ junk),
        length-append (entries_text crc32 (header_crc crc32 h) es) junk,
      ) in
      (
        loaded opened (header_text crc32 h) es,
        rw
            (
              read_header-page_text h (entries_text crc32 (header_crc crc32 h) es ++ junk) proper,
              fuel,
            )
            (load_loop-entries es (length file - length es) opened (header_text crc32 h) junk all
              refl torn),
        refl,
        loaded-IsPage h es proper all file,
      )

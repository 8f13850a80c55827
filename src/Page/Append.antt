-- ===== src/Page/Append.antt =====
-- An entry is appended, or the page is as it was.
use redisraft.Prelude.{
  ℕ, zero, suc, ◌+◌, ◌<◌, ◌≡◌, ◌≢◌, refl, sym, ap, ◌∙◌, true, false, Option, none, some, List, [],
  ◌∷◌, ◌++◌, ◌==◌, length, take, arith, Bool-cases, Option-cases, inl, inr, ℤ, append_assoc,
  append-nil, length-append, take-append,
}
use redisraft.Prelude.{◌⊎◌}
use redisraft.Wire.{Bytes}
use redisraft.Multibulk.{write_signed, crlf}
use redisraft.Page.{
  header_of, Entry, LogPage, entry_header, entry_crc, header_crc, append_chunks, page_append,
  roll_back,
}
use redisraft.Page.Text.{entry_with, IsEntry}
use redisraft.Page.Spec.{
  entries_text, offsets, crc_after, header_text, entries_text-append, offsets-append,
  crc_after-append,
}
use redisraft.Page.Rep.{IsPage, AllEntries-append}

joined : List Bytes → Bytes
joined [] = []
joined (c ∷ chunks) = c ++ joined chunks

next_call : (faults : ℕ → Option ℕ) (i j : ℕ) → faults (i + suc j) ≡ faults (i + 1 + j)
next_call faults i j = ap faults (omega arith)

this_call : (faults : ℕ → Option ℕ) (i : ℕ) → faults (i + 0) ≡ faults i
this_call faults i = ap faults (omega arith)

none_from :
    (faults : ℕ → Option ℕ) (i n : ℕ)
    → faults i ≡ none
    → ((j : ℕ) → j < n → faults (i + 1 + j) ≡ none)
    → (j : ℕ) → j < suc n
    → faults (i + j) ≡ none
none_from faults i n e more zero h = this_call faults i ∙ e
none_from faults i n e more (suc j) h = next_call faults i j ∙ more j (omega arith)

call_fails :
    (faults : ℕ → Option ℕ) (i k : ℕ) (chunk : Bytes) (chunks : List Bytes) (file : Bytes)
    → faults i ≡ some k
    → append_chunks faults i (chunk ∷ chunks) file ≡ (false, file ++ take k chunk)
unfolding append_chunks
call_fails faults i k chunk chunks file e = ground (arith, e)

call_succeeds :
    (faults : ℕ → Option ℕ) (i : ℕ) (chunk : Bytes) (chunks : List Bytes) (file : Bytes)
    → faults i ≡ none
    → append_chunks faults i (chunk ∷ chunks) file
      ≡ append_chunks faults (i + 1) chunks (file ++ chunk)
unfolding append_chunks
call_succeeds faults i chunk chunks file e = ground (arith, e)

-- All chunks are written and no call fails, or one fails behind some part of them.
append_chunks-cases :
    (faults : ℕ → Option ℕ) (i : ℕ) (chunks : List Bytes) (file : Bytes)
    → ((append_chunks faults i chunks file ≡ (true, file ++ joined chunks))
        × ((j : ℕ) → j < length chunks → faults (i + j) ≡ none))
      ⊎ ((junk : Bytes) × (j : ℕ) × (append_chunks faults i chunks file ≡ (false, file ++ junk))
          × (j < length chunks)
          × (faults (i + j) ≢ none))
unfolding append_chunks joined
append_chunks-cases faults i [] file =
    inl (ap (λ t. (true, t)) (sym (append-nil file)), λ j h. absurd (omega arith))
append_chunks-cases faults i (chunk ∷ chunks) file = elim (Option-cases (faults i)) [
  | inr (k, e) ↦ inr (
    take k chunk,
    0,
    call_fails faults i k chunk chunks file e,
    omega arith,
    λ h. cc (this_call faults i, e, h),
  )
  | inl e ↦ elim (append_chunks-cases faults (i + 1) chunks (file ++ chunk)) [
    | inl (all, none_fails) ↦ inl (
      call_succeeds faults i chunk chunks file e
          ∙ all
          ∙ ap (λ t. (true, t)) (append_assoc file chunk (joined chunks)),
      none_from faults i (length chunks) e none_fails,
    )
    | inr (junk, j, stops, below, fails) ↦ inr (
      chunk ++ junk,
      suc j,
      call_succeeds faults i chunk chunks file e
          ∙ stops
          ∙ ap (λ t. (false, t)) (append_assoc file chunk junk),
      omega (arith, below),
      λ h. fails (sym (next_call faults i j) ∙ h),
    )
  ]
]

none_of_five :
    (faults : ℕ → Option ℕ)
    → ((j : ℕ) → j < 4 → faults (0 + j) ≡ none)
    → faults 4 ≡ none
    → (j : ℕ) → j < 5
    → faults j ≡ none
none_of_five faults most last j h = elim (Bool-cases (j == 4)) [
  | inl e ↦ ground (arith, e, last)
  | inr e ↦ ap faults (omega arith) ∙ most j (ground (arith, e, h))
]

module _ (crc32 : ℕ → Bytes → ℕ) where
  appended-IsPage :
      (p : LogPage) (es : List Entry) (e : Entry)
      → IsPage crc32 p es
      → IsEntry e
      → let crc = entry_crc crc32 p.current_crc e in
        IsPage crc32
          (record p {
            file = p.file ++ entry_with e crc;
            idxfile = p.idxfile ++ length p.file ∷ [];
            current_crc = crc;
            index = p.index + 1;
            num_entries = p.num_entries + 1;
          })
          (es ++ e ∷ [])
  unfolding entries_text offsets crc_after
  appended-IsPage p es e r proper =
      let c = header_crc crc32 (header_of p) in
      let front = header_text crc32 (header_of p) in
      let size : length p.file ≡ length front + length (entries_text crc32 c es) =
        rw r.text (length-append front (entries_text crc32 c es)) in
      record {
        header = r.header;
        entries = AllEntries-append es (e ∷ []) r.entries (proper, tt);
        text =
            rw (r.text, r.crc, entries_text-append crc32 c es (e ∷ []), append-nil)
              (append_assoc front (entries_text crc32 c es) _);
        cells = rw (r.cells, size, offsets-append crc32 (length front) c es (e ∷ [])) refl;
        count = omega (arith, r.count, length-append es (e ∷ []));
        last = omega (arith, r.last, length-append es (e ∷ []));
        crc = rw (r.crc, crc_after-append crc32 c es (e ∷ [])) refl;
      }

  joined-entry :
      (e : Entry) (crc : ℤ)
      → joined (entry_header e ∷ e.body ∷ crlf ∷ write_signed crc ∷ []) ≡ entry_with e crc
  unfolding joined entry_with
  joined-entry e crc = rw append-nil refl

  -- taking back what was written gives the page from before, or fails the assertion
  roll_back-cases :
      (fault : Option ℕ) (p : LogPage) (junk : Bytes)
      → ((roll_back fault p (p.file ++ junk) ≡ some (false, p)) × (fault ≡ none))
        ⊎ ((roll_back fault p (p.file ++ junk) ≡ none) × (fault ≢ none))
  roll_back-cases none p junk = inl (rw (take-append p.file junk) refl, refl)
  roll_back-cases (some k) p junk = inr (refl, λ h. cc)

  -- On a page that holds entries, `pageAppend` of one more either succeeds, which is so where none of its five writes
  -- fails, and the page holds that entry behind the others. Or one of the writes fails: then `pageAppend` does, with the page and its
  -- files as they were before, if they can be truncated, and fails an assertion if not.
  pub page_append-IsPage :
      (faults : ℕ → Option ℕ) (p : LogPage) (es : List Entry) (e : Entry)
      → IsPage crc32 p es
      → IsEntry e
      → ((p' : LogPage) × (page_append crc32 faults p e ≡ some (true, p'))
          × ((j : ℕ) → j < 5 → faults j ≡ none)
          × (header_of p' ≡ header_of p)
          × IsPage crc32 p' (es ++ e ∷ []))
        ⊎ ((((page_append crc32 faults p e ≡ some (false, p)) × (faults 5 ≡ none))
              ⊎ ((page_append crc32 faults p e ≡ none) × (faults 5 ≢ none)))
            × (j : ℕ) × (j < 5)
            × (faults j ≢ none))
  unfolding page_append
  page_append-IsPage faults p es e r proper =
      let crc = entry_crc crc32 p.current_crc e in
      let chunks : List Bytes = entry_header e ∷ e.body ∷ crlf ∷ write_signed crc ∷ [] in
      elim (append_chunks-cases faults 0 chunks p.file) [
        | inr (junk, j, stops, below, fails) ↦ inr (
          rw stops (roll_back-cases (faults 5) p junk),
          j,
          omega (arith, below),
          λ h. fails (ap faults (omega arith) ∙ h),
        )
        | inl (all, none_fails) ↦ elim (Option-cases (faults 4)) [
          | inr (k, last) ↦ inr (
            rw (all, last) (roll_back-cases (faults 5) p (joined chunks)),
            4,
            omega arith,
            λ h. cc (last, h),
          )
          | inl last ↦ inl (
            _,
            rw (all, last, joined-entry e crc) refl,
            none_of_five faults none_fails last,
            refl,
            appended-IsPage p es e r proper,
          )
        ]
      ]

-- ===== src/Page/Crash.antt =====
-- What a crash leaves of a page is a page.
use redisraft.Prelude.{
  take-append_beyond, take-append_of_le, take-all, take-drop, length-drop, ℕ, suc, ◌+◌, ◌-◌, ◌^◌,
  ◌≤◌, ◌<◌, ◌≡◌, refl, sym, ap, ◌∙◌, true, ◌||◌, not, none, some, List, [], ◌∷◌, ◌++◌, ◌>>=◌, leb,
  length, take, drop, arith, Bool-cases, Option-cases, inl, inr, ℤ, pos, fits, append_assoc,
  append-nil, length-append,
}
use mathlib.Core.Path.{◌∙◌, subst}
use redisraft.Prelude.{◌⊎◌, eq_ℤ}
use redisraft.Wire.{Bytes}
use redisraft.Multibulk.{
  file_gets, file_read, as_length, read_unsigned, read_signed, read_str, read_len,
}
use redisraft.Page.{
  dollar, entry_str, bytes_eq, star, Entry, LogPage, Header, header_of, entry_crc, header_crc,
  read_entry, page_load, page_open, fresh_page,
}
use redisraft.Page.Text.{entry_with, IsEntry, read_entry-with}
use redisraft.Page.Spec.{entries_text, entry_text, header_text}
use redisraft.Page.Rep.{AllEntries-front, IsPage, AllEntries}
use redisraft.Page.Seek.{entry_crc_fits}
use redisraft.Page.Load.{page_load-IsPage, page_open-page_text, page_text}
use redisraft.Multibulk.Prefix.{
  IsPrefixed, then-IsPrefixed, pure-IsPrefixed, some-IsPrefixed, if-IsPrefixed, refuse,
  refuse-IsPrefixed, file_read-IsPrefixed, read_len-IsPrefixed, read_str-IsPrefixed,
  read_signed-IsPrefixed, read_unsigned-IsPrefixed, end-IsPrefixed,
}

read_entry-IsPrefixed : IsPrefixed read_entry
unfolding read_entry
read_entry-IsPrefixed = then-IsPrefixed (read_len star) _ (read_len-IsPrefixed star) (λ num.
    then-IsPrefixed (read_str 64) _ (read_str-IsPrefixed 64) (λ str.
      if-IsPrefixed (not (eq_ℤ num (pos 7)) || not (bytes_eq (take 5 str) entry_str)) refuse _
        refuse-IsPrefixed
        (then-IsPrefixed (read_signed (2 ^ 63)) _ (read_signed-IsPrefixed (2 ^ 63)) (λ term.
          then-IsPrefixed (read_signed (2 ^ 31)) _ (read_signed-IsPrefixed (2 ^ 31)) (λ id.
            then-IsPrefixed read_unsigned _ read_unsigned-IsPrefixed (λ session.
              then-IsPrefixed (read_signed (2 ^ 31)) _ (read_signed-IsPrefixed (2 ^ 31)) (λ type.
                then-IsPrefixed (read_len dollar) _ (read_len-IsPrefixed dollar) (λ len.
                  pure-IsPrefixed (as_length len) _ (λ n.
                    then-IsPrefixed (file_read n) _ (file_read-IsPrefixed n) (λ body.
                      then-IsPrefixed (file_read 2) _ (file_read-IsPrefixed 2) (λ two.
                        end-IsPrefixed two _ (
                          then-IsPrefixed (read_signed (2 ^ 63)) _ (read_signed-IsPrefixed (2 ^ 63))
                            (λ crc. some-IsPrefixed _)))))))))))))

read_entry-empty : read_entry [] ≡ none
unfolding read_entry read_len file_gets
read_entry-empty = refl

-- A part of an entry is no entry.
torn_entry :
    (e : Entry) (crc : ℤ) (n : ℕ)
    → IsEntry e
    → fits (2 ^ 63) crc ≡ true
    → n < length (entry_with e crc)
    → read_entry (take n (entry_with e crc)) ≡ none
torn_entry e crc n proper crc_fits short =
    elim (Option-cases (read_entry (take n (entry_with e crc)))) [
      | inl stops ↦ stops
      | inr (r, reads) ↦
          let text = entry_with e crc in
          let whole : read_entry text ≡ some (r.0, r.1 ++ drop n text) =
            subst (λ t. read_entry t ≡ some (r.0, r.1 ++ drop n text)) (take-drop n text)
              (read_entry-IsPrefixed (take n text) r.1 (drop n text) r.0 reads) in
          let alone : read_entry text ≡ some ((e, crc), []) =
            subst (λ t. read_entry t ≡ some ((e, crc), [])) (append-nil text)
              (read_entry-with e crc [] proper crc_fits) in
          let nothing : r.1 ++ drop n text ≡ [] = cc (whole, alone) in
          absurd (
            omega (
              arith,
              short,
              length-drop n text,
              length-append r.1 (drop n text),
              ap length nothing,
            ))
    ]

module _ (crc32 : ℕ → Bytes → ℕ) (crc_small : (c : ℕ) (s : Bytes) → crc32 c s < 2 ^ 32) where
  -- The first bytes of some entries: whole entries, as many as there are, and a part of one that is not read.
  entries_text-take :
      (es : List Entry) (crc : ℤ) (n : ℕ)
      → AllEntries es
      → (k : ℕ) × (junk : Bytes) × (take n (entries_text crc32 crc es)
          ≡ entries_text crc32 crc (take k es) ++ junk)
        × (read_entry junk ≡ none)
        × (length (entries_text crc32 crc (take k es)) ≤ n)
        × ((k ≡ length es) ⊎ (n < length (entries_text crc32 crc (take (suc k) es))))
  unfolding entries_text
  entries_text-take [] crc n all =
      (0, [], take-all [] n (omega arith), read_entry-empty, omega arith, inl refl)
  entries_text-take (x ∷ es) crc n all =
      let here = entry_text crc32 crc x in
      let next = entry_crc crc32 crc x in
      let rest = entries_text crc32 next es in
      elim (Bool-cases (leb (length here) n)) [
        | inr part ↦
            let short : n < length here = ground (arith, part) in
            (
              0,
              take n here,
              take-append_of_le here rest n (omega (arith, short)),
              torn_entry x next n all.0 (entry_crc_fits crc32 crc_small crc x) short,
              omega arith,
              inr (omega (arith, short, length-append here (entries_text crc32 next (take 0 es)))),
            )
        | inl whole ↦
            let size : length here ≤ n = ground (arith, whole) in
            let (k, junk, split, stops, low, high) =
              entries_text-take es next (n - length here) all.1 in
            (
              suc k,
              junk,
              take-append_beyond here rest n size
                  ∙ ap (λ t. here ++ t) split
                  ∙ sym (append_assoc here (entries_text crc32 next (take k es)) junk),
              stops,
              omega (arith, size, low, length-append here (entries_text crc32 next (take k es))),
              elim high [
                | inl all_of ↦ inl (ap suc all_of)
                | inr more ↦ inr (
                    omega (
                      arith,
                      size,
                      more,
                      length-append here (entries_text crc32 next (take (suc k) es)),
                    ))
              ],
            )
      ]

  -- the length of a page file with these entries
  abbrev pub size_with : Header → List Entry → ℕ
  size_with h es =
      length (header_text crc32 h) + length (entries_text crc32 (header_crc crc32 h) es)

  -- Where a crash leaves the first `n` bytes of a page that holds entries, the whole header among them, `pageOpen` and
  -- `pageLoadEntries` succeed. The page then holds the first of these entries, all of those that lie within the `n` bytes.
  pub page_load-take :
      (p : LogPage) (es : List Entry) (n : ℕ)
      → IsPage crc32 p es
      → size_with (header_of p) [] ≤ n
      → (p' : LogPage) × (k : ℕ) × ((page_open crc32 (take n p.file) >>= page_load crc32) ≡ some p')
        × (header_of p' ≡ header_of p)
        × IsPage crc32 p' (take k es)
        × (size_with (header_of p) (take k es) ≤ n)
        × ((k ≡ length es) ⊎ (n < size_with (header_of p) (take (suc k) es)))
  unfolding entries_text
  page_load-take p es n r h =
      let front = header_text crc32 (header_of p) in
      let c = header_crc crc32 (header_of p) in
      let header_fits : length front ≤ n = omega (arith, h) in
      let (k, junk, split, stops, low, high) =
        entries_text-take es c (n - length front) r.entries in
      let file : take n p.file ≡ page_text crc32 crc_small (header_of p) (take k es) junk =
        rw r.text (
          take-append_beyond front (entries_text crc32 c es) n header_fits
          ∙ ap (λ t. front ++ t) split) in
      let some_entries : AllEntries (take k es) =
        AllEntries-front (take k es) (drop k es)
          (subst AllEntries (sym (take-drop k es)) r.entries) in
      let (p', loads, same, held) =
        page_load-IsPage crc32 crc_small (header_of p) (take k es) junk r.header some_entries
          (inl stops) in
      (
        p',
        k,
        rw
            (
              file,
              page_open-page_text crc32 crc_small (header_of p)
                  (entries_text crc32 c (take k es) ++ junk) r.header,
            )
            loads,
        same,
        held,
        omega (arith, low, header_fits, length-append front (entries_text crc32 c (take k es))),
        elim high [
          | inl all ↦ inl all
          | inr more ↦ inr (
              omega (
                arith,
                more,
                header_fits,
                length-append front (entries_text crc32 c (take (suc k) es)),
              ))
        ],
      )

  -- the same for the first of the two steps
  pub page_open-take :
      (p : LogPage) (es : List Entry) (n : ℕ)
      → IsPage crc32 p es
      → size_with (header_of p) [] ≤ n
      → page_open crc32 (take n p.file) ≡ some (fresh_page (header_of p) (take n p.file))
  unfolding entries_text
  page_open-take p es n r h =
      let front = header_text crc32 (header_of p) in
      let c = header_crc crc32 (header_of p) in
      let file : take n p.file ≡ front ++ take (n - length front) (entries_text crc32 c es) =
        rw r.text (take-append_beyond front (entries_text crc32 c es) n (omega (arith, h))) in
      rw file (
        page_open-page_text crc32 crc_small (header_of p)
          (take (n - length front) (entries_text crc32 c es)) r.header)

  -- A whole page is opened and loaded with all its entries.
  pub page_load-whole :
      (p : LogPage) (es : List Entry)
      → IsPage crc32 p es
      → (p' : LogPage) × (page_open crc32 p.file ≡ some (fresh_page (header_of p) p.file))
        × (page_load crc32 (fresh_page (header_of p) p.file) ≡ some p')
        × (header_of p' ≡ header_of p)
        × IsPage crc32 p' es
  page_load-whole p es r =
      let text : p.file ≡ page_text crc32 crc_small (header_of p) es [] =
        r.text
        ∙ ap (λ t. header_text crc32 (header_of p) ++ t)
            (sym (append-nil (entries_text crc32 (header_crc crc32 (header_of p)) es))) in
      let (p', loads, same, held) =
        page_load-IsPage crc32 crc_small (header_of p) es [] r.header r.entries
          (inl read_entry-empty) in
      (
        p',
        rw text (
            page_open-page_text crc32 crc_small (header_of p)
              (entries_text crc32 (header_crc crc32 (header_of p)) es ++ []) r.header),
        rw text loads,
        same,
        held,
      )

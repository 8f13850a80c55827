-- ===== src/Page/Seek.antt =====
-- An entry is found where it was written.
use redisraft.Prelude.{
  ℕ, ◌+◌, ◌-◌, ◌^◌, ◌<◌, ◌≡◌, refl, sym, ap, ◌∙◌, true, false, ◌||◌, Option, none, some, List, ◌∷◌,
  ◌++◌, ◌==◌, leb, ltb, if◌then◌else◌, length, take, drop, arith, Bool-cases, Option-cases, inl,
  inr, ℤ, fits, append_assoc, length-append, take-append, drop-append,
}
use mathlib.Core.Path.{subst}
use redisraft.Prelude.{get_elem?, get_elem?-none, get_elem?-append_middle, split_around}
use redisraft.Wire.{Bytes}
use redisraft.Multibulk.{write_signed, crlf, write_len}
use redisraft.Page.{
  Entry, LogPage, Header, header_of, page_header, entry_crc, header_crc, read_entry, page_seek,
  page_get, low32, entry_header,
}
use redisraft.Page.Text.{read_entry-with, lt→fits}
use redisraft.Page.Spec.{
  entries_text, offsets, crc_after, header_text, entries_text-append, offsets-append,
  length-offsets,
}
use redisraft.Page.Rep.{IsPage, AllEntries-back}

pub header_pos : (h : Header) → 0 < length (page_header h)
unfolding page_header write_len
header_pos h = omega arith

-- the entry at a log index, of those behind index `prev`
unfoldable pub entry_at : ℕ → List Entry → ℕ → Option Entry
entry_at prev es idx = if leb idx prev then none else get_elem? es (idx - prev - 1)

module _ (crc32 : ℕ → Bytes → ℕ) (crc_small : (c : ℕ) (s : Bytes) → crc32 c s < 2 ^ 32) where
  pub entry_crc_fits : (c : ℤ) (e : Entry) → fits (2 ^ 63) (entry_crc crc32 c e) ≡ true
  unfolding entry_crc
  entry_crc_fits c e =
      lt→fits _ (2 ^ 63)
        (omega (arith, crc_small (crc32 (crc32 (low32 c) (entry_header e)) e.body) crlf))

  pub header_crc_fits : (h : Header) → fits (2 ^ 63) (header_crc crc32 h) ≡ true
  unfolding header_crc
  header_crc_fits h = lt→fits _ (2 ^ 63) (omega (arith, crc_small 0 (page_header h)))

  -- where an entry stands that has `xs` before it
  abbrev pub place : LogPage → List Entry → ℕ
  place p xs =
      length (header_text crc32 (header_of p))
      + length (entries_text crc32 (header_crc crc32 (header_of p)) xs)

  pub place_pos : (p : LogPage) (xs : List Entry) → 0 < place p xs
  unfolding header_text
  place_pos p xs = omega (
    arith,
    header_pos (header_of p),
    length-append (page_header (header_of p)) (write_signed (header_crc crc32 (header_of p))),
  )

  pub page_seek-place :
      (p : LogPage) (xs ys : List Entry) (e : Entry)
      → IsPage crc32 p (xs ++ e ∷ ys)
      → page_seek p (p.prev_log_idx + length xs + 1) ≡ place p xs
  unfolding page_seek offsets
  page_seek-place p xs ys e r =
      let c = header_crc crc32 (header_of p) in
      let o = length (header_text crc32 (header_of p)) in
      let i : p.prev_log_idx + length xs + 1 - p.prev_log_idx - 1 ≡ length (offsets crc32 o c xs) =
        omega (arith, length-offsets crc32 o c xs) in
      let inside : (leb (p.prev_log_idx + length xs + 1) p.prev_log_idx
            || ltb (p.prev_log_idx + p.num_entries) (p.prev_log_idx + length xs + 1))
          ≡ false =
        ground (arith, r.count, length-append xs (e ∷ ys)) in
      rw (inside, i, r.cells, offsets-append crc32 o c xs (e ∷ ys), get_elem?-append_middle) refl

  pub drop-place :
      (p : LogPage) (xs ys : List Entry)
      → IsPage crc32 p (xs ++ ys)
      → let crc = crc_after crc32 (header_crc crc32 (header_of p)) xs in
        (drop (place p xs) p.file ≡ entries_text crc32 crc ys)
        × (take (place p xs) p.file
            ≡ header_text crc32 (header_of p)
              ++ entries_text crc32 (header_crc crc32 (header_of p)) xs)
  drop-place p xs ys r =
      let c = header_crc crc32 (header_of p) in
      let front = header_text crc32 (header_of p) ++ entries_text crc32 c xs in
      let size : place p xs ≡ length front =
        sym (length-append (header_text crc32 (header_of p)) (entries_text crc32 c xs)) in
      let split : p.file ≡ front ++ entries_text crc32 (crc_after crc32 c xs) ys =
        r.text
        ∙ ap (λ t. header_text crc32 (header_of p) ++ t) (entries_text-append crc32 c xs ys)
        ∙ sym (append_assoc (header_text crc32 (header_of p)) (entries_text crc32 c xs) _) in
      rw (size, split) (drop-append front _, take-append front _)

  pub read_entry-place :
      (p : LogPage) (xs ys : List Entry) (e : Entry)
      → IsPage crc32 p (xs ++ e ∷ ys)
      → let crc = entry_crc crc32 (crc_after crc32 (header_crc crc32 (header_of p)) xs) e in
        read_entry (drop (place p xs) p.file) ≡ some ((e, crc), entries_text crc32 crc ys)
  unfolding entries_text
  read_entry-place p xs ys e r =
      let crc = crc_after crc32 (header_crc crc32 (header_of p)) xs in
      rw ((drop-place p xs (e ∷ ys) r).0) (
        read_entry-with e (entry_crc crc32 crc e) _ (AllEntries-back xs (e ∷ ys) r.entries).0
          (entry_crc_fits crc e))

  page_get-inside :
      (p : LogPage) (xs ys : List Entry) (e : Entry)
      → IsPage crc32 p (xs ++ e ∷ ys)
      → page_get p (p.prev_log_idx + length xs + 1) ≡ some (some e)
  unfolding page_get
  page_get-inside p xs ys e r =
      let nonzero : (place p xs == 0) ≡ false = ground (arith, place_pos p xs) in
      rw (page_seek-place p xs ys e r, nonzero, read_entry-place p xs ys e r) refl

  page_get-outside :
      (p : LogPage) (idx : ℕ)
      → (leb idx p.prev_log_idx || ltb (p.prev_log_idx + p.num_entries) idx) ≡ true
      → page_get p idx ≡ some none
  unfolding page_get page_seek
  page_get-outside p idx h = rw h refl

  -- On a page that holds entries, `pageGet` fails no assertion; it returns the entry at the log index, and NULL
  -- for an index before or behind the entries.
  pub page_get_refines :
      (p : LogPage) (es : List Entry) (idx : ℕ)
      → IsPage crc32 p es
      → page_get p idx ≡ some (entry_at p.prev_log_idx es idx)
  unfolding entry_at
  page_get_refines p es idx r = elim (Bool-cases (leb idx p.prev_log_idx)) [
    | inl before ↦ rw before (page_get-outside p idx (ground (arith, before)))
    | inr behind ↦ elim (Option-cases (get_elem? es (idx - p.prev_log_idx - 1))) [
      | inl e ↦
          rw (behind, e)
            (page_get-outside p idx
              (ground (arith, behind, r.count, get_elem?-none es (idx - p.prev_log_idx - 1) e)))
      | inr (a, e) ↦
          let (xs, ys, split, n) = split_around es (idx - p.prev_log_idx - 1) a e in
          let i : idx ≡ p.prev_log_idx + length xs + 1 = ground (arith, n, behind) in
          rw (behind, e)
            (ap (page_get p) i ∙ page_get-inside p xs ys a (subst (IsPage crc32 p) split r))
    ]
  ]

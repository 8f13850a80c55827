-- ===== src/Page/Rep.antt =====
-- When a page holds a list of entries.
use redisraft.Prelude.{
  ℕ, ◌+◌, ◌≡◌, refl, sym, true, some, List, [], ◌∷◌, ◌++◌, length, arith, append-nil,
}
use redisraft.Wire.{Bytes}
use redisraft.Page.{
  header_of, Entry, LogPage, Header, header_crc, page_create, page_write_header, fresh_page,
}
use redisraft.Page.Text.{IsEntry, IsHeader}
use redisraft.Page.Spec.{entries_text, offsets, crc_after, header_text}

abbrev pub AllEntries : List Entry → Type 0
AllEntries [] = Unit
AllEntries (e ∷ es) = IsEntry e × AllEntries es

pub AllEntries-append : (xs ys : List Entry) → AllEntries xs → AllEntries ys → AllEntries (xs ++ ys)
AllEntries-append [] ys h k = k
AllEntries-append (x ∷ xs) ys h k = (h.0, AllEntries-append xs ys h.1 k)

pub AllEntries-front : (xs ys : List Entry) → AllEntries (xs ++ ys) → AllEntries xs
AllEntries-front [] ys h = tt
AllEntries-front (x ∷ xs) ys h = (h.0, AllEntries-front xs ys h.1)

pub AllEntries-back : (xs ys : List Entry) → AllEntries (xs ++ ys) → AllEntries ys
AllEntries-back [] ys h = h
AllEntries-back (x ∷ xs) ys h = AllEntries-back xs ys h.1

module _ (crc32 : ℕ → Bytes → ℕ) where
  -- The files hold the header and the entries, and the counters agree with them.
  pub record IsPage (p : LogPage) (es : List Entry) : Type 0 where
    pub header : IsHeader (header_of p)
    pub entries : AllEntries es
    pub text :
        p.file
        ≡ header_text crc32 (header_of p) ++ entries_text crc32 (header_crc crc32 (header_of p)) es
    pub cells :
        p.idxfile
        ≡ offsets crc32
            (length (header_text crc32 (header_of p)))
            (header_crc crc32 (header_of p))
            es
    pub count : p.num_entries ≡ length es
    pub last : p.index ≡ p.prev_log_idx + length es
    pub crc : p.current_crc ≡ crc_after crc32 (header_crc crc32 (header_of p)) es

  -- A page that is created holds no entries.
  pub page_create-IsPage :
      (h : Header)
      → IsHeader h
      → (p : LogPage) × (page_create crc32 true h ≡ some p) × (header_of p ≡ h) × IsPage p []
  unfolding page_create page_write_header entries_text offsets crc_after header_text
  page_create-IsPage h proper = (
    record (fresh_page h []) { file = header_text crc32 h; current_crc = header_crc crc32 h },
    refl,
    refl,
    record {
      header = proper;
      entries = tt;
      text = sym (append-nil _);
      cells = refl;
      count = refl;
      last = omega arith;
      crc = refl;
    },
  )

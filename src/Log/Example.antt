-- ===== src/Log/Example.antt =====
-- A log of two entries on one page, and one of four on two pages.
use redisraft.Prelude.{
  ℕ, zero, suc, ◌+◌, ◌%◌, ◌^◌, ◌<◌, refl, none, some, List, [], ◌∷◌, ◌++◌, length, replicate, arith,
  pos,
}
use redisraft.Wire.{Bytes}
use redisraft.NodeAddr.Parse.{NoNul}
use redisraft.Page.{Entry, LogPage, Header, header_crc}
use redisraft.Page.Text.{IsEntry, IsHeader}
use redisraft.Page.Spec.{header_text, entries_text, offsets, crc_after}
use redisraft.Page.Rep.{IsPage, AllEntries}
use redisraft.Log.{Log, fresh_log}
use redisraft.Log.Rep.{IsLog}

-- a checksum: the bytes are counted
abbrev pub counted : ℕ → Bytes → ℕ
counted c s = (c + length s) % 2 ^ 32

pub counted_small : (c : ℕ) (s : Bytes) → counted c s < 2 ^ 32
counted_small c s = omega arith

abbrev pub header_at : ℕ → Header
header_at idx = record {
  dbid = replicate 32 97;
  node_id = pos 1;
  prev_log_term = pos 2;
  prev_log_idx = idx;
}

replicate-NoNul : (n : ℕ) → NoNul (replicate n 97)
replicate-NoNul zero = tt
replicate-NoNul (suc n) = ((λ e. omega arith), replicate-NoNul n)

pub header_at-IsHeader : (idx : ℕ) → idx < 2 ^ 63 → IsHeader (header_at idx)
header_at-IsHeader idx h = record {
  dbid_length = refl;
  dbid_string = replicate-NoNul 32;
  node_fits = refl;
  term_fits = refl;
  idx_fits = h;
}

abbrev pub entry : ℕ → Entry
entry c = record { term = pos 2; id = pos 77; session = 0; type = pos 0; body = c ∷ c ∷ [] }

pub entry-IsEntry : (c : ℕ) → IsEntry (entry c)
entry-IsEntry c = record {
  term_fits = refl;
  id_fits = refl;
  session_fits = omega arith;
  type_fits = refl;
  body_fits = omega arith;
}

-- the page that holds these entries
abbrev pub page_of : Header → List Entry → LogPage
page_of h es = record {
  dbid = h.dbid;
  node_id = h.node_id;
  prev_log_term = h.prev_log_term;
  prev_log_idx = h.prev_log_idx;
  num_entries = length es;
  index = h.prev_log_idx + length es;
  file = header_text counted h ++ entries_text counted (header_crc counted h) es;
  idxfile = offsets counted (length (header_text counted h)) (header_crc counted h) es;
  current_crc = crc_after counted (header_crc counted h) es;
}

pub page_of-IsPage :
    (h : Header) (es : List Entry) → IsHeader h → AllEntries es → IsPage counted (page_of h es) es
page_of-IsPage h es proper all = record {
  header = proper;
  entries = all;
  text = refl;
  cells = refl;
  count = refl;
  last = refl;
  crc = refl;
}

abbrev pub two : List Entry
two = entry 65 ∷ entry 66 ∷ []

pub two-AllEntries : AllEntries two
two-AllEntries = (entry-IsEntry 65, (entry-IsEntry 66, tt))

abbrev pub one_page : Log
one_page = fresh_log (page_of (header_at 5) two) none

pub one_page-IsLog : IsLog counted one_page two
one_page-IsLog = (
  two,
  [],
  refl,
  record {
    first = page_of-IsPage (header_at 5) two (header_at-IsHeader 5 (omega arith)) two-AllEntries;
    second = refl;
  },
)

abbrev pub two_pages : Log
two_pages = fresh_log (page_of (header_at 5) two) (some (page_of (header_at 7) two))

pub two_pages-IsLog : IsLog counted two_pages (two ++ two)
two_pages-IsLog = (
  two,
  two,
  refl,
  record {
    first = page_of-IsPage (header_at 5) two (header_at-IsHeader 5 (omega arith)) two-AllEntries;
    second = (
      page_of-IsPage (header_at 7) two (header_at-IsHeader 7 (omega arith)) two-AllEntries,
      record { subsequent = refl; same_dbid = refl; same_node = refl },
    );
  },
)

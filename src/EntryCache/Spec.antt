-- ===== src/EntryCache/Spec.antt =====
-- What the cache stands for: a run of consecutive log entries, the first at index `first`, which is
-- 0 where there are none.
use redisraft.Prelude.{
  ℕ, suc, ◌+◌, ◌-◌, Option, none, some, List, [], ◌∷◌, ◌++◌, ltb, ◌==◌, if◌then◌else◌, length,
  get_elem?, take, drop,
}
use redisraft.EntryCache.{Entry}

pub record Segment : Type 0 where
  pub first : ℕ
  pub items : List Entry

-- the entry at a log index
unfoldable pub at_index : Segment → ℕ → Option Entry
at_index s idx = if ltb idx s.first then none else get_elem? s.items (idx - s.first)

abbrev pub normal : ℕ → List Entry → Segment
normal first [] = record { first = 0; items = [] }
normal first (e ∷ es) = record { first = first; items = e ∷ es }

-- One more entry, at the next index; the first entry of an empty run may have any.
unfoldable pub push : Segment → Entry → ℕ → Option Segment
push s e idx =
    let first = if s.first == 0 then idx else s.first in
    if first + length s.items == idx
    then some (record { first = first; items = s.items ++ e ∷ [] })
    else none

-- the run without its first `n` entries
unfoldable pub drop_first : ℕ → Segment → Segment
drop_first n s = normal (s.first + n) (drop n s.items)

-- the run with its first `n` entries alone
unfoldable pub keep_first : ℕ → Segment → Segment
keep_first n s = normal s.first (take n s.items)

module _ (header : ℕ) where
  -- bytes that entries take
  abbrev pub total : List Entry → ℕ
  total [] = 0
  total (e ∷ es) = header + length e.body + total es

  -- how many entries have to go until at most `limit` bytes are left
  unfoldable pub excess : ℕ → List Entry → ℕ
  excess limit [] = 0
  excess limit (e ∷ es) =
      let more = excess limit es in if ltb limit (total (e ∷ es)) then suc more else 0

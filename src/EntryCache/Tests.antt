-- ===== src/EntryCache/Tests.antt =====
-- A full cache that goes round the end of its array.
use redisraft.Prelude.{
  pos, replicate, ℕ, zero, suc, ◌+◌, ◌<◌, ◌≡◌, refl, some, none, [], ◌∷◌, arith, get_elem?,
}
use redisraft.RaftEntry.{Entry}
use redisraft.EntryCache.{EntryCache, new, write}
use redisraft.EntryCache.Spec.{Segment}
use redisraft.EntryCache.Rep.{wrap, Rep, new-Rep}

abbrev entry_of : ℕ → ℕ → Entry
entry_of id data_len = record {
  term = pos 1;
  id = pos id;
  session = 0;
  type = pos 0;
  body = replicate data_len 65;
}

abbrev first_entry : Entry
first_entry = entry_of 1 5

abbrev second_entry : Entry
second_entry = entry_of 2 6

-- indices 10 and 11; the first entry stands at the end of the array, the second at its start
abbrev full : EntryCache
full = record {
  size = 2;
  len = 2;
  start_idx = 10;
  start = 1;
  entries_memsize = 27;
  ptrs = write (write (λ _. none) 1 (some first_entry)) 0 (some second_entry);
}

abbrev run : Segment
run = record { first = 10; items = first_entry ∷ second_entry ∷ [] }

full-Rep : Rep 8 full run
full-Rep = record {
  start_in = omega arith;
  fits = omega arith;
  count = refl;
  first = refl;
  memory = refl;
  bounded = omega arith;
  cells = cells_of;
}
  where
    cells_of : (i : ℕ) → i < 2 → full.ptrs (wrap 2 (1 + i)) ≡ get_elem? run.items i
    cells_of zero h = refl
    cells_of (suc zero) h = refl
    cells_of (suc (suc i)) h = absurd (omega arith)

new-Rep_example : Rep 8 (new 512) (record { first = 0; items = [] })
new-Rep_example = new-Rep 8 512 (omega arith)

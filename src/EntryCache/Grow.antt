-- ===== src/EntryCache/Grow.antt =====
-- `EntryCacheAppend` and `EntryCacheGet` against the run of entries.
use redisraft.Prelude.{
  ==_iff, ◌==◌, ℕ, ◌+◌, ◌-◌, ◌%◌, ◌<◌, ◌≡◌, refl, Option, none, some, [], ◌∷◌, ◌++◌, arith,
  if◌then◌else◌, length-append, get_elem?-append_left, get_elem?-append_last, get_elem?-beyond,
  Bool-cases, inl, inr,
}
use redisraft.EntryCache.{write, entry_size, Entry, EntryCache, ulong_max, enlarge, append, get}
use redisraft.EntryCache.Spec.{Segment, total, at_index, push}
use redisraft.EntryCache.Rep.{Rep, mod-eq-wrap, total-append}

module _ (header : ℕ) where
  -- On a cache that represents a run of entries, `EntryCacheGet` returns the entry at a log index, and NULL outside the run.
  pub get_refines :
      (c : EntryCache) (s : Segment) (idx : ℕ) → Rep header c s → get header c idx ≡ at_index s idx
  unfolding get at_index
  get_refines c s idx r =
      let i = idx - c.start_idx in
      ground (arith, mod-eq-wrap c.start i c.size, r.cells i, get_elem?-beyond s.items i)

  -- Doubling the array moves what had gone round the end behind the old end.
  enlarge-Rep :
      (garbage : ℕ → Option Entry) (c : EntryCache) (s : Segment)
      → Rep header c s
      → c.len ≡ c.size
      → Rep header (enlarge garbage c) s
  unfolding enlarge
  enlarge-Rep garbage c s r full = record {
    start_in = omega arith;
    fits = omega arith;
    count = r.count;
    first = r.first;
    memory = r.memory;
    bounded = r.bounded;
    cells = λ i k. ground (arith, r.cells i);
  }

  enlarge-room :
      (garbage : ℕ → Option Entry) (c : EntryCache)
      → 0 < c.size
      → c.len ≡ c.size
      → (enlarge garbage c).len < (enlarge garbage c).size
  unfolding enlarge
  enlarge-room garbage c h full = omega arith

  abbrev appended : EntryCache → ℕ → Entry → EntryCache
  appended c idx ety = record c {
    start_idx = idx;
    ptrs = write c.ptrs ((c.start + c.len) % c.size) (some ety);
    len = c.len + 1;
    entries_memsize = (c.entries_memsize + entry_size header ety) % ulong_max;
  }

  appended-Rep :
      (c : EntryCache) (s : Segment) (ety : Entry) (idx : ℕ)
      → Rep header c s
      → c.len < c.size
      → total header s.items + entry_size header ety < ulong_max
      → Rep header (appended c idx ety) (record { first = idx; items = s.items ++ ety ∷ [] })
  appended-Rep c s ety idx r room small = record {
    start_in = r.start_in;
    fits = omega arith;
    count = omega (arith, r.count, length-append s.items (ety ∷ []));
    first = refl;
    memory = omega (arith, r.memory, total-append header s.items (ety ∷ []));
    bounded = omega (arith, total-append header s.items (ety ∷ []));
    cells = λ i k. ground (
      arith,
      mod-eq-wrap c.start c.len c.size,
      r.cells i,
      get_elem?-append_left s.items (ety ∷ []) i,
      get_elem?-append_last s.items ety,
    );
  }

  -- Both are refused, or both succeed and the new cache represents the new run.
  abbrev pub RepOption : Option EntryCache → Option Segment → Type 0
  RepOption none none = Unit
  RepOption (some c) (some s) = Rep header c s
  RepOption none (some s) = ⊥
  RepOption (some c) none = ⊥

  -- On a cache that represents a run of entries, `EntryCacheAppend` puts the entry behind the run, growing the array where it is full, and its
  -- assertion fails exactly where the index is not the next one; what `realloc` leaves in the new
  -- memory does not matter, as long as the entries' sizes add up to less than 2^64.
  pub append_refines :
      (garbage : ℕ → Option Entry) (c : EntryCache) (s : Segment) (ety : Entry) (idx : ℕ)
      → Rep header c s
      → total header s.items + entry_size header ety < ulong_max
      → RepOption (append header garbage c ety idx) (push s ety idx)
  unfolding append push
  append_refines garbage c s ety idx r small =
      let first = if c.start_idx == 0 then idx else c.start_idx in
      rw (← r.first, r.count)
        (elim (Bool-cases (first + c.len == idx)) [
          | inl next ↦ elim (Bool-cases (c.len == c.size)) [
            | inl full ↦
                rw (next, full)
                  (appended-Rep (enlarge garbage c) s ety first
                    (enlarge-Rep garbage c s r ((==_iff c.len c.size).0 full))
                    (enlarge-room garbage c (omega arith) ((==_iff c.len c.size).0 full)) small)
            | inr room ↦ rw (next, room) (appended-Rep c s ety first r (ground arith) small)
          ]
          | inr gap ↦ rw gap tt
        ])

-- ===== src/EntryCache/Shrink.antt =====
-- `EntryCacheDeleteHead`, `EntryCacheCompact` and `EntryCacheDeleteTail` against the run of entries.
use native.Mathlib.Nat.{add-zero}
use redisraft.Prelude.{
  ap, ◌∙◌, min, ◌&&◌, ◌==◌, ◌⊎◌, ℕ, zero, suc, ◌+◌, ◌-◌, ◌≤◌, ◌<◌, ◌≡◌, refl, none, some, List, [],
  ◌∷◌, arith, ltb, if◌then◌else◌, length, take, drop, true, false, Bool, Bool-cases, inl, inr,
}
use redisraft.EntryCache.{
  reset_if_empty, leb, write, less_memory, Entry, EntryCache, pop_head, pop_while, delete_head,
  compact,
}
use redisraft.EntryCache.Spec.{drop_first, excess, normal, Segment, total}
use redisraft.EntryCache.Rep.{Rep}

module _ (header : ℕ) where
  abbrev popped : EntryCache → Entry → EntryCache
  popped c ety = record c {
    entries_memsize = less_memory header c.entries_memsize ety;
    start_idx = c.start_idx + 1;
    ptrs = write c.ptrs c.start none;
    start = if leb c.size (c.start + 1) then 0 else c.start + 1;
    len = c.len - 1;
  }

  popped-Rep :
      (c : EntryCache) (first : ℕ) (e : Entry) (es : List Entry)
      → Rep header c (record { first = first; items = e ∷ es })
      → Rep header (popped c e) (record { first = first + 1; items = es })
  popped-Rep c first e es r = record {
    start_in = ground (arith, r.start_in);
    fits = ground (arith, r.fits);
    count = ground (arith, r.count);
    first = ground (arith, r.first);
    memory = ground (arith, r.memory, r.bounded);
    bounded = ground (arith, r.bounded);
    cells = λ i k. ground (arith, r.cells (suc i), r.count, r.fits, r.start_in);
  }

  pop_head-eq :
      (c : EntryCache) (first : ℕ) (e : Entry) (es : List Entry)
      → Rep header c (record { first = first; items = e ∷ es })
      → pop_head header c ≡ some (popped c e, e)
  unfolding pop_head
  pop_head-eq c first e es r = ground (arith, r.cells 0, r.count, r.start_in)

  pub reset-Rep :
      (c : EntryCache) (first : ℕ) (items : List Entry)
      → Rep header c (record { first = first; items = items })
      → Rep header (reset_if_empty c) (normal first items)
  reset-Rep c first [] r = rw r-empty (record {
    start_in = r.start_in;
    fits = r.fits;
    count = r.count;
    first = refl;
    memory = r.memory;
    bounded = r.bounded;
    cells = r.cells;
  })
    where
      r-empty : (c.len == 0) ≡ true
      r-empty = ground (arith, r.count)
  reset-Rep c first (e ∷ es) r = rw r-some r
    where
      r-some : (c.len == 0) ≡ false
      r-some = ground (arith, r.count)

  no_entries : (b : Bool) (n : ℕ) → 0 ≡ n → (b && ltb 0 n) ≡ false
  no_entries b n h = ground arith

  stopped : (a b : Bool) → a ≡ false → (a && b) ≡ false
  stopped a b h = ground arith

  -- A loop that removes entries from the front, with the number of its rounds.
  module _ (more : EntryCache → Bool) (rounds : ℕ → List Entry → ℕ) where
    abbrev Goes : Type 0
    Goes =
        (c : EntryCache) (first : ℕ) (e : Entry) (es : List Entry)
        → Rep header c (record { first = first; items = e ∷ es })
        → ((more c ≡ true) × (rounds first (e ∷ es) ≡ suc (rounds (first + 1) es)))
          ⊎ ((more c ≡ false) × (rounds first (e ∷ es) ≡ 0))

    abbrev Popped : EntryCache → ℕ → List Entry → ℕ → ℕ → Type 0
    Popped c first items fuel n =
        (c' : EntryCache) × (pop_while header more fuel c ≡ some (c', take n items))
        × Rep header c' (record { first = first + n; items = drop n items })

    stop_step :
        (fuel : ℕ) (c : EntryCache)
        → (more c && ltb 0 c.len) ≡ false
        → pop_while header more (suc fuel) c ≡ some (c, [])
    unfolding pop_while
    stop_step fuel c h = ground arith

    go_step :
        (fuel : ℕ) (c c' end : EntryCache) (e : Entry) (released : List Entry)
        → more c ≡ true
        → 0 < c.len
        → pop_head header c ≡ some (c', e)
        → pop_while header more fuel c' ≡ some (end, released)
        → pop_while header more (suc fuel) c ≡ some (end, e ∷ released)
    unfolding pop_while
    go_step fuel c c' end e released m l p q = ground arith

    pop_while-Popped :
        Goes
        → ((first : ℕ) → rounds first [] ≡ 0)
        → (fuel : ℕ) (c : EntryCache) (first : ℕ) (items : List Entry) → length items < fuel
        → Rep header c (record { first = first; items = items })
        → Popped c first items fuel (rounds first items)
    pop_while-Popped goes stops zero c first items h r = absurd (omega arith)
    pop_while-Popped goes stops (suc fuel) c first [] h r =
        rw (stops first) (c, stop_step fuel c (no_entries (more c) c.len r.count), rw add-zero r)
    pop_while-Popped goes stops (suc fuel) c first (e ∷ es) h r = elim (goes c first e es r) [
      | inl go ↦ rw go.1 (
          let (c', runs, rep) =
            pop_while-Popped goes stops fuel (popped c e) (first + 1) es (omega arith)
              (popped-Rep c first e es r) in
          let sum : first + 1 + rounds (first + 1) es ≡ first + suc (rounds (first + 1) es) =
            omega arith in
          (
            c',
            go_step fuel c (popped c e) c' e _ go.0 (omega (arith, r.count))
                (pop_head-eq c first e es r) runs,
            rw (← sum) rep,
          ))
      | inr stop ↦
          rw stop.1 (c, stop_step fuel c (stopped (more c) (ltb 0 c.len) stop.0), rw add-zero r)
    ]

  -- Up to index `n`: the loop of `EntryCacheDeleteHead`.
  head_Goes :
      (n : ℕ) → Goes (λ c. ltb c.start_idx n) (λ first items. min (n - first) (length items))
  head_Goes n c first e es r = elim (Bool-cases (ltb c.start_idx n)) [
    | inl go ↦ inl (go, ground (arith, r.first))
    | inr stop ↦ inr (stop, ground (arith, r.first))
  ]

  -- On a cache that represents a run of entries,
  -- `EntryCacheDeleteHead(n)` refuses an index before the run and then changes nothing; otherwise it
  -- always ends, releases the entries before index `n` (all of them if `n` is behind the run), in order and
  -- no others, and leaves the rest of the run.
  pub delete_head_refines :
      (c : EntryCache) (s : Segment) (n : ℕ)
      → Rep header c s
      → let k = min (n - s.first) (length s.items) in
        (c' : EntryCache) × (delete_head header c n
          ≡ some (c', if ltb n s.first then none else some (take k s.items)))
        × Rep header c' (if ltb n s.first then s else drop_first k s)
  unfolding delete_head drop_first
  delete_head_refines c s n r = elim (Bool-cases (ltb n s.first)) [
    | inl before ↦
        let before' : ltb n c.start_idx ≡ true = ground (arith, r.first) in
        rw (before, before') (c, refl, r)
    | inr within ↦
        let within' : ltb n c.start_idx ≡ false = ground (arith, r.first) in
        let (c', runs, rep) =
          pop_while-Popped (λ c. ltb c.start_idx n) (λ first items. min (n - first) (length items))
            (head_Goes n) (λ first. omega arith) (c.len + 1) c s.first s.items
            (omega (arith, r.count)) r in
        rw (within, within', runs) (reset_if_empty c', refl, reset-Rep c' _ _ rep)
  ]

  memory_Goes :
      (limit : ℕ)
      → Goes (λ c. ltb limit c.entries_memsize) (λ first items. excess header limit items)
  unfolding excess
  memory_Goes limit c first e es r = elim (Bool-cases (ltb limit (total header (e ∷ es)))) [
    | inl go ↦ inl (rw (r.memory, go) refl, rw go refl)
    | inr stop ↦ inr (rw (r.memory, stop) refl, rw stop refl)
  ]

  before_cons :
      (limit : ℕ) (e : Entry) (es : List Entry) (n : ℕ)
      → limit < total header (e ∷ es)
      → ((j : ℕ) → j < n → limit < total header (drop j es))
      → (j : ℕ) → j < suc n
      → limit < total header (drop j (e ∷ es))
  before_cons limit e es n h all zero k = h
  before_cons limit e es n h all (suc j) k = all j (omega arith)

  -- The number of entries to remove is the least that brings the total to the limit.
  pub excess_least :
      (limit : ℕ) (items : List Entry)
      → (total header (drop (excess header limit items) items) ≤ limit)
        × ((j : ℕ) → j < excess header limit items → limit < total header (drop j items))
  unfolding excess
  excess_least limit [] = (omega arith, λ j h. absurd (omega arith))
  excess_least limit (e ∷ es) = elim (Bool-cases (ltb limit (total header (e ∷ es)))) [
    | inl go ↦ rw go (
      (excess_least limit es).0,
      before_cons limit e es _ (ground arith) (excess_least limit es).1,
    )
    | inr stop ↦ rw stop (ground arith, λ j h. absurd (omega arith))
  ]

  excess-nil : (limit : ℕ) → excess header limit [] ≡ 0
  unfolding excess
  excess-nil limit = refl

  items-normal : (first : ℕ) (items : List Entry) → (normal first items).items ≡ items
  items-normal first [] = refl
  items-normal first (e ∷ es) = refl

  -- On a cache that represents a run of entries,
  -- `EntryCacheCompact(limit)` always ends; it releases the least number of entries from the front, in order, that brings the
  -- counted memory to the limit, and leaves the rest of the run.
  pub compact_refines :
      (c : EntryCache) (s : Segment) (limit : ℕ)
      → Rep header c s
      → (c' : EntryCache) × (k : ℕ) × (compact header c limit ≡ some (c', take k s.items))
        × Rep header c' (drop_first k s)
        × (c'.entries_memsize ≤ limit)
        × ((j : ℕ) → j < k → limit < total header (drop j s.items))
  unfolding compact drop_first
  compact_refines c s limit r =
      let k = excess header limit s.items in
      let (c', runs, rep) =
        pop_while-Popped (λ c. ltb limit c.entries_memsize)
          (λ first items. excess header limit items) (memory_Goes limit) (λ _. excess-nil limit)
          (c.len + 1) c s.first s.items (omega (arith, r.count)) r in
      let end : Rep header (reset_if_empty c') (normal (s.first + k) (drop k s.items)) =
        reset-Rep c' _ _ rep in
      (
        reset_if_empty c',
        k,
        rw runs refl,
        end,
        small c' k end (excess_least limit s.items).0,
        (excess_least limit s.items).1,
      )
    where
      small :
          (c' : EntryCache) (k : ℕ)
          → Rep header (reset_if_empty c') (normal (s.first + k) (drop k s.items))
          → total header (drop k s.items) ≤ limit
          → (reset_if_empty c').entries_memsize ≤ limit
      small c' k end h =
          rw (end.memory ∙ ap (total header) (items-normal (s.first + k) (drop k s.items))) h

-- ===== src/EntryCache/Tail.antt =====
-- `EntryCacheDeleteTail` against the run of entries.
use mathlib.Core.Path.{subst}
use redisraft.Prelude.{
  length-drop, get_elem?-lt, get_elem?-take, sym, ◌∙◌, length-take_of_le, drop-all, ap,
  drop-eq_cons, ℕ, zero, suc, ◌+◌, ◌-◌, ◌%◌, ◌≤◌, ◌<◌, ◌≡◌, refl, none, some, List, [], ◌∷◌, arith,
  ltb, if◌then◌else◌, length, get_elem?, take, drop, true, false, Bool-cases, inl, inr,
}
use redisraft.EntryCache.{
  leb, Entry, EntryCache, ulong_max, write, reset_if_empty, less_memory, clear_from, delete_tail,
}
use redisraft.EntryCache.Spec.{Segment, total, keep_first}
use redisraft.EntryCache.Rep.{Rep, wrap, mod-eq-wrap}
use redisraft.EntryCache.Shrink.{reset-Rep}

module _ (header : ℕ) (items : List Entry) (k : ℕ) where
  -- The entries from `k` to `m` have been cleared.
  record Cleared (c : EntryCache) (m : ℕ) : Type 0 where
    start_in : c.start < c.size
    fits : c.len ≤ c.size
    count : length items ≡ c.len
    memory : c.entries_memsize ≡ total header (take k items) + total header (drop m items)
    bounded : total header (take k items) + total header (drop m items) < ulong_max
    kept : (i : ℕ) → i < k → c.ptrs (wrap c.size (c.start + i)) ≡ get_elem? items i
    left : (i : ℕ) → m ≤ i → i < c.len → c.ptrs (wrap c.size (c.start + i)) ≡ get_elem? items i

  abbrev cleared : EntryCache → ℕ → Entry → EntryCache
  cleared c m ety = record c {
    entries_memsize = less_memory header c.entries_memsize ety;
    ptrs = write c.ptrs ((c.start + m) % c.size) none;
  }

  cleared-Cleared :
      (c : EntryCache) (m : ℕ) (e : Entry)
      → k ≤ m
      → m < c.len
      → get_elem? items m ≡ some e
      → Cleared c m
      → Cleared (cleared c m e) (suc m)
  cleared-Cleared c m e low high found r =
      let next = drop-eq_cons items m e found in
      let sum : total header (drop m items)
          ≡ header + length e.body + total header (drop (suc m) items) =
        ap (total header) next in
      record {
        start_in = r.start_in;
        fits = r.fits;
        count = r.count;
        memory = omega (arith, r.memory, r.bounded, sum);
        bounded = omega (arith, r.bounded, sum);
        kept = λ i h. ground (arith, r.kept i, mod-eq-wrap c.start m c.size, r.fits, r.start_in);
        left = λ i l h. ground (arith, r.left i, mod-eq-wrap c.start m c.size, r.fits, r.start_in);
      }

  clear_from-Cleared :
      (rounds m : ℕ) (c : EntryCache)
      → k ≤ m
      → m + rounds ≡ c.len
      → Cleared c m
      → (c' : EntryCache) × (clear_from header rounds (c.start_idx + m) c ≡ some (c', drop m items))
        × Cleared c' c.len
        × (c'.start_idx ≡ c.start_idx)
        × (c'.len ≡ c.len)
  unfolding clear_from
  clear_from-Cleared zero m c low sum r =
      let e : m ≡ c.len = omega arith in
      (c, rw (drop-all items m (omega (arith, r.count))), subst (λ n. Cleared c n) e r, refl, refl)
  clear_from-Cleared (suc rounds) m c low sum r =
      let (e, found) = get_elem?-lt items m (omega (arith, r.count)) in
      let cell : c.ptrs ((c.start + m) % c.size) ≡ some e =
        ground (arith, found, r.left m, mod-eq-wrap c.start m c.size, r.fits, r.start_in) in
      let (c', runs, done, first, len) =
        clear_from-Cleared rounds (suc m) (cleared c m e) (omega arith) (omega arith)
          (cleared-Cleared c m e low (omega arith) found r) in
      let back : c.start_idx + m - c.start_idx ≡ m = omega arith in
      let on : c.start_idx + m + 1 ≡ c.start_idx + suc m = omega arith in
      (c', rw (back, cell, on, runs, drop-eq_cons items m e found), done, first, len)

module _ (header : ℕ) where
  total-split :
      (k : ℕ) (items : List Entry)
      → total header (take k items) + total header (drop k items) ≡ total header items
  total-split zero items = omega arith
  total-split (suc k) [] = omega arith
  total-split (suc k) (e ∷ es) = omega (arith, total-split k es)

  Rep-Cleared :
      (c : EntryCache) (s : Segment) (k : ℕ)
      → Rep header c s
      → k ≤ c.len
      → Cleared header s.items k c k
  Rep-Cleared c s k r h = record {
    start_in = r.start_in;
    fits = r.fits;
    count = r.count;
    memory = omega (arith, r.memory, total-split k s.items);
    bounded = omega (arith, r.bounded, total-split k s.items);
    kept = λ i l. r.cells i (omega arith);
    left = λ i l m. r.cells i m;
  }

  -- the end of `EntryCacheDeleteTail`
  Cleared-Rep :
      (c : EntryCache) (items : List Entry) (k first : ℕ)
      → Cleared header items k c c.len
      → k ≤ c.len
      → c.start_idx ≡ first
      → Rep header (record c { len = k }) (record { first = first; items = take k items })
  Cleared-Rep c items k first r h f = record {
    start_in = r.start_in;
    fits = omega (arith, r.fits);
    count = length-take_of_le items k (omega (arith, r.count));
    first = f;
    memory = omega (arith, r.memory, none_left);
    bounded = omega (arith, r.bounded);
    cells = λ i l. r.kept i l ∙ sym (get_elem?-take items k i l);
  }
    where
      none_left : total header (drop c.len items) ≡ 0
      none_left = rw (drop-all items c.len (omega (arith, r.count)))

  -- On a cache that represents a run of entries,
  -- `EntryCacheDeleteTail(n)` refuses an index behind the run and then changes nothing; otherwise it
  -- always ends, releases in order the entries from index `n` on (all of them if `n` is before the
  -- run) and no others, and leaves those before `n`.
  pub delete_tail_refines :
      (c : EntryCache) (s : Segment) (n : ℕ)
      → Rep header c s
      → let k = n - s.first in
        let beyond = leb (s.first + length s.items) n in
        (c' : EntryCache) × (delete_tail header c n
          ≡ some (c', if beyond then none else some (drop k s.items)))
        × Rep header c' (if beyond then s else keep_first k s)
  unfolding delete_tail keep_first
  delete_tail_refines c s n r = elim (Bool-cases (leb (s.first + length s.items) n)) [
    | inl beyond ↦
        let beyond' : leb (c.start_idx + c.len) n ≡ true = ground (arith, r.first, r.count) in
        rw (beyond, beyond') (c, refl, r)
    | inr within ↦
        let k = n - s.first in
        let within' : leb (c.start_idx + c.len) n ≡ false = ground (arith, r.first, r.count) in
        let low : k ≤ c.len = ground (arith, r.first, r.count) in
        let from : (if ltb n c.start_idx then c.start_idx else n) ≡ c.start_idx + k =
          ground (arith, r.first) in
        let rounds : c.start_idx + c.len - (c.start_idx + k) ≡ c.len - k = omega arith in
        let (c', runs, done, first, len) =
          clear_from-Cleared header s.items k (c.len - k) k c (omega arith) (omega arith)
            (Rep-Cleared c s k r low) in
        let left : c'.len - length (drop k s.items) ≡ k =
          omega (arith, length-drop k s.items, r.count) in
        let all : Cleared header s.items k c' c'.len =
          subst (λ l. Cleared header s.items k c' l) (sym len) done in
        rw (within, within', from, rounds, runs, left)
          (
            reset_if_empty (record c' { len = k }),
            refl,
            reset-Rep header (record c' { len = k }) s.first (take k s.items)
                (Cleared-Rep c' s.items k s.first all (omega arith) (first ∙ r.first)),
          )
  ]

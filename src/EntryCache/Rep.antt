-- ===== src/EntryCache/Rep.antt =====
-- When a cache represents a run of entries.
use native.Mathlib.Nat.{mod-eq_of_lt, mod-eq-sub-mod}
use redisraft.Prelude.{
  ℕ, ◌+◌, ◌-◌, ◌%◌, ◌≤◌, ◌<◌, ◌≡◌, refl, List, [], ◌∷◌, ◌++◌, arith, ltb, if◌then◌else◌, length,
  get_elem?, Bool-cases, inl, inr,
}
use redisraft.EntryCache.{Entry, EntryCache, ulong_max, new}
use redisraft.EntryCache.Spec.{Segment, total}

-- an array index that has gone past the end at most once
abbrev pub wrap : ℕ → ℕ → ℕ
wrap size k = if ltb k size then k else k - size

pub mod-eq-wrap :
    (start i size : ℕ) → start < size → i < size → (start + i) % size ≡ wrap size (start + i)
mod-eq-wrap start i size h k = elim (Bool-cases (ltb (start + i) size)) [
  | inl low ↦ rw low (mod-eq_of_lt (ground arith))
  | inr high ↦ rw high (
      grind (
        arith,
        mod-eq-sub-mod {n = start + i} {m = size},
        mod-eq_of_lt {n = start + i - size} {m = size},
      ))
]

pub total-append :
    (header : ℕ) (xs ys : List Entry) → total header (xs ++ ys) ≡ total header xs + total header ys
total-append header [] ys = omega arith
total-append header (x ∷ xs) ys = omega (arith, total-append header xs ys)

module _ (header : ℕ) where
  pub record Rep (c : EntryCache) (s : Segment) : Type 0 where
    pub start_in : c.start < c.size
    pub fits : c.len ≤ c.size
    pub count : length s.items ≡ c.len
    pub first : c.start_idx ≡ s.first
    pub memory : c.entries_memsize ≡ total header s.items
    pub bounded : total header s.items < ulong_max
    pub cells : (i : ℕ) → i < c.len → c.ptrs (wrap c.size (c.start + i)) ≡ get_elem? s.items i

  -- `EntryCacheNew` represents the empty run.
  pub new-Rep : (n : ℕ) → 0 < n → Rep (new n) (record { first = 0; items = [] })
  unfolding new
  new-Rep n h = record {
    start_in = h;
    fits = omega arith;
    count = refl;
    first = refl;
    memory = refl;
    bounded = omega arith;
    cells = λ i k. absurd (omega arith);
  }

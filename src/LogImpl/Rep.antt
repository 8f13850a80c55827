-- ===== src/LogImpl/Rep.antt =====
-- When the log and its cache hold a list of entries.
use redisraft.Prelude.{
  ℕ, zero, suc, ◌+◌, ◌-◌, ◌≤◌, ◌<◌, ◌≡◌, refl, sym, ap, ◌∙◌, some, List, [], ◌∷◌, length, drop,
  get_elem?, arith, false, ltb, Bool-cases, inl, inr, leb, length-drop, get_elem?-beyond, drop-all,
}
use redisraft.Wire.{Bytes}
use redisraft.RaftEntry.{Entry}
use redisraft.EntryCache.Spec.{Segment, at_index, normal}
use redisraft.EntryCache.Rep.{Rep}
use redisraft.Page.Seek.{entry_at}
use redisraft.Log.{prev_log_index}
use redisraft.Log.Rep.{IsLog}
use redisraft.LogImpl.{Ctx}

-- The run is the end of the entries, from the one numbered `from` on.
pub record IsEnd (s : Segment) (prev : ℕ) (es : List Entry) : Type 0 where
  pub from : ℕ
  pub in_range : from ≤ length es
  pub suffix : s.items ≡ drop from es
  pub empty : length s.items ≡ 0 → s.first ≡ 0
  pub first : 0 < length s.items → s.first ≡ prev + from + 1

pub get_elem?-drop :
    {A : Type 0} (n i : ℕ) (xs : List A) → get_elem? (drop n xs) i ≡ get_elem? xs (n + i)
get_elem?-drop zero i xs = ap (get_elem? xs) (omega arith)
get_elem?-drop (suc n) i [] = refl
get_elem?-drop (suc n) i (x ∷ xs) =
    let e : suc n + i ≡ suc (n + i) = omega arith in rw e (get_elem?-drop n i xs)

-- What is in the run stands at the same log index among the entries.
pub at_index-entry_at :
    (s : Segment) (prev : ℕ) (es : List Entry) (idx : ℕ) (e : Entry)
    → IsEnd s prev es
    → at_index s idx ≡ some e
    → entry_at prev es idx ≡ some e
unfolding at_index entry_at
at_index-entry_at s prev es idx e r h = elim (Bool-cases (ltb idx s.first)) [
  | inl before ↦ absurd (ground (arith, before, h))
  | inr behind ↦
      let found : get_elem? s.items (idx - s.first) ≡ some e = ground (arith, behind, h) in
      elim (Bool-cases (ltb (idx - s.first) (length s.items))) [
        | inr beyond ↦ absurd (
            ground
              (arith, found, get_elem?-beyond s.items (idx - s.first) (ground (arith, beyond))))
        | inl inside ↦
            let some_there : 0 < length s.items = ground (arith, inside) in
            let low : leb idx prev ≡ false = ground (arith, behind, r.first some_there) in
            let i : idx - prev - 1 ≡ r.from + (idx - s.first) =
              ground (arith, behind, r.first some_there) in
            let at_end : get_elem? es (r.from + (idx - s.first)) ≡ some e =
              sym (get_elem?-drop r.from (idx - s.first) es)
              ∙ ap (λ l. get_elem? l (idx - s.first)) (sym r.suffix)
              ∙ found in
            rw (low, i) at_end
      ]
]

-- how long a run at the end is
pub length-IsEnd :
    (s : Segment) (prev : ℕ) (es : List Entry) (r : IsEnd s prev es)
    → length s.items ≡ length es - r.from
length-IsEnd s prev es r = ap length r.suffix ∙ length-drop r.from es

empty_of_length : (zs : List Entry) → length zs ≡ 0 → zs ≡ []
empty_of_length [] h = refl
empty_of_length (z ∷ zs) h = absurd (omega arith)

-- A run without entries is the end of any.
pub empty-IsEnd :
    (s : Segment) (prev : ℕ) (es : List Entry) → length s.items ≡ 0 → s.first ≡ 0 → IsEnd s prev es
empty-IsEnd s prev es h k = record {
  from = length es;
  in_range = omega arith;
  suffix = empty_of_length s.items h ∙ sym (drop-all es (length es) (omega arith));
  empty = λ _. k;
  first = λ l. absurd (omega (arith, h, l));
}

-- A run that starts where the entries `zs` at the end do, and at 0 where there are none.
pub normal-IsEnd :
    (first prev from : ℕ) (zs es : List Entry)
    → from ≤ length es
    → zs ≡ drop from es
    → (0 < length zs → first ≡ prev + from + 1)
    → IsEnd (normal first zs) prev es
normal-IsEnd first prev from [] es low e h = record {
  from = from;
  in_range = low;
  suffix = e;
  empty = λ k. refl;
  first = λ k. absurd (omega (arith, k));
}
normal-IsEnd first prev from (z ∷ zs) es low e h = record {
  from = from;
  in_range = low;
  suffix = e;
  empty = λ k. absurd (omega (arith, k));
  first = h;
}

module _ (header : ℕ) (crc32 : ℕ → Bytes → ℕ) where
  -- The files hold the entries, and the cache the last of them.
  pub record IsCtx (ctx : Ctx) (es : List Entry) : Type 0 where
    pub log : IsLog crc32 ctx.log es
    pub run : Segment
    pub cache : Rep header ctx.logcache run
    pub end : IsEnd run (prev_log_index ctx.log) es

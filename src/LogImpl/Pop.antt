-- ===== src/LogImpl/Pop.antt =====
-- Entries are taken from the end of the cache and of the files.
use redisraft.Prelude.{
  ℕ, zero, suc, ◌+◌, ◌-◌, ◌≤◌, ◌<◌, ◌≡◌, refl, ap, ◌∙◌, some, List, [], ◌∷◌, length, drop, take,
  arith, true, false, ltb, Bool-cases, inl, inr, leb, if◌then◌else◌,
}
use redisraft.Prelude.{◌⊎◌, ◌^◌, take-all, length-take_of_le}
use redisraft.Wire.{Bytes}
use redisraft.RaftEntry.{Entry}
use redisraft.EntryCache.Spec.{Segment, normal}
use redisraft.LogImpl.Rep.{IsCtx, IsEnd, normal-IsEnd, length-IsEnd, empty-IsEnd}
use redisraft.EntryCache.Spec.{keep_first}
use redisraft.EntryCache.Tail.{delete_tail_refines}
use redisraft.Log.{prev_log_index}
use redisraft.Log.Delete.{log_delete_refines}
use redisraft.LogImpl.{Ctx, impl_pop}

take-drop_swap :
    {A : Type 0} (k n : ℕ) (xs : List A) → take k (drop n xs) ≡ drop n (take (n + k) xs)
take-drop_swap k zero xs = ap (λ j. take j xs) (omega arith)
take-drop_swap k (suc n) [] =
    let e : suc n + k ≡ suc (n + k) = omega arith in rw e (take-all [] k (omega arith))
take-drop_swap k (suc n) (x ∷ xs) =
    let e : suc n + k ≡ suc (n + k) = omega arith in rw e (take-drop_swap k n xs)

-- The run without what stands at `from_idx` or behind it.
keep_first-IsEnd :
    (s : Segment) (prev : ℕ) (es : List Entry) (from_idx : ℕ)
    → IsEnd s prev es
    → prev < from_idx
    → from_idx ≤ prev + length es
    → IsEnd
        (if leb (s.first + length s.items) from_idx then s else keep_first (from_idx - s.first) s)
        prev
        (take (from_idx - prev - 1) es)
unfolding keep_first
keep_first-IsEnd s prev es from_idx r low high =
    let es' = take (from_idx - prev - 1) es in
    let len = length-IsEnd s prev es r in
    let size : length es' ≡ from_idx - prev - 1 =
      length-take_of_le es (from_idx - prev - 1) (omega (arith, low, high)) in
    elim (Bool-cases (leb (s.first + length s.items) from_idx)) [
      | inl beyond ↦
          let none_there : length s.items ≡ 0 =
            ground (arith, beyond, r.first, len, high, r.in_range) in
          rw beyond (empty-IsEnd s prev es' none_there (r.empty none_there))
      | inr within ↦
          let starts : s.first ≡ prev + r.from + 1 = ground (arith, within, r.first, r.empty) in
          elim (Bool-cases (ltb from_idx s.first)) [
            | inl before ↦
                let nothing : from_idx - s.first ≡ 0 = ground (arith, before) in
                rw (within, nothing) (empty-IsEnd (normal s.first []) prev es' refl refl)
            | inr inside ↦
                let i : from_idx - prev - 1 ≡ r.from + (from_idx - s.first) =
                  ground (arith, inside, starts) in
                rw within (
                  normal-IsEnd s.first prev r.from (take (from_idx - s.first) s.items) es'
                    (omega (arith, size, i))
                    (rw i (
                      ap (take (from_idx - s.first)) r.suffix
                      ∙ take-drop_swap (from_idx - s.first) r.from es))
                    (λ h. starts))
          ]
    ]

-- The run that is left where an index outside the log is given.
outside-IsEnd :
    (s : Segment) (prev : ℕ) (es : List Entry) (from_idx : ℕ)
    → IsEnd s prev es
    → (from_idx ≤ prev) ⊎ (prev + length es < from_idx)
    → IsEnd
        (if leb (s.first + length s.items) from_idx then s else keep_first (from_idx - s.first) s)
        prev
        es
unfolding keep_first
outside-IsEnd s prev es from_idx r h =
    let len = length-IsEnd s prev es r in
    elim (Bool-cases (leb (s.first + length s.items) from_idx)) [
      | inl beyond ↦ rw beyond r
      | inr within ↦
          let starts : s.first ≡ prev + r.from + 1 = ground (arith, within, r.first, r.empty) in
          let nothing : from_idx - s.first ≡ 0 =
            ground (arith, within, starts, len, r.in_range, h) in
          rw (within, nothing) (empty-IsEnd (normal s.first []) prev es refl refl)
    ]

module _ (header : ℕ) (crc32 : ℕ → Bytes → ℕ)
    (crc_small : (c : ℕ) (s : Bytes) → crc32 c s < 2 ^ 32) where
  -- Where the files hold entries, and the cache some last part of them, `logImplPop` from a log index on fails no
  -- assertion. For the index of an entry it returns 0, the files hold the entries before that one, and the cache a last
  -- part of those; for any other index it returns -1, the files are as they were, and the cache holds a last part still.
  pub impl_pop_refines :
      (ctx : Ctx) (es : List Entry) (from_idx : ℕ)
      → IsCtx header crc32 ctx es
      → ((ctx' : Ctx) × (impl_pop header crc32 ctx from_idx ≡ some (true, ctx'))
          × (prev_log_index ctx.log < from_idx)
          × (from_idx ≤ prev_log_index ctx.log + length es)
          × (prev_log_index ctx'.log ≡ prev_log_index ctx.log)
          × IsCtx header crc32 ctx' (take (from_idx - prev_log_index ctx.log - 1) es))
        ⊎ ((ctx' : Ctx) × (impl_pop header crc32 ctx from_idx ≡ some (false, ctx'))
            × ((from_idx ≤ prev_log_index ctx.log)
                ⊎ (prev_log_index ctx.log + length es < from_idx))
            × (ctx'.log ≡ ctx.log)
            × IsCtx header crc32 ctx' es)
  unfolding impl_pop
  impl_pop_refines ctx es from_idx r =
      let (cache, cut, rep) = delete_tail_refines header ctx.logcache r.run from_idx r.cache in
      elim (log_delete_refines crc32 crc_small ctx.log es from_idx r.log) [
        | inl (log, done, low, high, same, held) ↦ inl (
          record { logcache = cache; log = log },
          rw (cut, done) refl,
          low,
          high,
          same,
          record {
            log = held;
            run = _;
            cache = rep;
            end =
                rw same
                  (keep_first-IsEnd r.run (prev_log_index ctx.log) es from_idx r.end low high);
          },
        )
        | inr (refused, outside) ↦ inr (
          record { logcache = cache; log = ctx.log },
          rw (cut, refused) refl,
          outside,
          refl,
          record {
            log = r.log;
            run = _;
            cache = rep;
            end = outside-IsEnd r.run (prev_log_index ctx.log) es from_idx r.end outside;
          },
        )
      ]

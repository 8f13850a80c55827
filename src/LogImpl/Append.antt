-- ===== src/LogImpl/Append.antt =====
-- An entry goes to the file, and then to the cache.
use redisraft.Prelude.{
  ◌==◌, ℕ, ◌+◌, ◌<◌, ◌≡◌, refl, sym, ap, ◌∙◌, Option, none, some, List, [], ◌∷◌, ◌++◌, length,
  arith, true, false, Bool-cases, inl, inr, if◌then◌else◌,
}
use mathlib.Core.Path.{subst}
use redisraft.Prelude.{◌⊎◌, ◌≢◌, length-append, drop-append_of_le}
use redisraft.Wire.{Bytes}
use redisraft.RaftEntry.{Entry}
use redisraft.EntryCache.Spec.{Segment}
use redisraft.EntryCache.Rep.{Rep}
use redisraft.LogImpl.Rep.{IsCtx, IsEnd, length-IsEnd}
use redisraft.EntryCache.{EntryCache, append, entry_size, ulong_max}
use redisraft.EntryCache.Spec.{push}
use redisraft.EntryCache.Grow.{RepOption, append_refines}
use redisraft.Page.Text.{IsEntry}
use redisraft.Log.{log_append, prev_log_index, current_idx}
use redisraft.Log.Rep.{log_count_refines}
use redisraft.Log.Append.{log_append_refines}
use redisraft.LogImpl.{Ctx, impl_append}

-- The run and the entries with one more at their end.
push-IsEnd :
    (s : Segment) (prev : ℕ) (es : List Entry) (e : Entry)
    → IsEnd s prev es
    → (s' : Segment) × (push s e (prev + length (es ++ e ∷ [])) ≡ some s')
      × IsEnd s' prev (es ++ e ∷ [])
unfolding push
push-IsEnd s prev es e r =
    let idx = prev + length (es ++ e ∷ []) in
    let size : length (es ++ e ∷ []) ≡ length es + 1 = length-append es (e ∷ []) in
    let len = length-IsEnd s prev es r in
    let first = if s.first == 0 then idx else s.first in
    let starts : first ≡ prev + r.from + 1 = elim (Bool-cases (s.first == 0)) [
      | inl none_there ↦ rw none_there (ground (arith, none_there, size, len, r.first, r.in_range))
      | inr some_there ↦ rw some_there (ground (arith, some_there, r.first, r.empty))
    ] in
    let next : (first + length s.items == idx) ≡ true =
      ground (arith, starts, size, len, r.in_range) in
    (
      record { first = first; items = s.items ++ e ∷ [] },
      rw next refl,
      record {
        from = r.from;
        in_range = omega (arith, size, r.in_range);
        suffix =
            ap (λ l. l ++ e ∷ []) r.suffix ∙ sym (drop-append_of_le es (e ∷ []) r.from r.in_range);
        empty = λ h. absurd (omega (arith, h, length-append s.items (e ∷ [])));
        first = λ h. starts;
      },
    )

module _ (header : ℕ) (crc32 : ℕ → Bytes → ℕ) where
  some-RepOption :
      (o : Option EntryCache) (s : Segment)
      → RepOption header o (some s)
      → (c : EntryCache) × (o ≡ some c) × Rep header c s
  some-RepOption none s h = absurd h
  some-RepOption (some c) s h = (c, refl, h)

  kept :
      (garbage : ℕ → Option Entry) (faults : ℕ → Option ℕ) (ctx : Ctx) (e : Entry)
      → (((log_append crc32 faults ctx.log e ≡ some (false, ctx.log)) × (faults 5 ≡ none))
          ⊎ ((log_append crc32 faults ctx.log e ≡ none) × (faults 5 ≢ none)))
      → ((impl_append header crc32 garbage faults ctx e ≡ some (false, ctx)) × (faults 5 ≡ none))
        ⊎ ((impl_append header crc32 garbage faults ctx e ≡ none) × (faults 5 ≢ none))
  unfolding impl_append
  kept garbage faults ctx e (inl (fails, reverts)) = inl (rw fails refl, reverts)
  kept garbage faults ctx e (inr (aborts, stuck)) = inr (rw aborts refl, stuck)

  -- Where the files hold entries, and the cache some last part of them, and the cache's memory with the new entry is less
  -- than 2^64: if none of the five writes fails, `logImplAppend` returns 0, the files hold the new entry behind the
  -- others and the cache a last part of them. If one of the writes fails and the files can be truncated to their old sizes, it
  -- returns -1 and nothing has changed; if they cannot, it fails an assertion.
  pub impl_append_refines :
      (garbage : ℕ → Option Entry) (faults : ℕ → Option ℕ) (ctx : Ctx) (es : List Entry) (e : Entry)
      → IsCtx header crc32 ctx es
      → IsEntry e
      → ctx.logcache.entries_memsize + entry_size header e < ulong_max
      → ((ctx' : Ctx) × (impl_append header crc32 garbage faults ctx e ≡ some (true, ctx'))
          × ((j : ℕ) → j < 5 → faults j ≡ none)
          × (prev_log_index ctx'.log ≡ prev_log_index ctx.log)
          × IsCtx header crc32 ctx' (es ++ e ∷ []))
        ⊎ ((((impl_append header crc32 garbage faults ctx e ≡ some (false, ctx))
                × (faults 5 ≡ none))
              ⊎ ((impl_append header crc32 garbage faults ctx e ≡ none) × (faults 5 ≢ none)))
            × (j : ℕ) × (j < 5)
            × (faults j ≢ none))
  unfolding impl_append
  impl_append_refines garbage faults ctx es e r proper small =
      elim (log_append_refines crc32 faults ctx.log es e r.log proper) [
        | inr (fails, j, low, fault) ↦ inr (kept garbage faults ctx e fails, j, low, fault)
        | inl (log, done, no_fault, same, held) ↦
            let last : current_idx log ≡ prev_log_index ctx.log + length (es ++ e ∷ []) =
              (log_count_refines crc32 log (es ++ e ∷ []) held).2
              ∙ ap (λ k. k + length (es ++ e ∷ [])) same in
            let (run, pushed, end) = push-IsEnd r.run (prev_log_index ctx.log) es e r.end in
            let both =
              append_refines header garbage ctx.logcache r.run e (current_idx log) r.cache
                (omega (arith, r.cache.memory, small)) in
            let (cache, cached, rep) =
              some-RepOption (append header garbage ctx.logcache e (current_idx log)) run (
                subst (RepOption header (append header garbage ctx.logcache e (current_idx log)))
                  (ap (push r.run e) last ∙ pushed) both) in
            inl (
              record { logcache = cache; log = log },
              rw (done, cached) refl,
              no_fault,
              same,
              record { log = held; run = run; cache = rep; end = rw same end },
            )
      ]

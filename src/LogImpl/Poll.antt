-- ===== src/LogImpl/Poll.antt =====
-- Entries are taken from the start of the cache and of the files, when a snapshot is there.
use redisraft.Prelude.{
  ℕ, ◌+◌, ◌-◌, ◌≤◌, ◌<◌, ◌≡◌, refl, sym, ap, ◌∙◌, none, some, List, length, drop, arith, true,
  false, ltb, Bool-cases, inl, inr, if◌then◌else◌, length-drop,
}
use redisraft.Prelude.{◌⊎◌, ◌^◌}
use redisraft.Wire.{Bytes}
use redisraft.RaftEntry.{Entry}
use redisraft.EntryCache.Spec.{Segment}
use redisraft.LogImpl.Rep.{IsCtx, IsEnd, normal-IsEnd, length-IsEnd}
use redisraft.Prelude.{min, drop-drop}
use redisraft.EntryCache.Spec.{drop_first}
use redisraft.EntryCache.Shrink.{delete_head_refines}
use redisraft.Log.{prev_log_index, compaction_started, compaction_idx}
use redisraft.Log.Compaction.{compaction_end_refines, compaction_idx-bounds}
use redisraft.LogImpl.{Ctx, impl_poll}

-- The run without what stands before `n`, where the entries are without their first `m`.
drop_first-IsEnd :
    (s : Segment) (prev m n : ℕ) (es : List Entry)
    → IsEnd s prev es
    → m ≤ length es
    → prev + m < n
    → let k = min (n - s.first) (length s.items) in
      IsEnd (if ltb n s.first then s else drop_first k s) (prev + m) (drop m es)
unfolding drop_first
drop_first-IsEnd s prev m n es r low high =
    let len = length-IsEnd s prev es r in
    let size = length-drop m es in
    elim (Bool-cases (ltb n s.first)) [
      | inl before ↦
          let starts : s.first ≡ prev + r.from + 1 = ground (arith, before, r.first, r.empty) in
          let split : m + (r.from - m) ≡ r.from = ground (arith, before, starts, high) in
          rw before (record {
            from = r.from - m;
            in_range = omega (arith, size, r.in_range, split);
            suffix = r.suffix ∙ sym (drop-drop (r.from - m) m es ∙ ap (λ k. drop k es) split);
            empty = r.empty;
            first = λ h. omega (arith, starts, split);
          })
      | inr behind ↦
          let k = min (n - s.first) (length s.items) in
          let reaches : m ≤ r.from + k =
            ground (arith, behind, high, low, len, r.first, r.in_range) in
          let within : r.from + k ≤ length es = omega (arith, len, r.in_range) in
          let split : m + (r.from + k - m) ≡ r.from + k = omega (arith, reaches) in
          rw behind (
            normal-IsEnd (s.first + k) (prev + m) (r.from + k - m) (drop k s.items) (drop m es)
              (omega (arith, size, within))
              (ap (drop k) r.suffix
                ∙ drop-drop k r.from es
                ∙ sym (drop-drop (r.from + k - m) m es ∙ ap (λ k. drop k es) split))
              (λ h. omega (arith, r.first (omega (arith, h, length-drop k s.items)), split)))
    ]

module _ (header : ℕ) (crc32 : ℕ → Bytes → ℕ)
    (crc_small : (c : ℕ) (s : Bytes) → crc32 c s < 2 ^ 32) where
  -- Where the files hold entries, and the cache some last part of them, `logImplPoll` up to an index behind `LogCompactionIdx`
  -- succeeds if there is a second page: the log then begins behind `LogCompactionIdx`, without the entries up to it, and
  -- the cache holds a last part of the others. If there is none it fails an assertion.
  pub impl_poll_refines :
      (ctx : Ctx) (es : List Entry) (first_idx : ℕ)
      → IsCtx header crc32 ctx es
      → compaction_idx ctx.log < first_idx
      → ((ctx' : Ctx) × (impl_poll header crc32 ctx first_idx ≡ some ctx')
          × (compaction_started ctx.log ≡ true)
          × (prev_log_index ctx'.log ≡ compaction_idx ctx.log)
          × IsCtx header crc32 ctx' (drop (compaction_idx ctx.log - prev_log_index ctx.log) es))
        ⊎ ((impl_poll header crc32 ctx first_idx ≡ none) × (compaction_started ctx.log ≡ false))
  unfolding impl_poll
  impl_poll_refines ctx es first_idx r later =
      let (cache, cut, rep) = delete_head_refines header ctx.logcache r.run first_idx r.cache in
      elim (compaction_end_refines crc32 crc_small ctx.log es r.log) [
        | inr (fails, not_started) ↦ inr (rw (cut, fails) refl, not_started)
        | inl (log, done, started, ended, prev, held) ↦
            let (low, high) = compaction_idx-bounds crc32 crc_small ctx.log es r.log in
            let m = compaction_idx ctx.log - prev_log_index ctx.log in
            let start : prev_log_index log ≡ prev_log_index ctx.log + m =
              omega (arith, prev, low) in
            let end =
              drop_first-IsEnd r.run (prev_log_index ctx.log) m first_idx es r.end
                (omega (arith, low, high)) (omega (arith, low, later)) in
            inl (
              record { logcache = cache; log = log },
              rw (cut, done) refl,
              started,
              prev,
              record { log = held; run = _; cache = rep; end = rw start end },
            )
      ]

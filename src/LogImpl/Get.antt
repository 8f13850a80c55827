-- ===== src/LogImpl/Get.antt =====
-- The cache is transparent: an entry is the same from the cache and from the files.
use redisraft.Prelude.{
  ◌^◌, ℕ, zero, suc, ◌+◌, ◌-◌, ◌<◌, ◌≡◌, refl, sym, ap, ◌∙◌, some, List, drop, take, get_elem?,
  arith, false, inl, inr, leb, Option-cases,
}
use redisraft.Prelude.{get_elem?-none, drop-eq_cons, drop-all}
use redisraft.Wire.{Bytes}
use redisraft.RaftEntry.{Entry}
use redisraft.EntryCache.Spec.{at_index}
use redisraft.EntryCache.Grow.{get_refines}
use redisraft.Page.Seek.{entry_at}
use redisraft.Log.{prev_log_index}
use redisraft.Log.Access.{log_get_refines}
use redisraft.LogImpl.{Ctx, impl_get, impl_get_batch}
use redisraft.LogImpl.Rep.{IsCtx, at_index-entry_at}

module _ (header : ℕ) (crc32 : ℕ → Bytes → ℕ)
    (crc_small : (c : ℕ) (s : Bytes) → crc32 c s < 2 ^ 32) where
  -- Where the files hold entries, and the cache some last part of them, `logImplGet` fails no assertion. It returns
  -- the entry at the index, and NULL for an index before or behind the entries: the cache makes no difference.
  pub impl_get_refines :
      (ctx : Ctx) (es : List Entry) (idx : ℕ)
      → IsCtx header crc32 ctx es
      → impl_get header crc32 ctx idx ≡ some (entry_at (prev_log_index ctx.log) es idx)
  unfolding impl_get
  impl_get_refines ctx es idx r =
      let cached = get_refines header ctx.logcache r.run idx r.cache in
      elim (Option-cases (at_index r.run idx)) [
        | inl missing ↦ rw (cached, missing) (log_get_refines crc32 crc_small ctx.log es idx r.log)
        | inr (e, found) ↦
            rw (cached, found)
              (ap some
                (sym (at_index-entry_at r.run (prev_log_index ctx.log) es idx e r.end found)))
      ]

  entry_at-drop :
      (prev idx : ℕ) (es : List Entry)
      → prev < idx
      → entry_at prev es idx ≡ get_elem? es (idx - prev - 1)
  unfolding entry_at
  entry_at-drop prev idx es h = let low : leb idx prev ≡ false = ground (arith, h) in rw low refl

  -- Where the files hold entries, and the cache some last part of them, `logImplGetBatch` from an index behind the
  -- start of the log fails no assertion, and gives the entries from that index on, in order and as many as
  -- are asked for or there are.
  pub impl_get_batch_refines :
      (entries_n : ℕ) (ctx : Ctx) (es : List Entry) (idx : ℕ)
      → IsCtx header crc32 ctx es
      → prev_log_index ctx.log < idx
      → impl_get_batch header crc32 entries_n ctx idx
        ≡ some (take entries_n (drop (idx - prev_log_index ctx.log - 1) es))
  unfolding impl_get_batch
  impl_get_batch_refines zero ctx es idx r h = refl
  impl_get_batch_refines (suc entries_n) ctx es idx r h =
      let i = idx - prev_log_index ctx.log - 1 in
      let gets =
        impl_get_refines ctx es idx r ∙ ap some (entry_at-drop (prev_log_index ctx.log) idx es h) in
      elim (Option-cases (get_elem? es i)) [
        | inl missing ↦ rw (gets, missing, drop-all es i (get_elem?-none es i missing)) refl
        | inr (e, found) ↦
            let next : idx + 1 - prev_log_index ctx.log - 1 ≡ suc i = omega (arith, h) in
            let rest = impl_get_batch_refines entries_n ctx es (idx + 1) r (omega (arith, h)) in
            rw (gets, found, drop-eq_cons es i e found, rest, next) refl
      ]

-- ===== src/LogImpl/Tests.antt =====
-- The log of two pages, with its last entry in the cache.
use redisraft.Prelude.{
  ◌^◌, ℕ, zero, suc, ◌+◌, ◌-◌, ◌≤◌, ◌<◌, ◌≡◌, ◌≢◌, refl, none, some, [], ◌∷◌, ◌++◌, drop, take,
  arith, true, false, ◌⊎◌, get_elem?,
}
use redisraft.EntryCache.{EntryCache, write}
use redisraft.EntryCache.Spec.{Segment}
use redisraft.EntryCache.Rep.{Rep, wrap}
use redisraft.Page.Seek.{entry_at}
use redisraft.Page.Reset.{no_faults}
use redisraft.Log.{prev_log_index, compaction_started, compaction_idx}
use redisraft.Log.Example.{
  counted, counted_small, entry, entry-IsEntry, two, two_pages, two_pages-IsLog,
}
use redisraft.LogImpl.{Ctx, impl_get, impl_append, impl_pop, impl_poll}
use redisraft.LogImpl.Rep.{IsCtx}
use redisraft.LogImpl.Get.{impl_get_refines}
use redisraft.LogImpl.Append.{impl_append_refines}
use redisraft.LogImpl.Pop.{impl_pop_refines}
use redisraft.LogImpl.Poll.{impl_poll_refines}

abbrev cache : EntryCache
cache = record {
  size = 2;
  len = 1;
  start_idx = 9;
  start = 1;
  entries_memsize = 10;
  ptrs = write (λ _. none) 1 (some (entry 66));
}

abbrev run : Segment
run = record { first = 9; items = entry 66 ∷ [] }

cache_cells : (i : ℕ) → i < 1 → cache.ptrs (wrap 2 (1 + i)) ≡ get_elem? run.items i
cache_cells zero h = refl
cache_cells (suc i) h = absurd (omega arith)

cache-Rep : Rep 8 cache run
cache-Rep = record {
  start_in = omega arith;
  fits = omega arith;
  count = refl;
  first = refl;
  memory = refl;
  bounded = omega arith;
  cells = cache_cells;
}

abbrev ctx : Ctx
ctx = record { logcache = cache; log = two_pages }

ctx-IsCtx : IsCtx 8 counted ctx (two ++ two)
unfolding prev_log_index
ctx-IsCtx = record {
  log = two_pages-IsLog;
  run = run;
  cache = cache-Rep;
  end = record {
    from = 3;
    in_range = omega arith;
    suffix = refl;
    empty = λ h. absurd (omega arith);
    first = λ h. refl;
  };
}

impl_get_refines_example :
    impl_get 8 counted ctx 9 ≡ some (entry_at (prev_log_index two_pages) (two ++ two) 9)
impl_get_refines_example = impl_get_refines 8 counted counted_small ctx (two ++ two) 9 ctx-IsCtx

in_log : prev_log_index two_pages < 7
unfolding prev_log_index
in_log = omega arith

room : 10 + (8 + 2) < 2 ^ 64
room = omega arith

impl_append_refines_example :
    ((ctx' : Ctx) × (impl_append 8 counted (λ _. none) no_faults ctx (entry 67) ≡ some (true, ctx'))
      × ((j : ℕ) → j < 5 → no_faults j ≡ none)
      × (prev_log_index ctx'.log ≡ prev_log_index two_pages)
      × IsCtx 8 counted ctx' ((two ++ two) ++ entry 67 ∷ []))
    ⊎ ((((impl_append 8 counted (λ _. none) no_faults ctx (entry 67) ≡ some (false, ctx))
            × (no_faults 5 ≡ none))
          ⊎ ((impl_append 8 counted (λ _. none) no_faults ctx (entry 67) ≡ none)
              × (no_faults 5 ≢ none)))
        × (j : ℕ) × (j < 5)
        × (no_faults j ≢ none))
impl_append_refines_example =
    impl_append_refines 8 counted (λ _. none) no_faults ctx (two ++ two) (entry 67) ctx-IsCtx
      (entry-IsEntry 67) room

impl_pop_refines_example :
    ((ctx' : Ctx) × (impl_pop 8 counted ctx 7 ≡ some (true, ctx'))
      × (prev_log_index two_pages < 7)
      × (7 ≤ prev_log_index two_pages + 4)
      × (prev_log_index ctx'.log ≡ prev_log_index two_pages)
      × IsCtx 8 counted ctx' (take (7 - prev_log_index two_pages - 1) (two ++ two)))
    ⊎ ((ctx' : Ctx) × (impl_pop 8 counted ctx 7 ≡ some (false, ctx'))
        × ((7 ≤ prev_log_index two_pages) ⊎ (prev_log_index two_pages + 4 < 7))
        × (ctx'.log ≡ two_pages)
        × IsCtx 8 counted ctx' (two ++ two))
impl_pop_refines_example = impl_pop_refines 8 counted counted_small ctx (two ++ two) 7 ctx-IsCtx

behind_first : compaction_idx two_pages < 9
unfolding compaction_idx
behind_first = omega arith

impl_poll_refines_example :
    ((ctx' : Ctx) × (impl_poll 8 counted ctx 9 ≡ some ctx')
      × (compaction_started two_pages ≡ true)
      × (prev_log_index ctx'.log ≡ compaction_idx two_pages)
      × IsCtx 8 counted ctx'
          (drop (compaction_idx two_pages - prev_log_index two_pages) (two ++ two)))
    ⊎ ((impl_poll 8 counted ctx 9 ≡ none) × (compaction_started two_pages ≡ false))
impl_poll_refines_example =
    impl_poll_refines 8 counted counted_small ctx (two ++ two) 9 ctx-IsCtx behind_first

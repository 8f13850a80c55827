-- ===== src/LogImpl.antt =====
-- log.c: the log as the Raft library sees it, the files behind the cache of the latest entries.
-- `none` is a failed assertion, a PANIC or a fault; a Boolean says whether 0 is returned, or -1.
pub mod Rep
pub mod Get
pub mod Append
pub mod Pop
pub mod Poll
mod Tests
use redisraft.Prelude.{
  ℕ, zero, suc, ◌+◌, ◌-◌, Bool, true, false, not, Option, none, some, List, [], ◌∷◌, ◌==◌, ◌>>=◌,
  if◌then◌else◌, ℤ,
}
use redisraft.Wire.{Bytes}
use redisraft.RaftEntry.{Entry}
use redisraft.EntryCache.{EntryCache, new, append, get, delete_head, delete_tail}
use redisraft.Log.{
  Log, current_idx, log_append, log_delete, log_get, log_reset, log_sync, compaction_end,
}

-- `RedisRaftCtx`, as far as these functions read it
pub record Ctx : Type 0 where
  pub logcache : EntryCache
  pub log : Log

abbrev pub entry_cache_init_size : ℕ
entry_cache_init_size = 512

abbrev init_cache : Option EntryCache → EntryCache
init_cache none = new entry_cache_init_size
init_cache (some cache) = cache

-- `logImplInit`, where a cache may be there already
pub impl_init : Option EntryCache → Log → Ctx
impl_init cache log = record { logcache = init_cache cache; log = log }

-- `logImplSync`
pub impl_sync : Bool → ℕ → Ctx → Option Ctx
impl_sync synced took ctx = do log ← log_sync synced took ctx.log; some (record ctx { log = log })

-- from the files, where the cache gave NULL
abbrev pub get_or_log : Log → ℕ → Option Entry → Option (Option Entry)
get_or_log log idx none = log_get log idx
get_or_log log idx (some ety) = some (some ety)

-- `header` is sizeof(raft_entry_t), and `crc32` is `sc_crc32`.
module _ (header : ℕ) (crc32 : ℕ → Bytes → ℕ) where
  -- `logImplGet`
  unfoldable pub impl_get : Ctx → ℕ → Option (Option Entry)
  impl_get ctx idx = get_or_log ctx.log idx (get header ctx.logcache idx)

  -- `logImplGetBatch`, with `entries_n` rounds left: the entries
  unfoldable pub impl_get_batch : ℕ → Ctx → ℕ → Option (List Entry)
  impl_get_batch zero ctx idx = some []
  impl_get_batch (suc entries_n) ctx idx = do
    ety ← impl_get ctx idx
    elim ety [
      | none ↦ some []
      | some e ↦ do rest ← impl_get_batch entries_n ctx (idx + 1); some (e ∷ rest)
    ]

  abbrev pub append_cache : (ℕ → Option Entry) → Ctx → Entry → Bool × Log → Option (Bool × Ctx)
  append_cache garbage ctx ety (false, log) = some (false, record ctx { log = log })
  append_cache garbage ctx ety (true, log) = do
    cache ← append header garbage ctx.logcache ety (current_idx log)
    some (true, record { logcache = cache; log = log })

  -- `logImplAppend`; `garbage` is what is in memory that the cache gets, `faults` are those of the file
  unfoldable pub impl_append :
      (ℕ → Option Entry) → (ℕ → Option ℕ) → Ctx → Entry → Option (Bool × Ctx)
  impl_append garbage faults ctx ety = do
    appended ← log_append crc32 faults ctx.log ety
    append_cache garbage ctx ety appended

  -- `logImplPoll`
  unfoldable pub impl_poll : Ctx → ℕ → Option Ctx
  impl_poll ctx first_idx = do
    (cache, released) ← delete_head header ctx.logcache first_idx
    log ← compaction_end ctx.log
    some (record { logcache = cache; log = log })

  -- `logImplPop`
  unfoldable pub impl_pop : Ctx → ℕ → Option (Bool × Ctx)
  impl_pop ctx from_idx = do
    (cache, released) ← delete_tail header ctx.logcache from_idx
    (done, log) ← log_delete crc32 ctx.log from_idx
    some (done, record { logcache = cache; log = log })

  -- `logImplReset`, which does not look at what `LogReset` returns
  unfoldable pub impl_reset : Bool → ℕ → ℤ → Ctx → Option Ctx
  impl_reset written index term ctx =
      if index == 0
      then none
      else some (record {
        logcache = new entry_cache_init_size;
        log = (log_reset crc32 written (index - 1) term ctx.log).1;
      })

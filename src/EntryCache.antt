-- ===== src/EntryCache.antt =====
-- entrycache.c: the latest log entries in memory, in a circular array of pointers that grows.
-- `raft_index_t` values are natural numbers: the log's indices start at 1 and stay below 2^63.
pub mod Spec
pub mod Rep
pub mod Grow
pub mod Shrink
pub mod Tail
mod Tests
pub use redisraft.RaftEntry.{Entry}
use redisraft.Prelude.{
  length, ℕ, zero, suc, ◌+◌, ◌-◌, ◌*◌, ◌%◌, ◌^◌, Bool, true, false, ◌&&◌, Option, none, some, List,
  [], ◌∷◌, ltb, leb, ◌==◌, ◌>>=◌, if◌then◌else◌,
}

-- `ptrs` is the array of `size` pointers, `none` a null one.
pub record EntryCache : Type 0 where
  pub size : ℕ
  pub len : ℕ
  pub start_idx : ℕ
  pub start : ℕ
  pub entries_memsize : ℕ
  pub ptrs : ℕ → Option Entry

abbrev pub ulong_max : ℕ
ulong_max = 2 ^ 64

abbrev pub write : (ℕ → Option Entry) → ℕ → Option Entry → ℕ → Option Entry
write ptrs i p j = if i == j then p else ptrs j

pub new : ℕ → EntryCache
new initial_size = record {
  size = initial_size;
  len = 0;
  start_idx = 0;
  start = 0;
  entries_memsize = 0;
  ptrs = λ _. none;
}

-- The array after `realloc`, `memmove` and `memset`. What `realloc` adds holds `garbage`.
pub enlarge : (ℕ → Option Entry) → EntryCache → EntryCache
enlarge garbage cache =
    let realloc = λ (i : ℕ). if ltb i cache.size then cache.ptrs i else garbage i in
    record cache {
      size = cache.size * 2;
      ptrs = λ i.
          if ltb i cache.start
          then none
          else if leb cache.size i && ltb i (cache.size + cache.start)
          then realloc (i - cache.size)
          else realloc i;
    }

-- What `EntryCacheDeleteHead` and the other two do last.
abbrev pub reset_if_empty : EntryCache → EntryCache
reset_if_empty c = if c.len == 0 then record c { start_idx = 0 } else c

-- `header` is sizeof(raft_entry_t).
module _ (header : ℕ) where
  abbrev pub entry_size : Entry → ℕ
  entry_size e = header + length e.body

  -- the counter after an entry has gone; an `unsigned long` wraps
  abbrev pub less_memory : ℕ → Entry → ℕ
  less_memory m e = (m + (ulong_max - entry_size e % ulong_max)) % ulong_max

  -- `none` is the failed assertion. The entry is held.
  pub append : (ℕ → Option Entry) → EntryCache → Entry → ℕ → Option EntryCache
  append garbage cache ety idx =
      let start_idx = if cache.start_idx == 0 then idx else cache.start_idx in
      if start_idx + cache.len == idx
      then (let c = if cache.len == cache.size then enlarge garbage cache else cache in
          some (record c {
            start_idx = start_idx;
            ptrs = write c.ptrs ((c.start + c.len) % c.size) (some ety);
            len = c.len + 1;
            entries_memsize = (c.entries_memsize + entry_size ety) % ulong_max;
          }))
      else none

  -- The entry, which is then held; `none` is NULL.
  pub get : EntryCache → ℕ → Option Entry
  get cache idx =
      if ltb idx cache.start_idx
      then none
      else if leb cache.len (idx - cache.start_idx)
      then none
      else cache.ptrs ((cache.start + (idx - cache.start_idx)) % cache.size)

  -- The body of the loops that remove the first entry; a null pointer there is a fault. The entry is
  -- released.
  pub pop_head : EntryCache → Option (EntryCache × Entry)
  pop_head cache = do
    ety ← cache.ptrs cache.start
    some (
      record cache {
        entries_memsize = less_memory cache.entries_memsize ety;
        start_idx = cache.start_idx + 1;
        ptrs = write cache.ptrs cache.start none;
        start = if leb cache.size (cache.start + 1) then 0 else cache.start + 1;
        len = cache.len - 1;
      },
      ety,
    )

  -- `while (more && cache->len > 0)`, with the entries released so far and in that order.
  -- `none` is a fault, or the end of the fuel.
  pub pop_while : (EntryCache → Bool) → ℕ → EntryCache → Option (EntryCache × List Entry)
  pop_while more zero c = none
  pop_while more (suc fuel) c = elim (more c && ltb 0 c.len) [
    | false ↦ some (c, [])
    | true ↦ do
      (c', ety) ← pop_head c
      (end, released) ← pop_while more fuel c'
      some (end, ety ∷ released)
  ]

  -- The cache, and the entries released, as many as the C function returns; the inner `none` is -1.
  pub delete_head : EntryCache → ℕ → Option (EntryCache × Option (List Entry))
  delete_head cache first_idx = if ltb first_idx cache.start_idx then some (cache, none) else do
    (c, released) ← pop_while (λ c. ltb c.start_idx first_idx) (cache.len + 1) cache
    some (reset_if_empty c, some released)

  pub compact : EntryCache → ℕ → Option (EntryCache × List Entry)
  compact cache max_memory = do
    (c, released) ← pop_while (λ c. ltb max_memory c.entries_memsize) (cache.len + 1) cache
    some (reset_if_empty c, released)

  -- `for (i = index; i < cache->start_idx + cache->len; i++)`, of which `rounds` are left
  pub clear_from : ℕ → ℕ → EntryCache → Option (EntryCache × List Entry)
  clear_from zero i cache = some (cache, [])
  clear_from (suc rounds) i cache = do
    let ofs = (cache.start + (i - cache.start_idx)) % cache.size
    ety ← cache.ptrs ofs
    (end, released) ← clear_from rounds (i + 1) (record cache {
      entries_memsize = less_memory cache.entries_memsize ety;
      ptrs = write cache.ptrs ofs none;
    })
    some (end, ety ∷ released)

  pub delete_tail : EntryCache → ℕ → Option (EntryCache × Option (List Entry))
  delete_tail cache index =
      if leb (cache.start_idx + cache.len) index then some (cache, none) else do
        let from = if ltb index cache.start_idx then cache.start_idx else index
        (c, released) ← clear_from (cache.start_idx + cache.len - from) from cache
        some (reset_if_empty (record c { len = c.len - length released }), some released)

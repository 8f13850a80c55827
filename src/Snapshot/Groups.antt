-- ===== src/Snapshot/Groups.antt =====
-- cluster.c: the shard groups in a snapshot. The dictionary of the groups is a list, and `order` says in
-- which order its iterator visits them.
use redisraft.Prelude.{
  ℕ, zero, suc, ◌+◌, ◌%◌, ◌^◌, ◌≤◌, ◌<◌, ◌≡◌, refl, Bool, true, ◌&&◌, Option, none, some, List, [],
  ◌∷◌, ◌>>=◌, leb, ltb, if◌then◌else◌, length, arith, map, bytes_eq,
}
use redisraft.Wire.{Bytes}
use redisraft.Rdb.{All, Stream, unsigned, buffer, load_unsigned, load_buffer, load_times, save_each}
use redisraft.Sharding.{
  ShardGroup, ShardingInfo, write_slot, add_shard_group, Added, rr_ok, rr_error, panicked,
}
use redisraft.Sharding.Change.{reset_sharding}
use redisraft.GroupText.{Parsed, parsed, failed, aborted, serialize_group, deserialize_group}
use redisraft.GroupText.Lines.{IsOneLine}
use redisraft.GroupText.RoundTrip.{
  AllRanges, AllNodes, read_back, deserialize_group-serialize_group,
}
use redisraft.NodeAddr.Parse.{NoNul}

-- REDIS_RAFT_HASH_SLOTS
abbrev pub hash_slots : ℕ
hash_slots = 16384

abbrev pub save_group : ShardGroup → Stream → Stream
save_group sg rest = buffer (serialize_group sg) ∷ rest

-- the terms of the slots, `rounds` of them from `i` on
unfoldable pub save_terms : ℕ → ℕ → (ℕ → ℕ) → Stream → Stream
save_terms zero i terms rest = rest
save_terms (suc rounds) i terms rest = unsigned (terms i) ∷ save_terms rounds (i + 1) terms rest

-- `ShardingInfoRDBSave`; the text of a group has no NUL where its strings have none
unfoldable pub sharding_info_rdb_save :
    (List ShardGroup → List ShardGroup) → Option ShardingInfo → Stream → Stream
sharding_info_rdb_save order none rest = unsigned 0 ∷ rest
sharding_info_rdb_save order (some si) rest =
    unsigned si.shard_groups_num
    ∷ save_each save_group (order si.shard_group_map)
        (save_terms hash_slots 0 si.max_importing_term rest)

abbrev parsed_or_none : {A : Type 0} → Parsed A → Option A
parsed_or_none (parsed a) = some a
parsed_or_none failed = none
parsed_or_none aborted = none

abbrev pub load_group : Stream → Option (ShardGroup × Stream)
load_group s = do
  (buf, s) ← load_buffer s
  sg ← parsed_or_none (deserialize_group buf)
  some (sg, s)

-- the flag is set for the cluster's own group: `strncmp` of two strings of at most 32 bytes
abbrev pub set_local : Bytes → ShardGroup → ShardGroup
set_local dbid sg = if bytes_eq sg.id dbid then record sg { is_local = true } else sg

-- the assertion on the result
abbrev must_add : Added → Option ShardingInfo
must_add (rr_ok si) = some si
must_add rr_error = none
must_add panicked = none

-- the loop that enters the groups
unfoldable pub add_groups : Bool → Bytes → List ShardGroup → ShardingInfo → Option ShardingInfo
add_groups external dbid [] si = some si
add_groups external dbid (sg ∷ groups) si = do
  si ← must_add (add_shard_group external si (set_local dbid sg))
  add_groups external dbid groups si

unfoldable pub load_terms : ℕ → ℕ → (ℕ → ℕ) → Stream → Option ((ℕ → ℕ) × Stream)
load_terms zero i terms s = some (terms, s)
load_terms (suc rounds) i terms s = do
  (term, s) ← load_unsigned s
  load_terms rounds (i + 1) (write_slot terms i term) s

-- `ShardingInfoRDBLoad`; `none` is a failed assertion
unfoldable pub sharding_info_rdb_load :
    Bool → Bytes → Option ShardingInfo → Stream → Option (ShardingInfo × Stream)
sharding_info_rdb_load external dbid old s = do
  (n, s) ← load_unsigned s
  si ← old
  (groups, s) ← load_times load_group (n % 2 ^ 32) s
  si ← add_groups external dbid groups (reset_sharding si)
  (terms, s) ← load_terms hash_slots 0 si.max_importing_term s
  some (record si { max_importing_term = terms }, s)

-- A group whose text can be read back.
pub record IsGroup (sg : ShardGroup) : Type 0 where
  pub id_line : IsOneLine sg.id
  pub id_string : NoNul sg.id
  pub id_fits : length sg.id ≤ 32
  pub ranges : AllRanges sg.slot_ranges
  pub nodes_valid : AllNodes sg.nodes
  pub few_ranges : length sg.slot_ranges < 2 ^ 32
  pub few_nodes : length sg.nodes < 2 ^ 32

load_times-groups :
    (groups : List ShardGroup) (s : Stream)
    → All IsGroup groups
    → load_times load_group (length groups) (save_each save_group groups s)
      ≡ some (map read_back groups, s)
load_times-groups [] s all = refl
load_times-groups (sg ∷ groups) s (h, all) =
    let back =
      deserialize_group-serialize_group sg h.id_line h.id_string h.id_fits h.ranges h.nodes_valid
        h.few_ranges h.few_nodes in
    rw (back, load_times-groups groups s all) refl

-- the terms come back, and those of other indices stay
load_terms-save_terms :
    (rounds i : ℕ) (terms old : ℕ → ℕ) (s : Stream)
    → (now : ℕ → ℕ) × (load_terms rounds i old (save_terms rounds i terms s) ≡ some (now, s))
      × ((j : ℕ) → now j ≡ (if leb i j && ltb j (i + rounds) then terms j else old j))
unfolding load_terms save_terms
load_terms-save_terms zero i terms old s = (old, refl, (λ j. ground arith))
load_terms-save_terms (suc rounds) i terms old s =
    let (now, run, values) =
      load_terms-save_terms rounds (i + 1) terms (write_slot old i (terms i)) s in
    (now, run, (λ j. ground (arith, values j)))

-- Loading saved groups resets the assignment and then enters the groups, as they are read back, one after
-- the other in the order of the iterator; if none of them is refused, the result is that, with the saved term of every slot.
pub sharding_info_rdb_load-save :
    (external : Bool) (dbid : Bytes) (order : List ShardGroup → List ShardGroup)
    (old si built : ShardingInfo) (rest : Stream)
    → si.shard_groups_num ≡ length (order si.shard_group_map)
    → length (order si.shard_group_map) < 2 ^ 32
    → All IsGroup (order si.shard_group_map)
    → add_groups external dbid (map read_back (order si.shard_group_map)) (reset_sharding old)
      ≡ some built
    → (terms : ℕ → ℕ) × (sharding_info_rdb_load external dbid
          (some old)
          (sharding_info_rdb_save order (some si) rest)
        ≡ some (record built { max_importing_term = terms }, rest))
      × ((j : ℕ) → j < hash_slots → terms j ≡ si.max_importing_term j)
unfolding sharding_info_rdb_load sharding_info_rdb_save
sharding_info_rdb_load-save external dbid order old si built rest count few all enters =
    let (terms, run, values) =
      load_terms-save_terms hash_slots 0 si.max_importing_term built.max_importing_term rest in
    let num : si.shard_groups_num % 2 ^ 32 ≡ length (order si.shard_group_map) =
      omega (arith, count, few) in
    (
      terms,
      rw
          (
            num,
            load_times-groups (order si.shard_group_map)
                (save_terms hash_slots 0 si.max_importing_term rest) all,
            enters,
            run,
          )
          refl,
      (λ j below. ground (arith, values j)),
    )

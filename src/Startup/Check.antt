-- ===== src/Startup/Check.antt =====
-- What holds when the server starts, and what the check of the indices lets through.
use redisraft.Prelude.{
  if_neg, ℕ, ◌+◌, ◌-◌, ◌<◌, ◌≡◌, refl, sym, ap, ◌∙◌, Bool, true, false, ◌||◌, not, Option, none,
  some, ◌==◌, ltb, if◌then◌else◌, arith, bytes_eq, bytes_eq→eq, bytes_eq_refl, lt_ℤ, Bool-cases,
  inl, inr, ℤ, pos, negsuc,
}
use redisraft.Wire.{Bytes}
use redisraft.Metadata.{Metadata}
use redisraft.Log.{Log, log_load, log_reset, prev_log_term, prev_log_index, current_idx, first_idx}
use redisraft.Page.{LogPage, page_reset, page_write_header}
use redisraft.LogImpl.{Ctx, impl_reset}
use redisraft.Snapshot.{SnapshotInfo}
use redisraft.Startup.{
  ltb_ℤ, suc_ℤ, to_ℕ, started, panicked, mismatch, reset_done, settle, loaded_log, load_raft_log,
}

-- The log belongs to the metadata and to the snapshot, or, without a snapshot, begins at the first entry.
abbrev pub Matches : Metadata → SnapshotInfo → Log → Type 0
Matches meta info log =
    (log.dbid ≡ meta.dbid)
    × (info.loaded ≡ true
        → (info.dbid ≡ meta.dbid)
          × (ltb_ℤ info.last_applied_term (prev_log_term log) ≡ false)
          × (ltb_ℤ (suc_ℤ info.last_applied_idx) (pos (prev_log_index log)) ≡ false))
    × (info.loaded ≡ false → prev_log_index log ≡ 0)

three : (a b c : Bool) → (not a || b || c) ≡ false → (a ≡ true) × (b ≡ false) × (c ≡ false)
three true b c h = (refl, ground (arith, h), ground (arith, h))
three false b c h = absurd (ground (arith, h))

true-false : true ≡ false → ⊥
true-false e = cc

mismatch-cases :
    (loaded : Bool) (m n : Bool)
    → (if loaded then m else n) ≡ false
    → (loaded ≡ true → m ≡ false) × (loaded ≡ false → n ≡ false)
mismatch-cases true m n h = ((λ e. h), (λ e. absurd (true-false e)))
mismatch-cases false m n h = ((λ e. absurd (true-false (sym e))), (λ e. h))

mismatch-Matches :
    (meta : Metadata) (info : SnapshotInfo) (log : Log)
    → bytes_eq meta.dbid log.dbid ≡ true
    → mismatch meta info log ≡ false
    → Matches meta info log
unfolding mismatch
mismatch-Matches meta info log same h =
    let (on, off) = mismatch-cases info.loaded _ _ h in
    (
      sym (bytes_eq→eq meta.dbid log.dbid same),
      (λ l. let (d, t, i) = three _ _ _ (on l) in (bytes_eq→eq info.dbid meta.dbid d, t, i)),
      (λ l. ground (arith, off l)),
    )

lt_ℤ_self : (n : ℕ) → lt_ℤ n (pos n) ≡ false
lt_ℤ_self n = ground arith

some-log : (c ctx' : Ctx) → some c ≡ some ctx' → c.log ≡ ctx'.log
some-log c ctx' e = cc

reset_done-started :
    (meta : Metadata) (info info' : SnapshotInfo) (o : Option Ctx) (ctx' : Ctx)
    → reset_done meta info o ≡ started info' ctx'
    → (o ≡ some ctx') × (info' ≡ record info { dbid = meta.dbid })
reset_done-started meta info info' none ctx' h = cc
reset_done-started meta info info' (some ctx) ctx' h = (cc, cc)

not_started : (info : SnapshotInfo) (ctx : Ctx) → panicked ≡ started info ctx → ⊥
not_started info ctx h = cc

if_not {ℓ} : {A : Type ℓ} (b : Bool) (x y : A) → b ≡ true → (if not b then x else y) ≡ y
if_not b x y h = rw h refl

if_loaded : (b m n : Bool) → b ≡ true → m ≡ false → (if b then m else n) ≡ false
if_loaded b m n h k = rw h k

all_false : (a b c : Bool) → a ≡ true → b ≡ false → c ≡ false → (not a || b || c) ≡ false
all_false a b c x y z = rw (x, y, z) refl

mismatch-gap :
    (meta : Metadata) (info : SnapshotInfo) (log : Log) (last : ℕ)
    → info.loaded ≡ true
    → info.dbid ≡ meta.dbid
    → info.last_applied_idx ≡ pos last
    → ltb_ℤ info.last_applied_term (prev_log_term log) ≡ false
    → prev_log_index log ≡ last + 1
    → mismatch meta info log ≡ false
unfolding mismatch
mismatch-gap meta info log last loaded sd idx term gap =
    let fresh : ltb (last + 1) (last + 1) ≡ false = ground arith in
    let id : bytes_eq info.dbid meta.dbid ≡ true = rw sd (bytes_eq_refl meta.dbid) in
    let index : ltb_ℤ (suc_ℤ info.last_applied_idx) (pos (prev_log_index log)) ≡ false =
      rw (idx, gap) fresh in
    if_loaded info.loaded _ _ loaded (all_false _ _ _ id term index)

module _ (crc32 : ℕ → Bytes → ℕ) where
  page_reset-index :
      (written : Bool) (index : ℕ) (term : ℤ) (p : LogPage)
      → (page_reset crc32 written index term p).1.index ≡ index
  unfolding page_reset page_write_header
  page_reset-index true index term p = refl
  page_reset-index false index term p = refl

  impl_reset-current_idx :
      (size : ℕ) (written : Bool) (index : ℕ) (term : ℤ) (ctx ctx' : Ctx)
      → impl_reset size crc32 written (index + 1) term ctx ≡ some ctx'
      → current_idx ctx'.log ≡ index
  unfolding impl_reset log_reset current_idx
  impl_reset-current_idx size written index term ctx ctx' h =
      let e : (index + 1 == 0) ≡ false = ground arith in
      let i = page_reset-index written (index + 1 - 1) term ctx.log.page0 in
      let n : index + 1 - 1 ≡ index = omega arith in
      let same = some-log _ ctx' (rw e at h) in rw (← same) (i ∙ n)

  caught_up :
      (size : ℕ) (written : Bool) (last term : ℤ) (ctx ctx' : Ctx)
      → (if lt_ℤ (current_idx ctx.log) last
          then impl_reset size crc32 written (to_ℕ (suc_ℤ last)) term ctx
          else some ctx)
        ≡ some ctx'
      → lt_ℤ (current_idx ctx'.log) last ≡ false
  caught_up size written (negsuc n) term ctx ctx' h = refl
  caught_up size written (pos l) term ctx ctx' h = elim (Bool-cases (ltb (current_idx ctx.log) l)) [
    | inl behind ↦
        let i = impl_reset-current_idx size written l term ctx ctx' (rw behind at h) in
        rw i (lt_ℤ_self l)
    | inr reached ↦ let same = some-log ctx ctx' (rw reached at h) in rw (← same) reached
  ]

  settle-started :
      (size : ℕ) (written : Bool) (meta : Metadata) (info info' : SnapshotInfo) (ctx ctx' : Ctx)
      → settle size crc32 written meta info ctx ≡ started info' ctx'
      → (lt_ℤ (current_idx ctx'.log) info.last_applied_idx ≡ false)
        × (info' ≡ record info { dbid = meta.dbid })
  unfolding settle
  settle-started size written meta info info' ctx ctx' h =
      let (o, same) = reset_done-started meta info info' _ ctx' h in
      (caught_up size written info.last_applied_idx info.last_applied_term ctx ctx' o, same)

  started-split :
      (size : ℕ) (written : Bool) (meta : Metadata) (info info' : SnapshotInfo) (ctx ctx' : Ctx)
      (o : Option Log)
      → loaded_log size crc32 written meta info ctx o ≡ started info' ctx'
      → (log : Log) × (o ≡ some log)
        × (bytes_eq meta.dbid log.dbid ≡ true)
        × (mismatch meta info log ≡ false)
        × (settle size crc32 written meta info (record ctx { log = log }) ≡ started info' ctx')
  started-split size written meta info info' ctx ctx' none h = cc
  started-split size written meta info info' ctx ctx' (some log) h =
      elim (Bool-cases (bytes_eq meta.dbid log.dbid)) [
        | inl same ↦ elim (Bool-cases (mismatch meta info log)) [
          | inl bad ↦ absurd (not_started info' ctx' (rw (same, bad) at h))
          | inr good ↦ (log, refl, same, good, rw (same, good) at h)
        ]
        | inr other ↦ absurd (not_started info' ctx' (rw other at h))
      ]

  -- If the server starts, the log is of the cluster in the metadata; a snapshot is of that cluster too, its term is not older than
  -- the term before the log and its index at most one less than the index before the log; without a snapshot the log begins at the first
  -- entry. The log that the Raft library is given reaches the last applied entry.
  pub load_raft_log-started :
      (size : ℕ) (written : Bool) (meta : Metadata) (info info' : SnapshotInfo) (ctx ctx' : Ctx)
      → load_raft_log size crc32 written meta info ctx ≡ started info' ctx'
      → (log : Log) × (log_load crc32 ctx.log ≡ some log)
        × Matches meta info log
        × (lt_ℤ (current_idx ctx'.log) info.last_applied_idx ≡ false)
        × (info' ≡ record info { dbid = meta.dbid })
  unfolding load_raft_log
  load_raft_log-started size written meta info info' ctx ctx' h =
      let (log, o, same, good, settled) = started-split size written meta info info' ctx ctx' _ h in
      let (reached, e) =
        settle-started size written meta info info' (record ctx { log = log }) ctx' settled in
      (log, o, mismatch-Matches meta info log same good, reached, e)

  settle-reached :
      (size : ℕ) (written : Bool) (meta : Metadata) (info : SnapshotInfo) (ctx : Ctx)
      → lt_ℤ (current_idx ctx.log) info.last_applied_idx ≡ false
      → settle size crc32 written meta info ctx ≡ started (record info { dbid = meta.dbid }) ctx
  unfolding settle
  settle-reached size written meta info ctx h = ap (reset_done meta info) (if_neg _ _ _ h)

  -- A loaded log that begins two entries behind the last one in the snapshot is accepted and kept as it is, although the entry between them is in
  -- neither.
  pub load_raft_log-gap :
      (size : ℕ) (written : Bool) (meta : Metadata) (info : SnapshotInfo) (ctx : Ctx) (log : Log)
      (last : ℕ)
      → log_load crc32 ctx.log ≡ some log
      → log.dbid ≡ meta.dbid
      → info.loaded ≡ true
      → info.dbid ≡ meta.dbid
      → info.last_applied_idx ≡ pos last
      → ltb_ℤ info.last_applied_term (prev_log_term log) ≡ false
      → prev_log_index log ≡ last + 1
      → last < current_idx log
      → (load_raft_log size crc32 written meta info ctx
          ≡ started (record info { dbid = meta.dbid }) (record ctx { log = log }))
        × (first_idx log ≡ last + 2)
  unfolding load_raft_log first_idx prev_log_index
  load_raft_log-gap size written meta info ctx log last o d loaded sd idx term gap ahead =
      let same : bytes_eq meta.dbid log.dbid ≡ true = rw d (bytes_eq_refl meta.dbid) in
      let kept : lt_ℤ (current_idx log) info.last_applied_idx ≡ false =
        rw idx (ground (arith, ahead)) in
      (
        ap (loaded_log size crc32 written meta info ctx) o
            ∙ if_not _ _ _ same
            ∙ if_neg _ _ _ (mismatch-gap meta info log last loaded sd idx term gap)
            ∙ settle-reached size written meta info (record ctx { log = log }) kept,
        omega (arith, gap),
      )

-- ===== src/Chunks/Part.antt =====
-- Whatever fails on the way, the receiver has a first part of the file, and at the end all of it.
use redisraft.Prelude.{
  if_pos, if_neg, length-drop, length-take_of_le, take-all, ℕ, zero, suc, ◌+◌, ◌-◌, ◌≤◌, ◌<◌, ◌≡◌,
  refl, sym, ap, ◌∙◌, Bool, true, false, ◌||◌, not, some, List, [], ◌∷◌, ◌==◌, leb, ltb,
  if◌then◌else◌, length, take, drop, arith, min, ◌⊎◌, Bool-cases, inl, inr, fits,
}
use redisraft.Wire.{Bytes}
use redisraft.Chunks.{
  Chunk, Limits, get_snapshot_chunk, Incoming, Disk, overwrite, write_at, Stored, stored, open_file,
  write_chunk, store_snapshot_chunk, Transfer, Attempt, answered, deliver, attempt, transfer,
}

take-none {ℓ} : {A : Type ℓ} (k : ℕ) → take {A = A} k [] ≡ []
take-none zero = refl
take-none (suc k) = refl

-- two first parts of one file over each other are the longer one
overwrite-take :
    (g : Bytes) (n k : ℕ)
    → (m : ℕ) × (overwrite (take n g) (take k g) ≡ take m g) × (n ≤ m) × (k ≤ m)
unfolding overwrite
overwrite-take [] n k = (
  n + k,
  rw (take-none {A = ℕ} n, take-none {A = ℕ} k, take-none {A = ℕ} (n + k)) refl,
  omega arith,
  omega arith,
)
overwrite-take (c ∷ g) zero k = (k, refl, omega arith, omega arith)
overwrite-take (c ∷ g) (suc n) zero = (suc n, refl, omega arith, omega arith)
overwrite-take (c ∷ g) (suc n) (suc k) =
    let (m, e, a, b) = overwrite-take g n k in
    (suc m, ap (λ l. c ∷ l) e, omega (arith, a), omega (arith, b))

write_at-take :
    (g : Bytes) (n o k : ℕ)
    → o ≤ n
    → (m : ℕ) × (write_at (take n g) o (take k (drop o g)) ≡ take m g) × (n ≤ m) × (o + k ≤ m)
unfolding write_at
write_at-take g n zero k h = let (m, e, a, b) = overwrite-take g n k in (m, e, a, omega (arith, b))
write_at-take [] n (suc o) k h = (
  n + (suc o + k),
  rw (take-none {A = ℕ} n, take-none {A = ℕ} k, take-none {A = ℕ} (n + (suc o + k))) refl,
  omega arith,
  omega arith,
)
write_at-take (c ∷ g) zero (suc o) k h = absurd (omega arith)
write_at-take (c ∷ g) (suc n) (suc o) k h =
    let (m, e, a, b) = write_at-take g n o k (omega arith) in
    (suc m, ap (λ l. c ∷ l) e, omega (arith, a), omega (arith, b))

take-take_some : (g : Bytes) (w k : ℕ) → (j : ℕ) × (take w (take k g) ≡ take j g)
take-take_some g zero k = (0, refl)
take-take_some g (suc w) zero = (0, refl)
take-take_some [] (suc w) (suc k) = (0, refl)
take-take_some (c ∷ g) (suc w) (suc k) =
    let (j, e) = take-take_some g w k in (suc j, ap (λ l. c ∷ l) e)

-- The receiver has at least the bytes before the offset, and nothing else; before the first chunk it may have anything.
abbrev pub IsPart : Bytes → ℕ → ℕ → Incoming → Type 0
IsPart file idx offset inc =
    (offset ≡ 0) ⊎ ((inc.idx ≡ idx) × (n : ℕ) × (inc.file ≡ some (take n file)) × (offset ≤ n))

-- The bytes that the file has when it is open.
open_file-IsPart :
    (file : Bytes) (idx offset : ℕ) (inc : Incoming)
    → IsPart file idx offset inc
    → (n : ℕ) × (open_file offset inc.file ≡ take n file) × (offset ≤ n)
open_file-IsPart file idx offset inc (inl e) = (0, rw e refl, omega (arith, e))
open_file-IsPart file idx offset inc (inr (i, n, f, le)) = elim (Bool-cases (offset == 0)) [
  | inl first ↦ (0, rw first refl, ground (arith, first))
  | inr later ↦ (n, rw (later, f) refl, le)
]

-- What one call of `raftStoreSnapshotChunk` leaves, for the chunk of `k` bytes at the offset.
abbrev Kept : Bytes → ℕ → ℕ → ℕ → Disk → Stored → Type 0
Kept file idx offset k disk r =
    (done : Bool) × (inc : Incoming) × (r ≡ stored done inc)
    × IsPart file idx offset inc
    × (done ≡ true → IsPart file idx (offset + k) inc)
    × (disk.opens ≡ true → disk.seeks ≡ true → k ≤ disk.writes → done ≡ true)

true-false : false ≡ true → ⊥
true-false e = cc

not-true : (b : Bool) → b ≡ true → not b ≡ false
not-true b h = rw h refl

write_chunk-Kept :
    (file : Bytes) (idx offset k n : ℕ) (disk : Disk) (inc : Incoming) (now : Bytes)
    → inc.idx ≡ idx
    → now ≡ take n file
    → offset ≤ n
    → length (take k (drop offset file)) ≡ k
    → Kept file idx offset k disk (write_chunk disk offset (take k (drop offset file)) inc now)
write_chunk-Kept file idx offset k n disk inc now i e le len = elim (Bool-cases disk.seeks) [
  | inl seeks ↦ elim (Bool-cases (leb (length (take k (drop offset file))) disk.writes)) [
    | inl enough ↦
        let body = take k (drop offset file) in
        let t = take-all body disk.writes (ground (arith, enough)) in
        let (m, w, nm, om) = write_at-take file n offset k le in
        (
          true,
          record inc { file = some (write_at now offset (take disk.writes body)) },
          rw (seeks, enough) refl,
          inr (i, m, rw (e, t, w) refl, omega (arith, om)),
          (λ h. inr (i, m, rw (e, t, w) refl, om)),
          (λ o s w. refl),
        )
    | inr short ↦
        let (j, t) = take-take_some (drop offset file) disk.writes k in
        let (m, w, nm, om) = write_at-take file n offset j le in
        (
          false,
          record inc {
            file = some (write_at now offset (take disk.writes (take k (drop offset file))));
          },
          rw (seeks, short) refl,
          inr (i, m, rw (e, t, w) refl, omega (arith, om)),
          (λ h. absurd (true-false h)),
          (λ o s w. absurd (ground (arith, short, len, w))),
        )
  ]
  | inr stuck ↦ (
    false,
    record inc { file = some now },
    rw stuck refl,
    inr (i, n, ap some e, le),
    (λ h. absurd (true-false h)),
    (λ o s w. absurd (true-false (sym stuck ∙ s))),
  )
]

idx_now :
    (file : Bytes) (idx offset : ℕ) (inc : Incoming)
    → IsPart file idx offset inc
    → (if offset == 0 then idx else inc.idx) ≡ idx
idx_now file idx offset inc (inl e) = rw e refl
idx_now file idx offset inc (inr (i, n, f, le)) = ground (arith, i)

IsPart-kept :
    (file : Bytes) (idx offset : ℕ) (inc : Incoming)
    → IsPart file idx offset inc
    → IsPart file idx offset (record inc { idx = if offset == 0 then idx else inc.idx })
IsPart-kept file idx offset inc (inl e) = inl e
IsPart-kept file idx offset inc (inr (i, n, f, le)) = inr (ground (arith, i), n, f, le)

store_snapshot_chunk-Kept :
    (file : Bytes) (idx offset k : ℕ) (disk : Disk) (inc : Incoming)
    → IsPart file idx offset inc
    → length (take k (drop offset file)) ≡ k
    → Kept file idx offset k disk
        (store_snapshot_chunk disk idx offset (take k (drop offset file)) inc)
unfolding store_snapshot_chunk
store_snapshot_chunk-Kept file idx offset k disk inc part len =
    let (n, e, le) = open_file-IsPart file idx offset inc part in
    let i = idx_now file idx offset inc part in
    let same : ((if offset == 0 then idx else inc.idx) == idx) ≡ true = rw i (ground arith) in
    elim (Bool-cases disk.opens) [
      | inl opens ↦
          let inc0 : Incoming = record inc { idx = if offset == 0 then idx else inc.idx } in
          let (done, inc', r, kept, more, ok) =
            write_chunk-Kept file idx offset k n disk inc0 _ i e le len in
          (done, inc', if_neg _ _ _ (not-true _ same) ∙ if_pos _ _ _ opens ∙ r, kept, more, ok)
      | inr closed ↦ (
        false,
        record inc { idx = if offset == 0 then idx else inc.idx },
        rw (same, closed) refl,
        IsPart-kept file idx offset inc part,
        (λ h. absurd (true-false h)),
        (λ o s w. absurd (true-false (sym closed ∙ o))),
      )
    ]

-- An attempt that can succeed: the node is connected and not too busy, and its disk takes the chunk.
abbrev pub Succeeds : Limits → Attempt → Type 0
Succeeds limits a =
    (a.connected ≡ true)
    × (a.pending < limits.max_count)
    × (a.disk.opens ≡ true)
    × (a.disk.seeks ≡ true)
    × (limits.max_size ≤ a.disk.writes)

abbrev pub IsTransfer : Bytes → ℕ → Transfer → Type 0
IsTransfer file idx t = (t.offset ≤ length file) × IsPart file idx t.offset t.incoming

-- the offset after a successful attempt
abbrev next_offset : Limits → Bytes → ℕ → ℕ
next_offset limits file offset = offset + min limits.max_size (length file - offset)

length-chunk :
    (file : Bytes) (offset k : ℕ)
    → k ≤ length file - offset
    → length (take k (drop offset file)) ≡ k
length-chunk file offset k h =
    length-take_of_le (drop offset file) k (omega (arith, length-drop offset file, h))

answered-IsTransfer :
    (limits : Limits) (file : Bytes) (idx len : ℕ) (t : Transfer) (a : Attempt) (inc : Incoming)
    (done : Bool)
    → len ≤ length file - t.offset
    → t.offset ≤ length file
    → length (take len (drop t.offset file)) ≡ len
    → IsPart file idx t.offset inc
    → (done ≡ true → IsPart file idx (t.offset + len) inc)
    → (a.disk.opens ≡ true → a.disk.seeks ≡ true → len ≤ a.disk.writes → done ≡ true)
    → (t' : Transfer) × (answered (length (take len (drop t.offset file))) t (stored done inc)
        ≡ some t')
      × IsTransfer file idx t'
      × (t.offset ≤ t'.offset)
      × (a.disk.opens ≡ true
          → a.disk.seeks ≡ true
          → len ≤ a.disk.writes
          → t'.offset ≡ t.offset + len)
answered-IsTransfer limits file idx len t a inc true fits bound size kept more ok = (
  record { offset = t.offset + len; incoming = inc },
  rw size refl,
  (omega arith, more refl),
  omega arith,
  (λ o s w. refl),
)
answered-IsTransfer limits file idx len t a inc false fits bound size kept more ok = (
  record t { incoming = inc },
  refl,
  (bound, kept),
  omega arith,
  (λ o s w. absurd (true-false (ok o s w))),
)

attempt-IsTransfer :
    (limits : Limits) (file : Bytes) (idx : ℕ) (t : Transfer) (a : Attempt)
    → IsTransfer file idx t
    → (t' : Transfer) × (attempt limits file idx t a ≡ some t')
      × IsTransfer file idx t'
      × (t.offset ≤ t'.offset)
      × (Succeeds limits a → t'.offset ≡ next_offset limits file t.offset)
unfolding attempt get_snapshot_chunk
attempt-IsTransfer limits file idx t a (bound, part) =
    elim (Bool-cases (not a.connected || leb limits.max_count a.pending)) [
      | inl waits ↦ (
        t,
        rw waits refl,
        (bound, part),
        omega arith,
        (λ (c, p, _, _, _). absurd (ground (arith, waits, c, p))),
      )
      | inr ready ↦
          let inside : ltb (length file) t.offset ≡ false = ground (arith, bound) in
          let len = min limits.max_size (length file - t.offset) in
          elim (Bool-cases (len == 0)) [
            | inl nothing ↦ (
              t,
              rw (ready, inside, nothing) refl,
              (bound, part),
              omega arith,
              (λ s. ground (arith, nothing)),
            )
            | inr some_bytes ↦
                let size = length-chunk file t.offset len (omega arith) in
                let (done, inc', r, kept, more, ok) =
                  store_snapshot_chunk-Kept file idx t.offset len a.disk t.incoming part size in
                let chunk_now : Chunk = record {
                  body = take len (drop t.offset file);
                  last_chunk = t.offset + len == length file;
                } in
                let (t', e, next, forth, succeeds) =
                  answered-IsTransfer limits file idx len t a inc' done (omega arith) bound size
                    kept more ok in
                (
                  t',
                  ap (deliver a idx t)
                        (if_neg _ _ _ ready ∙ if_neg _ _ _ inside ∙ if_neg _ _ _ some_bytes)
                      ∙ ap (answered (length chunk_now.body) t) r
                      ∙ e,
                  next,
                  forth,
                  (λ (c, p, o, s, w). succeeds o s (omega (arith, w))),
                )
          ]
    ]

-- at least so many of the attempts can succeed
abbrev pub Succeeding : Limits → ℕ → List Attempt → Type 0
Succeeding limits zero attempts = Unit
Succeeding limits (suc n) [] = ⊥
Succeeding limits (suc n) (a ∷ attempts) =
    (Succeeds limits a × Succeeding limits n attempts) ⊎ Succeeding limits (suc n) attempts

-- the bytes of so many full chunks
abbrev pub chunks : Limits → ℕ → ℕ
chunks limits zero = 0
chunks limits (suc n) = limits.max_size + chunks limits n

-- where an attempt gets to with enough of them left
abbrev Arrives : Limits → Bytes → ℕ → List Attempt → Transfer → Type 0
Arrives limits file offset attempts t' =
    (n : ℕ)
    → Succeeding limits n attempts
    → length file ≤ offset + chunks limits n
    → t'.offset ≡ length file

Arrives-step :
    (limits : Limits) (file : Bytes) (t mid t' : Transfer) (a : Attempt) (attempts : List Attempt)
    → t.offset ≤ mid.offset
    → mid.offset ≤ length file
    → (Succeeds limits a → mid.offset ≡ next_offset limits file t.offset)
    → Arrives limits file mid.offset attempts t'
    → Arrives limits file t.offset (a ∷ attempts) t'
Arrives-step limits file t mid t' a attempts forth bound succeeds later zero h enough =
    later zero tt (omega arith)
Arrives-step limits file t mid t' a attempts forth bound succeeds later (suc n) (inl (s, rest))
      enough =
    let e = succeeds s in later n rest (omega arith)
Arrives-step limits file t mid t' a attempts forth bound succeeds later (suc n) (inr rest) enough =
    later (suc n) rest (omega arith)

Arrives-end :
    (limits : Limits) (file : Bytes) (t : Transfer)
    → t.offset ≤ length file
    → Arrives limits file t.offset [] t
Arrives-end limits file t bound zero h enough = omega arith
Arrives-end limits file t bound (suc n) h enough = absurd h

transfer-IsTransfer :
    (limits : Limits) (file : Bytes) (idx : ℕ) (t : Transfer) (attempts : List Attempt)
    → IsTransfer file idx t
    → (t' : Transfer) × (transfer limits file idx t attempts ≡ some t')
      × IsTransfer file idx t'
      × Arrives limits file t.offset attempts t'
unfolding transfer
transfer-IsTransfer limits file idx t [] h = (t, refl, h, Arrives-end limits file t h.0)
transfer-IsTransfer limits file idx t (a ∷ attempts) h =
    let (mid, e, next, forth, succeeds) = attempt-IsTransfer limits file idx t a h in
    let (t', run, last, arrives) = transfer-IsTransfer limits file idx mid attempts next in
    (t', rw e run, last, Arrives-step limits file t mid t' a attempts forth next.0 succeeds arrives)

whole :
    (file : Bytes) (idx : ℕ) (t : Transfer)
    → IsTransfer file idx t
    → t.offset ≡ length file
    → 0 < length file
    → t.incoming.file ≡ some file
whole file idx t (bound, inl e) end positive = absurd (omega arith)
whole file idx t (bound, inr (i, n, f, le)) end positive =
    f ∙ ap some (take-all file n (omega arith))

-- Sending a file from its start, with whatever attempts and whatever the receiver had before: no attempt
-- ends the process, and once the first chunk is stored the receiver has a first part of the file that goes at least to the sender's offset.
pub transfer_safe :
    (limits : Limits) (file : Bytes) (idx : ℕ) (old : Incoming) (attempts : List Attempt)
    → (t : Transfer) × (transfer limits file idx (record { offset = 0; incoming = old }) attempts
        ≡ some t)
      × IsTransfer file idx t
transfer_safe limits file idx old attempts =
    let (t, run, part, arrives) =
      transfer-IsTransfer limits file idx (record { offset = 0; incoming = old }) attempts
        (omega arith, inl refl) in
    (t, run, part)

-- When among the attempts, with any failures between them, there are so many that can succeed that full chunks of them make up the file, the
-- sender gets to its end, and the receiver has the file, whatever it had before.
pub transfer_completes :
    (limits : Limits) (file : Bytes) (idx n : ℕ) (old : Incoming) (attempts : List Attempt)
    → 0 < length file
    → Succeeding limits n attempts
    → length file ≤ chunks limits n
    → (t : Transfer) × (transfer limits file idx (record { offset = 0; incoming = old }) attempts
        ≡ some t)
      × (t.offset ≡ length file)
      × (t.incoming.file ≡ some file)
transfer_completes limits file idx n old attempts positive h enough =
    let (t, run, part, arrives) =
      transfer-IsTransfer limits file idx (record { offset = 0; incoming = old }) attempts
        (omega arith, inl refl) in
    let end = arrives n h (omega arith) in (t, run, end, whole file idx t part end positive)

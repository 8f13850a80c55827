-- ===== src/Metadata/Crash.antt =====
-- The metadata file is the old one or the new one, whatever stops a write.
use redisraft.Prelude.{
  ℕ, zero, suc, ◌+◌, ◌≤◌, ◌<◌, ◌≡◌, ◌⊎◌, Bool, refl, sym, ap, ◌∙◌, true, false, Option, none, some,
  List, [], ◌∷◌, ◌++◌, length, take, take-all, arith, ltb, Bool-cases, inl, inr, ℤ, append_assoc,
  append-nil,
}
use redisraft.Wire.{Bytes}
use redisraft.Metadata.{
  Metadata, Disk, Call, create, put, swap, perform, run, writes, metadata_calls, metadata_text,
  metadata_write, metadata_read, Outcomes,
}
use redisraft.Metadata.RoundTrip.{IsMetadata, read_text-metadata_text}

abbrev with_tmp : Bytes → Option Bytes → Disk
with_tmp file meta = record { tmp = some file; meta = meta }

run-writes :
    (text : Bytes) (calls : List Call) (file : Bytes) (meta : Option Bytes)
    → run (writes text calls) (with_tmp file meta) ≡ run calls (with_tmp (file ++ text) meta)
run-writes [] calls file meta = ap (λ f. run calls (with_tmp f meta)) (sym (append-nil file))
run-writes (c ∷ text) calls file meta =
    run-writes text calls (file ++ c ∷ []) meta
    ∙ ap (λ f. run calls (with_tmp f meta)) (append_assoc file (c ∷ []) text)

meta-take-writes :
    (text : Bytes) (calls : List Call) (n : ℕ) (d : Disk)
    → n ≤ length text
    → (run (take n (writes text calls)) d).meta ≡ d.meta
meta-take-writes text calls zero d h = refl
meta-take-writes [] calls (suc n) d h = absurd (omega arith)
meta-take-writes (c ∷ text) calls (suc n) d h =
    meta-take-writes text calls n (perform (put c) d) (omega arith)

meta-take-run_puts :
    (text : Bytes) (n : ℕ) (d : Disk) → (run (take n (writes text [])) d).meta ≡ d.meta
meta-take-run_puts text zero d = refl
meta-take-run_puts [] (suc n) d = refl
meta-take-run_puts (c ∷ text) (suc n) d = meta-take-run_puts text n (perform (put c) d)

meta-run_puts : (text : Bytes) (d : Disk) → (run (writes text []) d).meta ≡ d.meta
meta-run_puts [] d = refl
meta-run_puts (c ∷ text) d = meta-run_puts text (perform (put c) d)

length-writes :
    (text : Bytes) (calls : List Call) → length (writes text calls) ≡ length text + length calls
length-writes [] calls = omega arith
length-writes (c ∷ text) calls = omega (arith, length-writes text calls)

run-metadata_calls :
    (text : Bytes) (d : Disk)
    → run (metadata_calls text) d ≡ record { tmp = none; meta = some text }
run-metadata_calls text d = run-writes text (swap ∷ []) [] d.meta

-- what is read depends on the file alone
same_meta : (d d' : Disk) → d.meta ≡ d'.meta → metadata_read d ≡ metadata_read d'
unfolding metadata_read
same_meta d d' e = rw e refl

new_meta :
    (m : Metadata) (d : Disk)
    → IsMetadata m
    → metadata_read (run (metadata_calls (metadata_text m)) d) ≡ some (some m)
unfolding metadata_read
new_meta m d h = rw (run-metadata_calls (metadata_text m) d, read_text-metadata_text m h) refl

-- Where `MetadataWrite` of a term and a vote, whose fields fit their types, is cut short by a crash after some of the calls to the file
-- system, `MetadataRead` gives what it gave before; after all of them it gives the new term and vote.
pub metadata_read-take :
    (m : Metadata) (disk : Disk) (n : ℕ)
    → IsMetadata m
    → let calls = metadata_calls (metadata_text m) in
      let after = metadata_read (run (take n calls) disk) in
      ((n < length calls) × (after ≡ metadata_read disk))
      ⊎ ((length calls ≤ n) × (after ≡ some (some m)))
metadata_read-take m disk zero h = inl (omega arith, refl)
metadata_read-take m disk (suc n) h =
    let text = metadata_text m in
    let size = length-writes text (swap ∷ []) in
    elim (Bool-cases (ltb (length text) n)) [
      | inr some_left ↦ inl (
        ground (arith, some_left, size),
        same_meta (run (take n (writes text (swap ∷ []))) (perform create disk)) disk
            (meta-take-writes text (swap ∷ []) n (perform create disk) (ground (arith, some_left))),
      )
      | inl all ↦ inr (
        ground (arith, all, size),
        rw (take-all (writes text (swap ∷ [])) n (ground (arith, all, size))) (new_meta m disk h),
      )
    ]

-- every call up to the rename, and the rename, succeeds
abbrev pub Renamed : Outcomes → Type 0
Renamed o =
    (o.opens ≡ true)
    × (o.write_fails ≡ none)
    × (o.syncs ≡ true)
    × (o.syncs_dir ≡ true)
    × (o.renames ≡ true)

before_rename :
    (m : Metadata) (disk : Disk)
    → metadata_read (run (writes (metadata_text m) []) (perform create disk)) ≡ metadata_read disk
before_rename m disk = same_meta _ disk (meta-run_puts (metadata_text m) (perform create disk))

run-puts_swap :
    (text : Bytes) (d : Disk)
    → perform swap (run (writes text []) (perform create d)) ≡ run (metadata_calls text) d
run-puts_swap text d =
    ap (perform swap) (run-writes text [] [] d.meta) ∙ sym (run-metadata_calls text d)

after_rename :
    (m : Metadata) (disk : Disk)
    → IsMetadata m
    → metadata_read (perform swap (run (writes (metadata_text m) []) (perform create disk)))
      ≡ some (some m)
after_rename m disk h = rw (run-puts_swap (metadata_text m) disk) (new_meta m disk h)

by_outcome :
    (disk : Disk) (m : Metadata) (term vote : ℤ)
    → IsMetadata (record m { term = term; vote = vote })
    → (opens : Bool) (write_fails : Option ℕ) (syncs syncs_dir renames syncs_rename : Bool)
    → let o : Outcomes = record {
      opens = opens;
      write_fails = write_fails;
      syncs = syncs;
      syncs_dir = syncs_dir;
      renames = renames;
      syncs_rename = syncs_rename;
    } in
      let (after, result) = metadata_write o disk m term vote in
      let new = record m { term = term; vote = vote } in
      (Renamed o
        × (syncs_rename ≡ true)
        × (result ≡ some (true, new))
        × (metadata_read after ≡ some (some new)))
      ⊎ (Renamed o
          × (syncs_rename ≡ false)
          × (result ≡ none)
          × (metadata_read after ≡ some (some new)))
      ⊎ ((¬ (Renamed o))
          × ((result ≡ none) ⊎ (result ≡ some (false, m)))
          × (metadata_read after ≡ metadata_read disk))
unfolding metadata_write
by_outcome disk m term vote h false w s ds r rs = inr (inr ((λ p. cc), inl refl, refl))
by_outcome disk m term vote h true (some k) s ds r rs = inr (
    inr (
      (λ p. cc),
      inl refl,
      same_meta _ disk (
          meta-take-run_puts (metadata_text (record m { term = term; vote = vote })) k
            (perform create disk)),
    ))
by_outcome disk m term vote h true none false ds r rs =
    inr (inr ((λ p. cc), inr refl, before_rename _ disk))
by_outcome disk m term vote h true none true false r rs =
    inr (inr ((λ p. cc), inl refl, before_rename _ disk))
by_outcome disk m term vote h true none true true false rs =
    inr (inr ((λ p. cc), inr refl, before_rename _ disk))
by_outcome disk m term vote h true none true true true false =
    inr (inl ((refl, refl, refl, refl, refl), refl, refl, after_rename _ disk h))
by_outcome disk m term vote h true none true true true true =
    inl ((refl, refl, refl, refl, refl), refl, refl, after_rename _ disk h)

-- `MetadataWrite` of a term and a vote, with fields that fit their types. Where all calls succeed it succeeds, and `MetadataRead` gives
-- the new term and vote. Where only the sync of the directory after the rename fails it panics, and `MetadataRead` gives the new ones too.
-- Where a call before that fails it panics or returns an error with the old values, and `MetadataRead` gives what it gave before.
pub metadata_read-metadata_write :
    (o : Outcomes) (disk : Disk) (m : Metadata) (term vote : ℤ)
    → IsMetadata (record m { term = term; vote = vote })
    → let (after, result) = metadata_write o disk m term vote in
      let new = record m { term = term; vote = vote } in
      (Renamed o
        × (o.syncs_rename ≡ true)
        × (result ≡ some (true, new))
        × (metadata_read after ≡ some (some new)))
      ⊎ (Renamed o
          × (o.syncs_rename ≡ false)
          × (result ≡ none)
          × (metadata_read after ≡ some (some new)))
      ⊎ ((¬ (Renamed o))
          × ((result ≡ none) ⊎ (result ≡ some (false, m)))
          × (metadata_read after ≡ metadata_read disk))
metadata_read-metadata_write o disk m term vote h =
    by_outcome disk m term vote h o.opens o.write_fails o.syncs o.syncs_dir o.renames o.syncs_rename

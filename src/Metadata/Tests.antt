-- ===== src/Metadata/Tests.antt =====
-- A node votes for itself in a new term, and takes its vote back.
use redisraft.Prelude.{
  ℕ, zero, suc, ◌≤◌, ◌<◌, ◌≡◌, ◌⊎◌, refl, true, false, none, some, length, take, replicate, arith,
  pos, negsuc,
}
use redisraft.NodeAddr.Parse.{NoNul}
use redisraft.Metadata.{
  Metadata, Disk, run, metadata_calls, metadata_text, metadata_write, metadata_read, Outcomes,
}
use redisraft.Metadata.RoundTrip.{IsMetadata}
use redisraft.Metadata.Crash.{Renamed, metadata_read-take, metadata_read-metadata_write}

abbrev voted : Metadata
voted = record { dbid = replicate 32 97; node_id = pos 5; term = pos 8; vote = pos 5 }

abbrev not_voted : Metadata
not_voted = record { dbid = replicate 32 97; node_id = pos 5; term = pos 9; vote = negsuc 0 }

replicate-NoNul : (n : ℕ) → NoNul (replicate n 97)
replicate-NoNul zero = tt
replicate-NoNul (suc n) = ((λ e. omega arith), replicate-NoNul n)

not_voted-IsMetadata : IsMetadata not_voted
not_voted-IsMetadata = record {
  dbid_length = refl;
  dbid_string = replicate-NoNul 32;
  node_fits = refl;
  term_fits = refl;
  vote_fits = refl;
}

abbrev before : Disk
before = record { tmp = none; meta = some (metadata_text voted) }

metadata_read-take_example :
    let after = metadata_read (run (take 7 (metadata_calls (metadata_text not_voted))) before) in
    ((7 < length (metadata_calls (metadata_text not_voted))) × (after ≡ metadata_read before))
    ⊎ ((length (metadata_calls (metadata_text not_voted)) ≤ 7) × (after ≡ some (some not_voted)))
metadata_read-take_example = metadata_read-take not_voted before 7 not_voted-IsMetadata

-- everything succeeds up to the rename, and the directory cannot be synced
abbrev rename_not_synced : Outcomes
rename_not_synced = record {
  opens = true;
  write_fails = none;
  syncs = true;
  syncs_dir = true;
  renames = true;
  syncs_rename = false;
}

metadata_read-metadata_write_example :
    let (after, result) = metadata_write rename_not_synced before voted (pos 9) (negsuc 0) in
    (Renamed rename_not_synced
      × (false ≡ true)
      × (result ≡ some (true, not_voted))
      × (metadata_read after ≡ some (some not_voted)))
    ⊎ (Renamed rename_not_synced
        × (false ≡ false)
        × (result ≡ none)
        × (metadata_read after ≡ some (some not_voted)))
    ⊎ ((¬ (Renamed rename_not_synced))
        × ((result ≡ none) ⊎ (result ≡ some (false, voted)))
        × (metadata_read after ≡ metadata_read before))
metadata_read-metadata_write_example =
    metadata_read-metadata_write rename_not_synced before voted (pos 9) (negsuc 0)
      not_voted-IsMetadata

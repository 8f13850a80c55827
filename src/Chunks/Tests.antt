-- ===== src/Chunks/Tests.antt =====
-- Three bytes in chunks of two, with a write that fails half-way.
use redisraft.Prelude.{◌≡◌, refl, true, some, [], ◌∷◌, arith, inl, inr}
use redisraft.Wire.{Bytes}
use redisraft.Chunks.{Limits, Incoming, Attempt, Transfer, transfer}
use redisraft.Chunks.Part.{Succeeds, IsTransfer, transfer_safe, transfer_completes}

abbrev limits : Limits
limits = record { max_count = 4; max_size = 2 }

abbrev file : Bytes
file = 7 ∷ 8 ∷ 9 ∷ []

abbrev old : Incoming
old = record { idx = 3; file = some (1 ∷ 1 ∷ 1 ∷ 1 ∷ []) }

abbrev good : Attempt
good = record {
  connected = true;
  pending = 0;
  disk = record { opens = true; seeks = true; writes = 64 };
}

abbrev half : Attempt
half = record good { disk = record { opens = true; seeks = true; writes = 1 } }

good-Succeeds : Succeeds limits good
good-Succeeds = (refl, omega arith, refl, refl, omega arith)

transfer_safe_example :
    (t : Transfer) × (transfer limits file 5
        (record { offset = 0; incoming = old })
        (half ∷ good ∷ [])
      ≡ some t)
    × IsTransfer file 5 t
transfer_safe_example = transfer_safe limits file 5 old (half ∷ good ∷ [])

transfer_completes_example :
    (t : Transfer) × (transfer limits file 5
        (record { offset = 0; incoming = old })
        (half ∷ good ∷ half ∷ good ∷ [])
      ≡ some t)
    × (t.offset ≡ 3)
    × (t.incoming.file ≡ some file)
transfer_completes_example =
    transfer_completes limits file 5 2 old (half ∷ good ∷ half ∷ good ∷ []) (omega arith)
      (inr (inl (good-Succeeds, inr (inl (good-Succeeds, tt))))) (omega arith)

-- ===== src/SlotCompute/Shared.antt =====
-- What it means that a slot is computed.
use redisraft.Prelude.{
  ℕ, ◌≡◌, ◌≢◌, ◌↔◌, refl, inl, inr, Option, none, some, List, [], ◌∷◌, ◌++◌, ◌==◌, ◌>>=◌, arith,
  Bool-cases, bind_congr,
}
use redisraft.Wire.{Bytes}
use redisraft.Commands.{Command, CommandArray}
use redisraft.HashSlot.{key_hash_slot}
use redisraft.SlotCompute.{compute_keys, compute_commands, hash_slot_compute}

module _ (crc : Bytes → ℕ) (keys_of : Command → List Bytes) where
  -- all keys of the commands
  abbrev pub all_keys : List Command → List Bytes
  all_keys [] = []
  all_keys (cmd ∷ cmds) = keys_of cmd ++ all_keys cmds

  -- every key has the slot
  abbrev pub AllIn : ℕ → List Bytes → Type 0
  AllIn slot [] = Unit
  AllIn slot (key ∷ keys) = (key_hash_slot crc key ≡ slot) × AllIn slot keys

  compute_keys-append :
      (xs ys : List Bytes) (slot : Option ℕ)
      → compute_keys crc keys_of (xs ++ ys) slot
        ≡ (compute_keys crc keys_of xs slot >>= compute_keys crc keys_of ys)
  unfolding compute_keys
  compute_keys-append [] ys slot = refl
  compute_keys-append (x ∷ xs) ys none = compute_keys-append xs ys (some (key_hash_slot crc x))
  compute_keys-append (x ∷ xs) ys (some slot) = elim (Bool-cases (slot == key_hash_slot crc x)) [
    | inl same ↦ rw same (compute_keys-append xs ys (some slot))
    | inr other ↦ rw other refl
  ]

  compute_commands-eq :
      (cmds : List Command) (slot : Option ℕ)
      → compute_commands crc keys_of cmds slot ≡ compute_keys crc keys_of (all_keys cmds) slot
  unfolding compute_commands compute_keys
  compute_commands-eq [] slot = refl
  compute_commands-eq (cmd ∷ cmds) slot =
      rw (compute_keys-append (keys_of cmd) (all_keys cmds) slot)
        (bind_congr (compute_keys crc keys_of (keys_of cmd) slot) _ _ (compute_commands-eq cmds))

  compute_keys-AllIn :
      (keys : List Bytes) (slot : ℕ)
      → AllIn slot keys
      → compute_keys crc keys_of keys (some slot) ≡ some (some slot)
  unfolding compute_keys
  compute_keys-AllIn [] slot h = refl
  compute_keys-AllIn (key ∷ keys) slot h = ground (arith, h.0, compute_keys-AllIn keys slot h.1)

  compute_keys-inv :
      (keys : List Bytes) (first slot : ℕ)
      → compute_keys crc keys_of keys (some first) ≡ some (some slot)
      → (first ≡ slot) × AllIn slot keys
  unfolding compute_keys
  compute_keys-inv [] first slot h = (cc, tt)
  compute_keys-inv (key ∷ keys) first slot h = elim (Bool-cases (first == key_hash_slot crc key)) [
    | inl same ↦
        let (e, all) = compute_keys-inv keys first slot (ground (arith, same, h)) in
        (e, (ground (arith, same, e), all))
    | inr other ↦ absurd (ground (arith, other, h))
  ]

  first_key :
      (keys : List Bytes) (slot : ℕ)
      → (compute_keys crc keys_of keys none ≡ some (some slot)) ↔ ((keys ≢ []) × AllIn slot keys)
  unfolding compute_keys
  first_key [] slot = ((λ h. cc), λ h. absurd (h.0 refl))
  first_key (key ∷ keys) slot = (
    (λ h.
        let (e, all) = compute_keys-inv keys (key_hash_slot crc key) slot h in
        ((λ n. cc), (e, all))),
    (λ h. rw h.1.0 (compute_keys-AllIn keys slot h.1.1)),
  )

  -- `HashSlotCompute` returns RR_OK with a slot exactly where the commands have a key and all keys of all of them have that
  -- slot, however the keys are spread over the commands.
  pub hash_slot_compute_iff :
      (cmds : CommandArray) (slot : ℕ)
      → (hash_slot_compute crc keys_of cmds ≡ some (some slot))
        ↔ ((all_keys cmds.commands ≢ []) × AllIn slot (all_keys cmds.commands))
  unfolding hash_slot_compute
  hash_slot_compute_iff cmds slot =
      rw (compute_commands-eq cmds.commands none) (first_key (all_keys cmds.commands) slot)

  -- A command array with no keys has no slot, and that is no error.
  pub hash_slot_compute-none :
      (cmds : CommandArray)
      → all_keys cmds.commands ≡ []
      → hash_slot_compute crc keys_of cmds ≡ some none
  unfolding hash_slot_compute compute_keys
  hash_slot_compute-none cmds h = rw (compute_commands-eq cmds.commands none, h) refl

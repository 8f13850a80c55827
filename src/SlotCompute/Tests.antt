-- ===== src/SlotCompute/Tests.antt =====
-- Two commands on one tag.
use redisraft.Prelude.{ℕ, ◌≡◌, ◌≢◌, ◌↔◌, ◌+◌, refl, none, some, List, [], ◌∷◌}
use redisraft.Wire.{Bytes}
use redisraft.Commands.{Command, CommandArray, empty_array}
use redisraft.SlotCompute.{hash_slot_compute}
use redisraft.SlotCompute.Shared.{hash_slot_compute_iff, hash_slot_compute-none, all_keys, AllIn}

abbrev checksum : Bytes → ℕ
checksum [] = 0
checksum (c ∷ s) = c + checksum s

-- the argument behind the name, as for GET
abbrev second_argument : Command → List Bytes
second_argument (name ∷ key ∷ rest) = key ∷ []
second_argument _ = []

abbrev two_gets : CommandArray
two_gets = record empty_array {
  commands = ((103 ∷ []) ∷ (107 ∷ []) ∷ []) ∷ ((103 ∷ []) ∷ (107 ∷ []) ∷ []) ∷ [];
}

hash_slot_compute_iff_example :
    (hash_slot_compute checksum second_argument two_gets ≡ some (some 107)) ↔ (
      (all_keys checksum second_argument two_gets.commands ≢ [])
      × AllIn checksum second_argument 107 (all_keys checksum second_argument two_gets.commands))
hash_slot_compute_iff_example = hash_slot_compute_iff checksum second_argument two_gets 107

hash_slot_compute-none_example : hash_slot_compute checksum second_argument empty_array ≡ some none
hash_slot_compute-none_example = hash_slot_compute-none checksum second_argument empty_array refl

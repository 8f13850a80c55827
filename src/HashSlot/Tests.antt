-- ===== src/HashSlot/Tests.antt =====
-- Keys at concrete values, with the sum of the bytes for a checksum.
use redisraft.Prelude.{ℕ, ◌+◌, ◌<◌, ◌≡◌, [], ◌∷◌, ◌++◌, arith}
use redisraft.Wire.{Bytes}
use redisraft.HashSlot.{key_hash_slot, slot_of, open_brace, close_brace}
use redisraft.HashSlot.Tags.{key_hash_slot-lt, key_hash_slot-plain, key_hash_slot-tag, Lacks}

abbrev sum : Bytes → ℕ
sum [] = 0
sum (c ∷ s) = c + sum s

abbrev user_key : Bytes
user_key = 117 ∷ 49 ∷ []

user_key-Lacks_open : Lacks open_brace user_key
user_key-Lacks_open = ((λ e. omega arith), ((λ e. omega arith), tt))

user_key-Lacks_close : Lacks close_brace user_key
user_key-Lacks_close = ((λ e. omega arith), ((λ e. omega arith), tt))

key_hash_slot-lt_example : key_hash_slot sum user_key < 16384
key_hash_slot-lt_example = key_hash_slot-lt sum user_key

key_hash_slot-plain_example : key_hash_slot sum user_key ≡ slot_of sum user_key
key_hash_slot-plain_example = key_hash_slot-plain sum user_key user_key-Lacks_open

key_hash_slot-tag_example :
    key_hash_slot sum (user_key ++ open_brace ∷ (user_key ++ close_brace ∷ []))
    ≡ slot_of sum user_key
key_hash_slot-tag_example =
    key_hash_slot-tag sum user_key user_key [] user_key-Lacks_open user_key-Lacks_close (λ e. cc)

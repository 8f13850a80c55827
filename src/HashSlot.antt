-- ===== src/HashSlot.antt =====
-- util.c: the hash slot of a key, with its `{tag}`. `crc` is `crc16_ccitt` of deps/common.
pub mod Tags
mod Tests
use redisraft.Prelude.{
  ℕ, suc, ◌+◌, ◌-◌, ◌%◌, ◌||◌, List, [], ◌∷◌, ◌==◌, if◌then◌else◌, length, take, drop,
}
use redisraft.Wire.{Bytes}

abbrev pub open_brace : ℕ
open_brace = 123

abbrev pub close_brace : ℕ
close_brace = 125

-- the loops that look for a byte: its index, or the length
unfoldable pub find : ℕ → Bytes → ℕ
find c [] = 0
find c (b ∷ s) = let rest = find c s in if b == c then 0 else suc rest

module _ (crc : Bytes → ℕ) where
  -- `crc16_ccitt(…) & 0x3FFF`
  unfoldable pub slot_of : Bytes → ℕ
  slot_of s = crc s % 16384

  -- `keyHashSlot`; the second loop starts behind the brace, at `s + 1`.
  unfoldable pub key_hash_slot : Bytes → ℕ
  key_hash_slot key =
      let keylen = length key in
      let s = find open_brace key in
      let e = s + 1 + find close_brace (drop (s + 1) key) in
      if s == keylen
      then slot_of key
      else if e == keylen || e == s + 1
      then slot_of key
      else slot_of (take (e - s - 1) (drop (s + 1) key))

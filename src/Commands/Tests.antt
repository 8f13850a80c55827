-- ===== src/Commands/Tests.antt =====
-- Arrays of commands at concrete values.
use redisraft.Prelude.{◌^◌, ◌<◌, ◌≡◌, refl, true, false, Option, some, [], ◌∷◌, ◌++◌, arith, length}
use redisraft.Wire.{Bytes, calc_int_serialized_len, calc_serialize_string_size}
use redisraft.Wire.Writer.{zeros, zeros-IsNewData}
use Prim.Native.Nat.{bit_or}
use redisraft.Commands.{
  CommandArray, empty_array, live, serialize, deserialize, array_size, commands_size, args_size,
  move, free,
}
use redisraft.Commands.Lifetime.{move_lem, IsSized}
use redisraft.Commands.RoundTrip.{deserialize-serialize, received}

-- SET k v, and GET k
abbrev set_get : CommandArray
set_get = record {
  client_id = 9;
  asking = true;
  size = 2;
  cmd_flags = 3;
  commands =
      ((83 ∷ 69 ∷ 84 ∷ []) ∷ (107 ∷ []) ∷ (118 ∷ []) ∷ [])
      ∷ ((71 ∷ 69 ∷ 84 ∷ []) ∷ (107 ∷ []) ∷ [])
      ∷ [];
  acl = live (117 ∷ 115 ∷ 101 ∷ 114 ∷ []);
}

abbrev user : Option Bytes
user = some (117 ∷ 115 ∷ 101 ∷ 114 ∷ [])

set_get_small : array_size set_get user < 2 ^ 31
unfolding array_size commands_size args_size calc_int_serialized_len calc_serialize_string_size
set_get_small = omega arith

deserialize-serialize_example :
    (entry : Bytes) × (serialize zeros set_get ≡ some entry)
    × (length entry ≡ array_size set_get user)
    × (deserialize empty_array entry ≡ some (received empty_array set_get))
deserialize-serialize_example =
    deserialize-serialize zeros empty_array set_get user zeros-IsNewData refl refl
      ((λ e. cc), ((λ e. cc), tt)) (λ e. cc) (omega arith) set_get_small

IsSized-set_get : IsSized set_get
IsSized-set_get = record { room = omega arith }

IsSized-empty : IsSized empty_array
IsSized-empty = record { room = omega arith }

move_lem_example :
    let (t, s) = move set_get set_get in
    (t.commands ≡ set_get.commands ++ set_get.commands)
    × (t.asking ≡ true)
    × (t.client_id ≡ 9)
    × (t.cmd_flags ≡ bit_or 3 3)
    × (free s ≡ some (record s { size = 0; asking = false }))
move_lem_example = move_lem set_get set_get

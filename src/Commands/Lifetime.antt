-- ===== src/Commands/Lifetime.antt =====
-- What moving and freeing an array keep, and the string pointer that freeing leaves.
use Prim.Native.Nat.{bit_or}
use redisraft.Prelude.{
  ◌≤◌, ◌≡◌, refl, false, ◌||◌, none, some, [], ◌∷◌, ◌++◌, arith, length, length-append,
}
use redisraft.Wire.{Bytes}
use redisraft.Commands.{CommandArray, live, freed, extend, move, free}

-- The allocated array holds the commands.
pub record IsSized (a : CommandArray) : Type 0 where
  pub room : length a.commands ≤ a.size

-- From arrays whose commands fit their allocations, `RaftRedisCommandArrayExtend` and
-- `RaftRedisCommandArrayMove` make such arrays again, the moved-from one included.
pub extend-move-IsSized :
    (target source : CommandArray)
    → IsSized target
    → IsSized source
    → IsSized (extend target) × IsSized (move target source).0 × IsSized (move target source).1
unfolding extend move
extend-move-IsSized target source t s = (
  ground (arith, length-append target.commands ([] ∷ [])),
  ground (arith, length-append target.commands source.commands),
  ground arith,
)

-- Moving gives the target all commands in order, the target's own first; the source is left with
-- none and with no ACL, so that freeing it then frees no string and cannot fail.
pub move_lem :
    (target source : CommandArray)
    → let (t, s) = move target source in
      (t.commands ≡ target.commands ++ source.commands)
      × (t.asking ≡ target.asking || source.asking)
      × (t.client_id ≡ source.client_id)
      × (t.cmd_flags ≡ bit_or target.cmd_flags source.cmd_flags)
      × (free s ≡ some (record s { size = 0; asking = false }))
unfolding move free
move_lem target source = (refl, refl, refl, refl, refl)

-- An array that holds an ACL string cannot be freed twice: the first call leaves the pointer to
-- the freed string, and the second frees it again.
pub free-free :
    (a : CommandArray) (acl : Bytes)
    → a.acl ≡ live acl
    → (b : CommandArray) × (free a ≡ some b) × (b.acl ≡ freed) × (free b ≡ none)
unfolding free
free-free a acl h =
    (record a { commands = []; size = 0; acl = freed; asking = false }, ground arith, refl, refl)

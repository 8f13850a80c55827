-- ===== src/Commands/Size.antt =====
-- The texts that the serializer writes, and that the computed size holds them.
use redisraft.Prelude.{
  ℕ, ◌+◌, ◌≤◌, ◌<◌, ◌≢◌, true, false, Bool, Option, List, [], ◌∷◌, ◌++◌, arith, length,
  length-append,
}
use redisraft.Wire.{
  Bytes, star, dollar, size_max, integer_text, string_bytes, calc_int_serialized_len,
  calc_serialize_string_size,
}
use redisraft.Wire.Digits.{integer_text-le-calc}
use redisraft.Wire.RoundTrip.{string_text, length-string_text}
use redisraft.Commands.{
  Command, CommandArray, args_size, calc_serialized_size, commands_size, array_size, of_bool,
}

unfoldable pub args_text : Command → Bytes
args_text [] = []
args_text (arg ∷ argv) = string_text arg ++ args_text argv

unfoldable pub commands_text : List Command → Bytes
commands_text [] = []
commands_text (cmd ∷ cmds) = integer_text star (length cmd) ++ (args_text cmd ++ commands_text cmds)

unfoldable pub array_text : CommandArray → Option Bytes → Bytes
array_text source acl =
    integer_text star (of_bool source.asking)
    ++ (integer_text star source.cmd_flags
        ++ (string_text (string_bytes acl)
            ++ (integer_text star (length source.commands) ++ commands_text source.commands)))

-- What the C types and the callers guarantee: every command has a name.
abbrev pub AllNamed : List Command → Type 0
AllNamed [] = Unit
AllNamed (cmd ∷ cmds) = (cmd ≢ []) × AllNamed cmds

pub length-args-le-size : (argv : Command) → length argv ≤ args_size argv
unfolding args_size
length-args-le-size [] = omega arith
length-args-le-size (arg ∷ argv) = omega (arith, length-args-le-size argv)

unfoldable pub args_text-le-size :
    (argv : Command) → args_size argv < size_max → length (args_text argv) ≤ args_size argv
unfolding args_size args_text
args_text-le-size [] h = omega arith
args_text-le-size (arg ∷ argv) h = omega (
  arith,
  length-append (string_text arg) (args_text argv),
  length-string_text arg,
  integer_text-le-calc dollar (length arg) (omega arith),
  args_text-le-size argv (omega arith),
)

pub calc_mono : (n : ℕ) → calc_int_serialized_len n ≤ calc_int_serialized_len (n + 1)
unfolding calc_int_serialized_len
calc_mono n = ground arith

pub commands_text-le-size :
    (cmds : List Command)
    → commands_size cmds < size_max
    → length (commands_text cmds) ≤ commands_size cmds
unfolding commands_size calc_serialized_size commands_text
commands_text-le-size [] h = omega arith
commands_text-le-size (cmd ∷ cmds) h = omega (
  arith,
  length-append (integer_text star (length cmd)) (args_text cmd ++ commands_text cmds),
  length-append (args_text cmd) (commands_text cmds),
  length-args-le-size cmd,
  integer_text-le-calc star (length cmd) (omega (arith, length-args-le-size cmd)),
  calc_mono (length cmd),
  args_text-le-size cmd (omega arith),
  commands_text-le-size cmds (omega arith),
)

pub length-commands-le-size : (cmds : List Command) → length cmds ≤ commands_size cmds
unfolding commands_size calc_serialized_size calc_int_serialized_len
length-commands-le-size [] = omega arith
length-commands-le-size (cmd ∷ cmds) = ground (arith, length-commands-le-size cmds)

pub of_bool-small : (b : Bool) → of_bool b < size_max
of_bool-small true = omega arith
of_bool-small false = omega arith

-- The size that the serializer computes holds what it writes.
pub array_text-le-size :
    (source : CommandArray) (acl : Option Bytes)
    → source.cmd_flags < size_max
    → array_size source acl < size_max
    → length (array_text source acl) ≤ array_size source acl
unfolding array_size array_text calc_serialize_string_size
array_text-le-size source acl f h =
    let asking = integer_text star (of_bool source.asking) in
    let flags = integer_text star source.cmd_flags in
    let user = string_text (string_bytes acl) in
    let count = integer_text star (length source.commands) in
    let body = commands_text source.commands in
    let short : length (string_bytes acl) < size_max = omega arith in
    let few : length source.commands < size_max =
      omega (arith, length-commands-le-size source.commands) in
    omega (
      arith,
      length-append asking (flags ++ (user ++ (count ++ body))),
      length-append flags (user ++ (count ++ body)),
      length-append user (count ++ body),
      length-append count body,
      integer_text-le-calc star (of_bool source.asking) (of_bool-small source.asking),
      integer_text-le-calc star source.cmd_flags f,
      length-string_text (string_bytes acl),
      integer_text-le-calc dollar (length (string_bytes acl)) short,
      integer_text-le-calc star (length source.commands) few,
      commands_text-le-size source.commands (omega arith),
    )

-- ===== src/Commands.antt =====
-- serialization.c: `RaftRedisCommandArray`, the batch of Redis commands that a Raft entry carries,
-- and its wire form.
pub mod Size
pub mod RoundTrip
pub mod Lifetime
mod Tests
use Prim.Native.Nat.{bit_or}
use redisraft.Prelude.{
  ℕ, zero, suc, ◌+◌, ◌%◌, ◌^◌, Bool, true, false, ◌||◌, not, Option, none, some, List, [], ◌∷◌,
  ◌++◌, ltb, leb, ◌==◌, ◌>>=◌, if◌then◌else◌, length, take, drop,
}
use redisraft.Wire.{
  Bytes, newline, star, dollar, calc_int_serialized_len, calc_serialize_string_size,
}
use redisraft.Wire.Writer.{
  Writer, put_integer, put_string, put_line, nothing, ◌⨾◌, fill_entry, read_integer, read_string,
}

-- `RaftRedisCommand`: `argv`, of which `argc` is the length
abbrev pub Command : Type 0
Command = List Bytes

-- A `RedisModuleString *`: null, a string, or one that has been freed and not cleared.
pub data StringPtr : Type 0 where
  null : StringPtr
  live : Bytes → StringPtr
  freed : StringPtr

-- `RaftRedisCommandArray`; `len` is the length of `commands`.
pub record CommandArray : Type 0 where
  pub client_id : ℕ
  pub asking : Bool
  pub size : ℕ
  pub cmd_flags : ℕ
  pub commands : List Command
  pub acl : StringPtr

-- `= {0}`
abbrev pub empty_array : CommandArray
empty_array = record {
  client_id = 0;
  asking = false;
  size = 0;
  cmd_flags = 0;
  commands = [];
  acl = null;
}

abbrev pub is_null : StringPtr → Bool
is_null null = true
is_null _ = false

-- A new command, with no arguments yet, at the end of the array.
unfoldable pub extend : CommandArray → CommandArray
extend target =
    let len = length target.commands in
    record target {
      size = if target.size == len then target.size + 1 else target.size;
      commands = target.commands ++ [] ∷ [];
    }

-- The target and the source after `RaftRedisCommandArrayMove`.
unfoldable pub move : CommandArray → CommandArray → CommandArray × CommandArray
move target source =
    let total = length target.commands + length source.commands in
    (
      record target {
        size = if ltb target.size total then total else target.size;
        commands = target.commands ++ source.commands;
        acl = if is_null source.acl then target.acl else source.acl;
        asking = target.asking || source.asking;
        client_id = source.client_id;
        cmd_flags = bit_or target.cmd_flags source.cmd_flags;
      },
      record source { commands = []; acl = null },
    )

-- `RaftRedisCommandArrayFree`: the string at `acl` is freed and the pointer stays. `none` is a
-- second free of one string.
abbrev free_string : StringPtr → Option StringPtr
free_string null = some null
free_string (live s) = some freed
free_string freed = none

abbrev with_acl : CommandArray → Option StringPtr → Option CommandArray
with_acl a none = none
with_acl a (some p) = some (record a { commands = []; size = 0; acl = p; asking = false })

unfoldable pub free : CommandArray → Option CommandArray
free array = with_acl array (free_string array.acl)

pub args_size : Command → ℕ
args_size [] = 0
args_size (arg ∷ argv) = calc_int_serialized_len (length arg) + length arg + 1 + args_size argv

unfoldable pub calc_serialized_size : Command → ℕ
unfolding args_size
calc_serialized_size cmd = calc_int_serialized_len (length cmd + 1) + args_size cmd

pub commands_size : List Command → ℕ
unfolding calc_serialized_size
commands_size [] = 0
commands_size (cmd ∷ cmds) = calc_serialized_size cmd + commands_size cmds

abbrev pub of_bool : Bool → ℕ
of_bool true = 1
of_bool false = 0

-- the string behind the pointer; reading a freed one is a fault
abbrev pub deref : StringPtr → Option (Option Bytes)
deref null = some none
deref (live s) = some (some s)
deref freed = none

unfoldable pub array_size : CommandArray → Option Bytes → ℕ
unfolding commands_size
array_size source acl =
    calc_int_serialized_len (of_bool source.asking)
    + calc_int_serialized_len source.cmd_flags
    + calc_int_serialized_len (length source.commands)
    + commands_size source.commands
    + calc_serialize_string_size acl

-- `RedisModule_Assert(sz > len)`
unfoldable pub assert_room : ℕ → Writer
assert_room len sz = if ltb len sz then some ([], sz) else none

pub put_args : Command → Writer
unfolding ◌⨾◌ put_integer put_line assert_room
put_args [] = nothing
put_args (arg ∷ argv) =
    assert_room (length arg) ⨾ put_integer dollar (length arg) ⨾ put_line arg ⨾ put_args argv

pub put_commands : List Command → Writer
unfolding put_args
put_commands [] = nothing
put_commands (cmd ∷ cmds) = put_integer star (length cmd) ⨾ put_args cmd ⨾ put_commands cmds

unfoldable pub put_array : CommandArray → Option Bytes → Writer
unfolding put_commands put_string
put_array source acl =
    put_integer star (of_bool source.asking)
    ⨾ put_integer star source.cmd_flags
    ⨾ put_string acl
    ⨾ put_integer star (length source.commands)
    ⨾ put_commands source.commands

-- The data of the new entry.
unfoldable pub serialize : (ℕ → Bytes) → CommandArray → Option Bytes
unfolding array_size put_array fill_entry
serialize new_data source = elim (deref source.acl) [
  | none ↦ none
  | some acl ↦ fill_entry new_data (array_size source acl) (put_array source acl)
]

-- The rounds of `for (i = 0; i < target->argc; i++)` after `target->argc = len`: a length that is
-- negative as an `int` makes none.
unfoldable pub argc_rounds : ℕ → ℕ
argc_rounds len = let low = len % 2 ^ 32 in if ltb low (2 ^ 31) then low else 0

abbrev read_line : ℕ → Bytes → Option (Bytes × Bytes)
read_line len buf = if leb (length buf) len then none else some (take len buf, drop (len + 1) buf)

unfoldable pub read_args : ℕ → Bytes → Option (Command × Bytes)
read_args zero buf = some ([], buf)
read_args (suc rounds) buf = do
  (len, line) ← read_integer dollar buf
  (arg, rest) ← read_line len line
  (argv, end) ← read_args rounds rest
  some (arg ∷ argv, end)

-- The command, and the buffer behind it.
unfoldable pub read_command : Bytes → Option (Command × Bytes)
read_command buf = do
  (len, rest) ← read_integer star buf
  if len == 0 then none else read_args (argc_rounds len) rest

unfoldable pub read_commands : ℕ → Bytes → Option (List Command × Bytes)
read_commands zero buf = some ([], buf)
read_commands (suc rounds) buf = do
  (cmd, rest) ← read_command buf
  (cmds, end) ← read_commands rounds rest
  some (cmd ∷ cmds, end)

-- `if (target->len) RaftRedisCommandArrayFree(target)`
abbrev clear : CommandArray → Option CommandArray
clear target = if length target.commands == 0 then some target else free target

abbrev acl_of : Bytes → StringPtr
acl_of [] = null
acl_of (c ∷ s) = live (c ∷ s)

-- `none` is RR_ERROR. `size` and `len` are `int`.
unfoldable pub deserialize : CommandArray → Bytes → Option CommandArray
deserialize target buf = do
  fresh ← clear target
  (asking, buf) ← read_integer star buf
  (cmd_flags, buf) ← read_integer star buf
  (acl, buf) ← read_string buf
  (commands_num, buf) ← read_integer star buf
  if commands_num == 0 then none else do
    (commands, end) ← read_commands commands_num buf
    some (record fresh {
      asking = not (asking == 0);
      cmd_flags = cmd_flags;
      acl = acl_of acl;
      size = commands_num % 2 ^ 32;
      commands = commands;
    })

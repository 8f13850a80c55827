-- ===== src/Commands/RoundTrip.antt =====
-- What was serialized is read back.
use redisraft.Prelude.{
  ℕ, suc, ◌%◌, ◌^◌, ◌<◌, ◌≡◌, ◌≢◌, refl, true, false, Bool, not, false, Option, some, List, [], ◌∷◌,
  ◌++◌, append_assoc, arith, ◌==◌, length, drop, length-append, take-append, drop-append_suc,
}
use redisraft.Wire.{
  Bytes, newline, star, dollar, size_max, integer_text, string_bytes, calc_serialize_string_size,
}
use redisraft.Wire.RoundTrip.{string_text, length-integer_text, length-string_text}
use redisraft.Wire.Writer.{
  Writer, Writes, IsNewData, put_integer, put_string, put_line, ◌⨾◌, read_integer,
  put_integer-Writes, put_string-Writes, put_line-Writes, nothing-Writes, ⨾-Writes,
  fill_entry-Writes, read_integer-text, read_string-text,
}
use redisraft.Commands.{
  Command, CommandArray, StringPtr, null, live, args_size, calc_serialized_size, commands_size,
  array_size, of_bool, deref, assert_room, put_args, put_commands, put_array, read_line, serialize,
  argc_rounds, read_args, read_command, read_commands, deserialize, acl_of,
}
use redisraft.Commands.Size.{
  args_text, commands_text, array_text, AllNamed, length-args-le-size, length-commands-le-size,
  array_text-le-size, of_bool-small,
}

assert_room-Writes :
    (len : ℕ) (w : Writer) (text : Bytes)
    → Writes w text 0
    → len < length text
    → Writes (assert_room len ⨾ w) text 0
unfolding assert_room ◌⨾◌
assert_room-Writes len w text h l = record { at = λ sz small fits. ground (arith, h.at sz) }

line-Writes :
    (arg : Bytes) (w : Writer) (text : Bytes)
    → Writes w text 0
    → Writes (put_integer dollar (length arg) ⨾ put_line arg ⨾ w) (string_text arg ++ text) 0
unfolding string_text
line-Writes arg w text h =
    let head = integer_text dollar (length arg) in
    let line = arg ++ newline ∷ [] in
    let tail : Writes (put_line arg ⨾ w) (line ++ text) 0 =
      ⨾-Writes (put_line arg) w line text 0 0 (put_line-Writes arg) h (omega arith) in
    rw (append_assoc head line text) (
      ⨾-Writes (put_integer dollar (length arg)) (put_line arg ⨾ w) head (line ++ text) 1 0
        (put_integer-Writes dollar (length arg)) tail
        (omega (arith, length-append line text, length-append arg (newline ∷ []))))

pub put_args-Writes : (argv : Command) → Writes (put_args argv) (args_text argv) 0
unfolding put_args args_text
put_args-Writes [] = nothing-Writes
put_args-Writes (arg ∷ argv) =
    assert_room-Writes (length arg) (put_integer dollar (length arg) ⨾ put_line arg ⨾ put_args argv)
      (string_text arg ++ args_text argv)
      (line-Writes arg (put_args argv) (args_text argv) (put_args-Writes argv))
      (omega (arith, length-append (string_text arg) (args_text argv), length-string_text arg))

args_text_pos : (argv : Command) → argv ≢ [] → 0 < length (args_text argv)
unfolding args_text
args_text_pos [] h = absurd (h refl)
args_text_pos (arg ∷ argv) h =
    omega (arith, length-append (string_text arg) (args_text argv), length-string_text arg)

commands_text_pos : (cmds : List Command) → cmds ≢ [] → 0 < length (commands_text cmds)
unfolding commands_text
commands_text_pos [] h = absurd (h refl)
commands_text_pos (cmd ∷ cmds) h = omega (
  arith,
  length-append (integer_text star (length cmd)) (args_text cmd ++ commands_text cmds),
  length-integer_text star (length cmd),
)

pub put_commands-Writes :
    (cmds : List Command) → AllNamed cmds → Writes (put_commands cmds) (commands_text cmds) 0
unfolding put_commands commands_text
put_commands-Writes [] named = nothing-Writes
put_commands-Writes (cmd ∷ cmds) named =
    let body : Writes (put_args cmd ⨾ put_commands cmds) (args_text cmd ++ commands_text cmds) 0 =
      ⨾-Writes (put_args cmd) (put_commands cmds) (args_text cmd) (commands_text cmds) 0 0
        (put_args-Writes cmd) (put_commands-Writes cmds named.1) (omega arith) in
    ⨾-Writes (put_integer star (length cmd)) (put_args cmd ⨾ put_commands cmds)
      (integer_text star (length cmd)) (args_text cmd ++ commands_text cmds) 1 0
      (put_integer-Writes star (length cmd)) body
      (omega (arith, length-append (args_text cmd) (commands_text cmds), args_text_pos cmd named.0))

pub put_array-Writes :
    (source : CommandArray) (acl : Option Bytes)
    → AllNamed source.commands
    → source.commands ≢ []
    → Writes (put_array source acl) (array_text source acl) 0
unfolding put_array array_text
put_array-Writes source acl named some_command =
    let cmds = source.commands in
    let put_count = put_integer star (length cmds) in
    let count = integer_text star (length cmds) in
    let user = string_text (string_bytes acl) in
    let flags = integer_text star source.cmd_flags in
    let body : Writes (put_count ⨾ put_commands cmds) (count ++ commands_text cmds) 0 =
      ⨾-Writes put_count (put_commands cmds) count (commands_text cmds) 1 0
        (put_integer-Writes star (length cmds)) (put_commands-Writes cmds named)
        (omega (arith, commands_text_pos cmds some_command)) in
    let from_acl : Writes (put_string acl ⨾ put_count ⨾ put_commands cmds)
        (user ++ (count ++ commands_text cmds)) 0 =
      ⨾-Writes (put_string acl) (put_count ⨾ put_commands cmds) user (count ++ commands_text cmds) 0
        0 (put_string-Writes acl) body (omega arith) in
    let from_flags : Writes
        (put_integer star source.cmd_flags ⨾ put_string acl ⨾ put_count ⨾ put_commands cmds)
        (flags ++ (user ++ (count ++ commands_text cmds))) 0 =
      ⨾-Writes (put_integer star source.cmd_flags) (put_string acl ⨾ put_count ⨾ put_commands cmds)
        flags (user ++ (count ++ commands_text cmds)) 1 0 (put_integer-Writes star source.cmd_flags)
        from_acl
        (omega (
          arith,
          length-append user (count ++ commands_text cmds),
          length-string_text (string_bytes acl),
        )) in
    ⨾-Writes (put_integer star (of_bool source.asking))
      (put_integer star source.cmd_flags ⨾ put_string acl ⨾ put_count ⨾ put_commands cmds)
      (integer_text star (of_bool source.asking)) (flags ++ (user ++ (count ++ commands_text cmds)))
      1 0 (put_integer-Writes star (of_bool source.asking)) from_flags
      (omega (
        arith,
        length-append flags (user ++ (count ++ commands_text cmds)),
        length-integer_text star source.cmd_flags,
      ))

read_integer-string :
    (arg rest : Bytes)
    → length arg < size_max
    → read_integer dollar (string_text arg ++ rest) ≡ some (length arg, arg ++ newline ∷ rest)
unfolding string_text
read_integer-string arg rest h =
    rw
      (
        append_assoc (integer_text dollar (length arg)) (arg ++ newline ∷ []) rest,
        append_assoc arg (newline ∷ []) rest,
      )
      (read_integer-text dollar (length arg) (arg ++ newline ∷ rest) h)

read_line-text :
    (arg rest : Bytes) → read_line (length arg) (arg ++ newline ∷ rest) ≡ some (arg, rest)
read_line-text arg rest = ground (
  arith,
  length-append arg (newline ∷ rest),
  take-append arg (newline ∷ rest),
  drop-append_suc arg rest newline,
)

pub read_args-text :
    (argv : Command) (rest : Bytes)
    → args_size argv < size_max
    → read_args (length argv) (args_text argv ++ rest) ≡ some (argv, rest)
unfolding read_args args_text args_size
read_args-text [] rest h = refl
read_args-text (arg ∷ argv) rest h = rw (
  append_assoc (string_text arg) (args_text argv) rest,
  read_integer-string arg (args_text argv ++ rest) (omega arith),
  read_line-text arg (args_text argv ++ rest),
  read_args-text argv rest (omega arith),
)

argc_rounds-small : (n : ℕ) → n < 2 ^ 31 → argc_rounds n ≡ n
unfolding argc_rounds
argc_rounds-small n h = ground arith

not_zero : (n : ℕ) → (suc n == 0) ≡ false
not_zero n = ground arith

read_command-text :
    (cmd : Command) (rest : Bytes)
    → cmd ≢ []
    → args_size cmd < 2 ^ 31
    → read_command (integer_text star (length cmd) ++ (args_text cmd ++ rest)) ≡ some (cmd, rest)
unfolding read_command
read_command-text [] rest n h = absurd (n refl)
read_command-text (arg ∷ argv) rest n h =
    let few : suc (length argv) < 2 ^ 31 = omega (arith, length-args-le-size (arg ∷ argv)) in
    rw
      (
        read_integer-text star (suc (length argv)) (args_text (arg ∷ argv) ++ rest) (omega arith),
        argc_rounds-small (suc (length argv)) few,
        not_zero (length argv),
      )
      (read_args-text (arg ∷ argv) rest (omega arith))

pub read_commands-text :
    (cmds : List Command) (rest : Bytes)
    → AllNamed cmds
    → commands_size cmds < 2 ^ 31
    → read_commands (length cmds) (commands_text cmds ++ rest) ≡ some (cmds, rest)
unfolding read_commands commands_text commands_size calc_serialized_size
read_commands-text [] rest named h = refl
read_commands-text (cmd ∷ cmds) rest named h = rw (
  append_assoc (integer_text star (length cmd)) (args_text cmd ++ commands_text cmds) rest,
  append_assoc (args_text cmd) (commands_text cmds) rest,
  read_command-text cmd (commands_text cmds ++ rest) named.0 (omega arith),
  read_commands-text cmds rest named.1 (omega arith),
)

-- what the string pointer is after a round trip: an empty string comes back as null
abbrev pub normal_acl : StringPtr → StringPtr
normal_acl (live []) = null
normal_acl p = p

-- what a replica has after reading the entry into `target`
abbrev pub received : CommandArray → CommandArray → CommandArray
received target source = record source {
  client_id = target.client_id;
  size = length source.commands;
  acl = normal_acl source.acl;
}

asking-of_bool : (b : Bool) → not (of_bool b == 0) ≡ b
asking-of_bool true = refl
asking-of_bool false = refl

acl_of-string_bytes :
    (p : StringPtr) (acl : Option Bytes)
    → deref p ≡ some acl
    → acl_of (string_bytes acl) ≡ normal_acl p
acl_of-string_bytes p acl h = ground arith

count_not_zero : (cmds : List Command) → cmds ≢ [] → (length cmds == 0) ≡ false
count_not_zero [] h = absurd (h refl)
count_not_zero (cmd ∷ cmds) h = not_zero (length cmds)

low : (n : ℕ) → n < 2 ^ 31 → n % 2 ^ 32 ≡ n
low n h = omega arith

-- Reading the text of an array, with any bytes behind it.
deserialize-text :
    (target source : CommandArray) (acl : Option Bytes) (rest : Bytes)
    → target.commands ≡ []
    → deref source.acl ≡ some acl
    → AllNamed source.commands
    → source.commands ≢ []
    → source.cmd_flags < size_max
    → array_size source acl < 2 ^ 31
    → deserialize target (array_text source acl ++ rest) ≡ some (received target source)
unfolding deserialize array_text array_size calc_serialize_string_size
deserialize-text target source acl rest none_yet ptr named some_command flags small =
    let asking = integer_text star (of_bool source.asking) in
    let flag_text = integer_text star source.cmd_flags in
    let user = string_text (string_bytes acl) in
    let count = integer_text star (length source.commands) in
    let body = commands_text source.commands in
    let few : length source.commands < 2 ^ 31 =
      omega (arith, length-commands-le-size source.commands) in
    rw (
      none_yet,
      append_assoc asking (flag_text ++ (user ++ (count ++ body))) rest,
      append_assoc flag_text (user ++ (count ++ body)) rest,
      append_assoc user (count ++ body) rest,
      append_assoc count body rest,
      read_integer-text star (of_bool source.asking)
          (flag_text ++ (user ++ (count ++ (body ++ rest)))) (of_bool-small source.asking),
      read_integer-text star source.cmd_flags (user ++ (count ++ (body ++ rest))) flags,
      read_string-text (string_bytes acl) (count ++ (body ++ rest)) (omega arith),
      read_integer-text star (length source.commands) (body ++ rest) (omega arith),
      count_not_zero source.commands some_command,
      read_commands-text source.commands rest named (omega arith),
      asking-of_bool source.asking,
      acl_of-string_bytes source.acl acl ptr,
      low (length source.commands) few,
    )

-- An array of named commands, one at least, whose ACL is no freed string and whose computed size is
-- below 2^31 and whose flags are below 2^64 is serialized into an entry of that size, with no failed assertion and no write past
-- the entry; and reading the entry into an array with no commands succeeds, and gives the same
-- commands, flags and asking state, and the same ACL but that an empty one becomes null.
pub deserialize-serialize :
    (new_data : ℕ → Bytes) (target source : CommandArray) (acl : Option Bytes)
    → IsNewData new_data
    → target.commands ≡ []
    → deref source.acl ≡ some acl
    → AllNamed source.commands
    → source.commands ≢ []
    → source.cmd_flags < size_max
    → array_size source acl < 2 ^ 31
    → (entry : Bytes) × (serialize new_data source ≡ some entry)
      × (length entry ≡ array_size source acl)
      × (deserialize target entry ≡ some (received target source))
unfolding serialize
deserialize-serialize new_data target source acl mem none_yet ptr named some_command flags small =
    let text = array_text source acl in
    let sz = array_size source acl in
    let filled =
      fill_entry-Writes new_data sz (put_array source acl) text 0 mem
        (put_array-Writes source acl named some_command) small
        (omega (arith, array_text-le-size source acl flags (omega arith))) in
    (
      text ++ drop (length text) (new_data sz),
      rw (ptr, serialize) filled.0,
      filled.1,
      deserialize-text target source acl (drop (length text) (new_data sz)) none_yet ptr named
          some_command flags small,
    )

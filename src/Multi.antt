-- ===== src/Multi.antt =====
-- multi.c, and what clientstate.c does to a `MultiState`: the commands of a client between MULTI and
-- EXEC, which become one Raft entry.
pub mod Transaction
pub mod Errors
mod Tests
use Prim.Native.Nat.{bit_and}
use redisraft.Prelude.{
  ℕ, Bool, true, false, Option, none, some, List, [], ◌∷◌, ◌==◌, ◌>>=◌, if◌then◌else◌, is_name, not,
}
use redisraft.Wire.{Bytes}
use redisraft.Commands.{Command, CommandArray, empty_array, move, free}

pub record MultiState : Type 0 where
  pub cmds : CommandArray
  pub active : Bool
  pub error : Bool

abbrev pub empty_multi : MultiState
empty_multi = record { cmds = empty_array; active = false; error = false }

-- what is sent to the client
pub data Reply : Type 0 where
  ok queued : Reply
  nested_multi exec_without_multi exec_abort discard_without_multi watch_inside_multi : Reply
  not_supported not_supported_in_multi out_of_memory : Reply
  dry_run_error : Reply

-- What the rest of the program and Redis answer about the command at hand: the flags of
-- `CommandSpecTableGetAggregateFlags`, whether `RedisModule_GetUsedMemoryRatio() > 1.0`, and whether
-- the dry run `RedisModule_Call(ctx, …, "DCEv", …)` returned an error reply.
pub record Answers : Type 0 where
  pub cmd_flags : ℕ
  pub oom : Bool
  pub denied : Bool

-- The client's state and the command array afterwards; `reply` is what was sent, and with `done`
-- there is nothing more to process.
pub record Handled : Type 0 where
  pub multi : MultiState
  pub cmds : CommandArray
  pub reply : Option Reply
  pub done : Bool

abbrev pub spec_unsupported : ℕ
spec_unsupported = 8

abbrev pub spec_dont_intercept : ℕ
spec_dont_intercept = 16

abbrev pub has_flag : ℕ → ℕ → Bool
has_flag flags flag = not (bit_and flags flag == 0)

-- "MULTI", "EXEC", "DISCARD" and "WATCH"
abbrev pub multi_name : Bytes
multi_name = 77 ∷ 85 ∷ 76 ∷ 84 ∷ 73 ∷ []

abbrev pub exec_name : Bytes
exec_name = 69 ∷ 88 ∷ 69 ∷ 67 ∷ []

abbrev pub discard_name : Bytes
discard_name = 68 ∷ 73 ∷ 83 ∷ 67 ∷ 65 ∷ 82 ∷ 68 ∷ []

abbrev pub watch_name : Bytes
watch_name = 87 ∷ 65 ∷ 84 ∷ 67 ∷ 72 ∷ []

-- `MultiStateReset`; `none` is a string that is freed twice.
unfoldable pub reset : MultiState → Option MultiState
reset m = do cmds ← free m.cmds; some (record { cmds = cmds; active = false; error = false })

abbrev answer : MultiState → CommandArray → Reply → Handled
answer m cmds r = record { multi = m; cmds = cmds; reply = some r; done = true }

unfoldable pub handle_multi : MultiState → CommandArray → Handled
handle_multi m cmds =
    if m.active
    then answer m cmds nested_multi
    else (let (target, source) = move m.cmds cmds in
        answer (record m { active = true; cmds = target }) source ok)

unfoldable pub handle_exec : MultiState → CommandArray → Option Handled
handle_exec m cmds =
    if not m.active
    then some (answer m cmds exec_without_multi)
    else if m.error
    then (do m' ← reset m; some (answer m' cmds exec_abort))
    else (do
      freed ← free cmds
      let (target, source) = move freed m.cmds
      m' ← reset (record m { cmds = source })
      some (record { multi = m'; cmds = target; reply = none; done = false }))

unfoldable pub handle_discard : MultiState → CommandArray → Option Handled
handle_discard m cmds =
    if not m.active
    then some (answer m cmds discard_without_multi)
    else (do m' ← reset m; some (answer m' cmds ok))

abbrev fail : MultiState → CommandArray → Reply → Handled
fail m cmds r = answer (record m { error = true }) cmds r

unfoldable pub handle_queued : MultiState → CommandArray → Bytes → Answers → Handled
handle_queued m cmds name a =
    if is_name name watch_name
    then answer m cmds watch_inside_multi
    else if has_flag a.cmd_flags spec_unsupported
    then fail m cmds not_supported
    else if has_flag a.cmd_flags spec_dont_intercept
    then fail m cmds not_supported_in_multi
    else if a.oom
    then fail m cmds out_of_memory
    else if a.denied
    then fail m cmds dry_run_error
    else (let (target, source) = move m.cmds cmds in
        answer (record m { cmds = target }) source queued)

abbrev dispatch : MultiState → CommandArray → Bytes → Answers → Option Handled
dispatch m cmds name a =
    if is_name name multi_name
    then some (handle_multi m cmds)
    else if is_name name exec_name
    then handle_exec m cmds
    else if is_name name discard_name
    then handle_discard m cmds
    else if m.active
    then some (handle_queued m cmds name a)
    else some (record { multi = m; cmds = cmds; reply = none; done = false })

abbrev first_name : List Command → Option Bytes
first_name [] = none
first_name ([] ∷ cmds) = none
first_name ((name ∷ args) ∷ cmds) = some name

-- `MultiHandleCommand`. `none` is a read of `cmds->commands[0]->argv[0]` where there is none, or a
-- string that is freed twice.
unfoldable pub handle_command : MultiState → CommandArray → Answers → Option Handled
handle_command m cmds a = do name ← first_name cmds.commands; dispatch m cmds name a

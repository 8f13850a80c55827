-- ===== src/Blocked/Save.antt =====
-- blocked.c: the blocked commands in a snapshot. Loading executes each of them again.
use redisraft.Prelude.{
  ℕ, Bool, true, false, Option, none, some, List, [], ◌∷◌, ◌>>=◌, leb, if◌then◌else◌, length, ℤ,
  pos, negsuc,
}
use redisraft.Wire.{Bytes}
use redisraft.Rdb.{
  Stream, unsigned, buffer, load_unsigned, load_buffer, load_times, save_each, to_uint64, to_long,
}
use redisraft.Commands.{Command, CommandArray, empty_array, deserialize}
use redisraft.Blocked.{
  BlockedCommand, BlockedCommands, alloc_blocked_command, add_blocked_command,
  clear_all_block_commands,
}

-- `i <= j` on indices
abbrev pub leb_ℤ : ℤ → ℤ → Bool
leb_ℤ (pos m) (pos n) = leb m n
leb_ℤ (pos m) (negsuc n) = false
leb_ℤ (negsuc m) (pos n) = true
leb_ℤ (negsuc m) (negsuc n) = leb n m

-- the first argument of the first command; `none` is a read past the arrays
abbrev pub first_name : List Command → Option Bytes
first_name ((name ∷ argv) ∷ cmds) = some name
first_name _ = none

module _ {R : Type 0} where
  -- the commands that both loops of `blockedCommandsSave` visit, up to the first one that is too new
  unfoldable pub applied : ℤ → List (BlockedCommand R) → List (BlockedCommand R)
  applied last [] = []
  applied last (bc ∷ bcs) =
      let rest = applied last bcs in if leb_ℤ bc.idx last then bc ∷ rest else []

  abbrev pub save_blocked : BlockedCommand R → Stream → Stream
  save_blocked bc rest = unsigned (to_uint64 bc.idx) ∷ unsigned bc.session ∷ buffer bc.body ∷ rest

  -- `blockedCommandsSave`
  unfoldable pub blocked_commands_save : ℤ → BlockedCommands R → Stream → Stream
  blocked_commands_save last b rest =
      let saved = applied last b.list in unsigned (length saved) ∷ save_each save_blocked saved rest

-- an iteration's three values
abbrev pub Saved : Type 0
Saved = ℤ × (ℕ × Bytes)

abbrev pub load_saved : Stream → Option (Saved × Stream)
load_saved s = do
  (idx, s) ← load_unsigned s
  (session, s) ← load_unsigned s
  (body, s) ← load_buffer s
  some ((to_long idx, (session, body)), s)

-- `W` is the state of the server; `calloc` gives the address of a new object; `execute` is
-- `RaftExecuteCommandArray`, with no request, and `promise` the test of the reply's type.
module _ {W R : Type 0} (calloc : W → ℕ × W) (execute : W → CommandArray → Option R × W)
    (promise : R → Bool) (abort : R → Bool) where
  -- the assertions on the reply
  abbrev asserted : Option R → Option R
  asserted none = none
  asserted (some r) = if promise r then some r else none

  -- an iteration of `blockedCommandsLoad` with what it has read; `none` ends the process
  unfoldable pub block_again : W → BlockedCommands R → Saved → Option (BlockedCommands R × W)
  block_again w b (idx, (session, body)) = do
    cmds ← deserialize (record empty_array { client_id = session }) body
    let (reply, w) = execute w cmds
    reply ← asserted reply
    name ← first_name cmds.commands
    let (address, w) = calloc w
    some (add_blocked_command b (alloc_blocked_command address name idx session body none reply), w)

  unfoldable pub block_each : W → BlockedCommands R → List Saved → Option (BlockedCommands R × W)
  block_each w b [] = some (b, w)
  block_each w b (x ∷ xs) = do (b, w) ← block_again w b x; block_each w b xs

  -- `blockedCommandsLoad`
  unfoldable pub blocked_commands_load :
      W → BlockedCommands R → Stream → Option (BlockedCommands R × (W × Stream))
  blocked_commands_load w b s = do
    (n, s) ← load_unsigned s
    (saved, s) ← load_times load_saved n s
    (b, w) ← block_each w (clear_all_block_commands abort b) saved
    some (b, (w, s))

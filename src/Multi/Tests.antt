-- ===== src/Multi/Tests.antt =====
-- A transaction at concrete commands.
use redisraft.Prelude.{◌≡◌, refl, true, false, some, none, [], ◌∷◌, is_name, to_lower, bytes_eq}
use redisraft.Wire.{Bytes}
use redisraft.Multi.{
  MultiState, empty_multi, ok, queued, Answers, Handled, handle_command, multi_name, exec_name,
}
use redisraft.Multi.Transaction.{transaction, Step, IsOrdinary, IsIdle, request, queue_all}
use redisraft.Multi.Errors.{handle_command-IsSane, IsSane, KeepsSane}

abbrev fine : Answers
fine = record { cmd_flags = 1; oom = false; denied = false }

abbrev get_name : Bytes
get_name = 103 ∷ 101 ∷ 116 ∷ []

abbrev step : Bytes → Step
step name = record { name = name; args = []; asking = false; answers = fine }

get-IsOrdinary : IsOrdinary get_name fine
unfolding is_name to_lower bytes_eq
get-IsOrdinary = record {
  not_multi = refl;
  not_exec = refl;
  not_discard = refl;
  not_watch = refl;
  supported = refl;
  intercepted = refl;
  room = refl;
  allowed = refl;
}

multi_named : is_name multi_name multi_name ≡ true
unfolding is_name to_lower bytes_eq
multi_named = refl

exec_named : is_name exec_name exec_name ≡ true
unfolding is_name to_lower bytes_eq
exec_named = refl

exec_not_multi : is_name exec_name multi_name ≡ false
unfolding is_name to_lower bytes_eq
exec_not_multi = refl

empty-IsIdle : IsIdle empty_multi
empty-IsIdle = record { inactive = refl; no_error = refl; no_acl = refl; queue = refl }

transaction_example :
    (h : Handled) × (m' : MultiState) × (e : Handled) × (handle_command empty_multi
        (request 4 false (multi_name ∷ []))
        fine
      ≡ some h)
    × (h.reply ≡ some ok)
    × (queue_all 4 h.multi (step get_name ∷ []) ≡ some (m', some queued ∷ []))
    × (handle_command m' (request 4 false (exec_name ∷ [])) fine ≡ some e)
    × (e.reply ≡ none)
    × (e.done ≡ false)
    × (e.cmds.commands ≡ (multi_name ∷ []) ∷ (get_name ∷ []) ∷ [])
    × IsIdle e.multi
transaction_example =
    transaction 4 empty_multi (step multi_name) (step exec_name) (step get_name ∷ []) empty-IsIdle
      multi_named (get-IsOrdinary, tt) exec_not_multi exec_named

-- a transaction in which a command was refused
abbrev refused : MultiState
refused = record empty_multi { active = true; error = true }

refused-IsSane : IsSane refused
refused-IsSane = record { no_acl = refl; idle_queue = λ e. cc; idle_error = λ e. cc }

handle_command-IsSane_example :
    KeepsSane (handle_command refused (request 4 false (get_name ∷ [])) fine)
handle_command-IsSane_example =
    handle_command-IsSane refused (request 4 false (get_name ∷ [])) get_name [] fine refused-IsSane
      refl refl

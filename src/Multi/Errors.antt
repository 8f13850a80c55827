-- ===== src/Multi/Errors.antt =====
-- Refused commands, and that every call keeps the client's state sane.
use mathlib.Core.Path.{sym, ap, subst}
use redisraft.Prelude.{
  ◌>>=◌, if◌then◌else◌, Bool, true, false, ◌≡◌, refl, Option, none, some, List, [], ◌∷◌, arith,
  is_name,
}
use redisraft.Wire.{Bytes}
use redisraft.Commands.{Command, CommandArray, null, move, free}
use redisraft.Multi.{
  first_name, dry_run_error, out_of_memory, not_supported_in_multi, spec_dont_intercept,
  not_supported, spec_unsupported, has_flag, watch_name, dispatch, fail, MultiState, Reply,
  exec_abort, Answers, Handled, handle_command, handle_multi, handle_exec, handle_discard,
  handle_queued, reset, multi_name, exec_name, discard_name,
}

-- Between calls: no ACL string is kept, and outside a transaction nothing is queued and no error
-- is noted.
pub record IsSane (m : MultiState) : Type 0 where
  pub no_acl : m.cmds.acl ≡ null
  pub idle_queue : m.active ≡ false → m.cmds.commands ≡ []
  pub idle_error : m.active ≡ false → m.error ≡ false

-- The call returns without a fault and leaves a sane state and an array without an ACL string.
abbrev pub KeepsSane : Option Handled → Type 0
KeepsSane none = ⊥
KeepsSane (some h) = IsSane h.multi × (h.cmds.acl ≡ null)

KeepsSane-if :
    (b : Bool) (x y : Handled)
    → KeepsSane (some x)
    → KeepsSane (some y)
    → KeepsSane (some (if b then x else y))
KeepsSane-if true x y hx hy = hx
KeepsSane-if false x y hx hy = hy

KeepsSane-choose :
    (b : Bool) (x y : Option Handled) → KeepsSane x → KeepsSane y → KeepsSane (if b then x else y)
KeepsSane-choose true x y hx hy = hx
KeepsSane-choose false x y hx hy = hy

-- The state by its fields, so that the clauses below can match on the two flags.
abbrev state : CommandArray → Bool → Bool → MultiState
state c active error = record { cmds = c; active = active; error = error }

freed_array :
    (c : CommandArray)
    → c.acl ≡ null
    → free c ≡ some (record c { commands = []; size = 0; acl = null; asking = false })
unfolding free
freed_array c h = ground (arith, h)

module _ (c cmds : CommandArray) (kept : c.acl ≡ null) (no_acl : cmds.acl ≡ null) where
  IsSane-active : (c' : CommandArray) (error : Bool) → c'.acl ≡ null → IsSane (state c' true error)
  IsSane-active c' error h = record { no_acl = h; idle_queue = λ e. cc; idle_error = λ e. cc }

  IsSane-idle :
      (c' : CommandArray) → c'.acl ≡ null → c'.commands ≡ [] → IsSane (state c' false false)
  IsSane-idle c' h q = record { no_acl = h; idle_queue = λ e. q; idle_error = λ e. refl }

  acl-move : (move c cmds).0.acl ≡ null
  unfolding move
  acl-move = ground arith

  acl-source : (move c cmds).1.acl ≡ null
  unfolding move
  acl-source = refl

  multi-KeepsSane :
      (active error : Bool)
      → IsSane (state c active error)
      → KeepsSane (some (handle_multi (state c active error) cmds))
  unfolding handle_multi
  multi-KeepsSane true error s = (s, no_acl)
  multi-KeepsSane false error s = (IsSane-active _ error acl-move, acl-source)

  discard-KeepsSane :
      (active error : Bool)
      → IsSane (state c active error)
      → KeepsSane (handle_discard (state c active error) cmds)
  unfolding handle_discard reset
  discard-KeepsSane true error s = rw (freed_array c kept) (IsSane-idle _ refl refl, no_acl)
  discard-KeepsSane false error s = (s, no_acl)

  exec-KeepsSane :
      (active error : Bool)
      → IsSane (state c active error)
      → KeepsSane (handle_exec (state c active error) cmds)
  unfolding handle_exec reset
  exec-KeepsSane true true s = rw (freed_array c kept) (IsSane-idle _ refl refl, no_acl)
  exec-KeepsSane true false s =
      rw (freed_array cmds no_acl)
        (unfold move free in (IsSane-idle _ refl refl, ground (arith, kept)))
  exec-KeepsSane false error s = (s, no_acl)

  queued-KeepsSane :
      (error : Bool) (name : Bytes) (a : Answers)
      → KeepsSane (some (handle_queued (state c true error) cmds name a))
  unfolding handle_queued
  queued-KeepsSane error name a =
      let m = state c true error in
      let failed : (r : Reply) → KeepsSane (some (fail m cmds r)) =
        λ r. (IsSane-active c true kept, no_acl) in
      KeepsSane-if (is_name name watch_name) _ _ (IsSane-active c error kept, no_acl)
        (KeepsSane-if (has_flag a.cmd_flags spec_unsupported) _ _ (failed not_supported) (
          KeepsSane-if (has_flag a.cmd_flags spec_dont_intercept) _ _
            (failed not_supported_in_multi)
            (KeepsSane-if a.oom _ _ (failed out_of_memory) (
              KeepsSane-if a.denied _ _ (failed dry_run_error)
                (IsSane-active _ error acl-move, acl-source)))))

  dispatch-KeepsSane :
      (active error : Bool) (name : Bytes) (a : Answers)
      → IsSane (state c active error)
      → KeepsSane (dispatch (state c active error) cmds name a)
  dispatch-KeepsSane active error name a s =
      KeepsSane-choose (is_name name multi_name) _ _ (multi-KeepsSane active error s) (
        KeepsSane-choose (is_name name exec_name) _ _ (exec-KeepsSane active error s) (
          KeepsSane-choose (is_name name discard_name) _ _ (discard-KeepsSane active error s)
            (last active s)))
    where
      last :
          (active : Bool)
          → IsSane (state c active error)
          → KeepsSane (
              if active
              then some (handle_queued (state c active error) cmds name a)
              else some (record {
                multi = state c active error;
                cmds = cmds;
                reply = none;
                done = false;
              }))
      last true s' = queued-KeepsSane error name a
      last false s' = (s', no_acl)

-- `MultiHandleCommand` on an array of one command with a name, and with no ACL string, returns
-- without a fault from every sane state, and leaves a sane state and an array with no ACL string.
pub handle_command-IsSane :
    (m : MultiState) (cmds : CommandArray) (name : Bytes) (args : Command) (a : Answers)
    → IsSane m
    → cmds.commands ≡ (name ∷ args) ∷ []
    → cmds.acl ≡ null
    → KeepsSane (handle_command m cmds a)
unfolding handle_command
handle_command-IsSane m cmds name args a sane named no_acl =
    let computed : handle_command m cmds a ≡ dispatch m cmds name a =
      ap (λ (l : List Command). first_name l >>= (λ n. dispatch m cmds n a)) named in
    subst KeepsSane (sym computed)
      (dispatch-KeepsSane m.cmds cmds sane.no_acl no_acl m.active m.error name a sane)

-- A transaction in which a command was refused is discarded by EXEC: the reply is EXECABORT, the
-- EXEC goes no further, and nothing of the transaction is left.
pub exec_after_error :
    (m : MultiState) (cmds : CommandArray) (name : Bytes) (args : Command) (a : Answers)
    → IsSane m
    → m.active ≡ true
    → m.error ≡ true
    → cmds.commands ≡ (name ∷ args) ∷ []
    → is_name name multi_name ≡ false
    → is_name name exec_name ≡ true
    → (h : Handled) × (handle_command m cmds a ≡ some h)
      × (h.reply ≡ some exec_abort)
      × (h.done ≡ true)
      × (h.multi.cmds.commands ≡ [])
      × (h.multi.active ≡ false)
      × (h.multi.error ≡ false)
unfolding handle_command handle_exec reset free
exec_after_error m cmds name args a sane active error named not_multi is_exec = (
  record {
    multi =
        state (record m.cmds { commands = []; size = 0; acl = null; asking = false }) false false;
    cmds = cmds;
    reply = some exec_abort;
    done = true;
  },
  ground (arith, sane.no_acl),
  refl,
  refl,
  refl,
  refl,
  refl,
)

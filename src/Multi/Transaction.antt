-- ===== src/Multi/Transaction.antt =====
-- From MULTI through the queued commands to EXEC.
use redisraft.Prelude.{
  append-nil, ℕ, Bool, true, false, ◌≡◌, refl, ap, Option, none, some, List, [], ◌∷◌, ◌++◌, map,
  append_assoc, arith, ◌>>=◌, is_name,
}
use redisraft.Wire.{Bytes}
use redisraft.Commands.{Command, CommandArray, null, empty_array, move, free}
use redisraft.Multi.{
  MultiState, Reply, ok, queued, Answers, Handled, handle_command, handle_multi, handle_exec,
  handle_queued, reset, spec_unsupported, spec_dont_intercept, has_flag, multi_name, exec_name,
  discard_name, watch_name,
}

-- What `cmdRaft` makes of a client's command: an array of that command alone.
abbrev pub request : ℕ → Bool → Command → CommandArray
request client asking cmd = record empty_array {
  client_id = client;
  asking = asking;
  size = 1;
  commands = cmd ∷ [];
}

-- A command that may be queued: none of the four names, and nothing speaks against it.
pub record IsOrdinary (name : Bytes) (a : Answers) : Type 0 where
  pub not_multi : is_name name multi_name ≡ false
  pub not_exec : is_name name exec_name ≡ false
  pub not_discard : is_name name discard_name ≡ false
  pub not_watch : is_name name watch_name ≡ false
  pub supported : has_flag a.cmd_flags spec_unsupported ≡ false
  pub intercepted : has_flag a.cmd_flags spec_dont_intercept ≡ false
  pub room : a.oom ≡ false
  pub allowed : a.denied ≡ false

-- one queued command: its name and arguments, the ASKING state, and the answers about it
pub record Step : Type 0 where
  pub name : Bytes
  pub args : Command
  pub asking : Bool
  pub answers : Answers

abbrev pub command : Step → Command
command s = s.name ∷ s.args

abbrev pub AllOrdinary : List Step → Type 0
AllOrdinary [] = Unit
AllOrdinary (s ∷ steps) = IsOrdinary s.name s.answers × AllOrdinary steps

-- the client's state after the steps, and the replies
pub queue_all : ℕ → MultiState → List Step → Option (MultiState × List (Option Reply))
queue_all client m [] = some (m, [])
queue_all client m (s ∷ steps) = do
  h ← handle_command m (request client s.asking (command s)) s.answers
  (end, replies) ← queue_all client h.multi steps
  some (end, h.reply ∷ replies)

-- A state between MULTI and EXEC, with the commands queued so far.
record IsQueueing (m : MultiState) (commands : List Command) : Type 0 where
  active : m.active ≡ true
  no_error : m.error ≡ false
  no_acl : m.cmds.acl ≡ null
  queue : m.cmds.commands ≡ commands

queue_one :
    (client : ℕ) (m : MultiState) (s : Step) (commands : List Command)
    → IsQueueing m commands
    → IsOrdinary s.name s.answers
    → (h : Handled) × (handle_command m (request client s.asking (command s)) s.answers ≡ some h)
      × (h.reply ≡ some queued)
      × IsQueueing h.multi (commands ++ command s ∷ [])
unfolding handle_command handle_queued move
queue_one client m s commands q o = (
  record {
    multi = record m { cmds = (move m.cmds (request client s.asking (command s))).0 };
    cmds = (move m.cmds (request client s.asking (command s))).1;
    reply = some queued;
    done = true;
  },
  ground arith,
  refl,
  record {
    active = q.active;
    no_error = q.no_error;
    no_acl = q.no_acl;
    queue = ap (λ l. l ++ command s ∷ []) q.queue;
  },
)

queue_steps :
    (client : ℕ) (m : MultiState) (steps : List Step) (commands : List Command)
    → IsQueueing m commands
    → AllOrdinary steps
    → (m' : MultiState) × (queue_all client m steps ≡ some (m', map (λ _. some queued) steps))
      × IsQueueing m' (commands ++ map command steps)
unfolding queue_all
queue_steps client m [] commands q o = (m, refl, rw (append-nil commands) q)
queue_steps client m (s ∷ steps) commands q o =
    let (h, runs, replied, q') = queue_one client m s commands q o.0 in
    let (m', all, end) = queue_steps client h.multi steps (commands ++ command s ∷ []) q' o.1 in
    (
      m',
      rw (runs, all, replied),
      rw (← append_assoc commands (command s ∷ []) (map command steps)) end,
    )

-- A client with no transaction open and no ACL string kept.
pub record IsIdle (m : MultiState) : Type 0 where
  pub inactive : m.active ≡ false
  pub no_error : m.error ≡ false
  pub no_acl : m.cmds.acl ≡ null
  pub queue : m.cmds.commands ≡ []

begin :
    (client : ℕ) (asking : Bool) (m : MultiState) (name : Bytes) (args : Command) (a : Answers)
    → IsIdle m
    → is_name name multi_name ≡ true
    → (h : Handled) × (handle_command m (request client asking (name ∷ args)) a ≡ some h)
      × (h.reply ≡ some ok)
      × IsQueueing h.multi ((name ∷ args) ∷ [])
unfolding handle_command handle_multi move
begin client asking m name args a idle is_multi = (
  record {
    multi = record m {
      active = true;
      cmds = (move m.cmds (request client asking (name ∷ args))).0;
    };
    cmds = (move m.cmds (request client asking (name ∷ args))).1;
    reply = some ok;
    done = true;
  },
  ground (arith, idle.inactive),
  refl,
  record {
    active = refl;
    no_error = idle.no_error;
    no_acl = idle.no_acl;
    queue = ap (λ l. l ++ (name ∷ args) ∷ []) idle.queue;
  },
)

finish :
    (client : ℕ) (asking : Bool) (m : MultiState) (name : Bytes) (args : Command) (a : Answers)
    (commands : List Command)
    → IsQueueing m commands
    → is_name name multi_name ≡ false
    → is_name name exec_name ≡ true
    → (h : Handled) × (handle_command m (request client asking (name ∷ args)) a ≡ some h)
      × (h.reply ≡ none)
      × (h.done ≡ false)
      × (h.cmds.commands ≡ commands)
      × IsIdle h.multi
unfolding handle_command handle_exec move reset free
finish client asking m name args a commands q not_multi is_exec = (
  record {
    multi = record {
      cmds = record m.cmds { commands = []; size = 0; acl = null; asking = false };
      active = false;
      error = false;
    };
    cmds = (move (record empty_array { client_id = client }) m.cmds).0;
    reply = none;
    done = false;
  },
  ground (arith, q.active, q.no_error, q.no_acl),
  refl,
  refl,
  q.queue,
  record { inactive = refl; no_error = refl; no_acl = refl; queue = refl },
)

-- A client that is idle sends MULTI, then any commands that may be queued, then EXEC. MULTI is
-- answered with OK and each command with QUEUED; EXEC sends no reply and goes on with the array of
-- the MULTI and the commands in the order in which they came, and the client is idle again.
pub transaction :
    (client : ℕ) (m : MultiState) (multi exec : Step) (steps : List Step)
    → IsIdle m
    → is_name multi.name multi_name ≡ true
    → AllOrdinary steps
    → is_name exec.name multi_name ≡ false
    → is_name exec.name exec_name ≡ true
    → (h : Handled) × (m' : MultiState) × (e : Handled) × (handle_command m
          (request client multi.asking (command multi))
          multi.answers
        ≡ some h)
      × (h.reply ≡ some ok)
      × (queue_all client h.multi steps ≡ some (m', map (λ _. some queued) steps))
      × (handle_command m' (request client exec.asking (command exec)) exec.answers ≡ some e)
      × (e.reply ≡ none)
      × (e.done ≡ false)
      × (e.cmds.commands ≡ command multi ∷ map command steps)
      × IsIdle e.multi
transaction client m multi exec steps idle is_multi ordinary not_multi is_exec =
    let (h, began, replied, q) =
      begin client multi.asking m multi.name multi.args multi.answers idle is_multi in
    let (m', all, q') = queue_steps client h.multi steps (command multi ∷ []) q ordinary in
    let (e, ended, silent, on, cmds, idle') =
      finish client exec.asking m' exec.name exec.args exec.answers _ q' not_multi is_exec in
    (h, m', e, began, replied, all, ended, silent, on, cmds, idle')

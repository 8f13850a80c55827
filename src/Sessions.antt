-- ===== src/Sessions.antt =====
-- raft.c: the sessions of the clients that have sent WATCH.
use redisraft.Prelude.{
  is_name, ℕ, Bool, Option, none, some, List, [], ◌∷◌, ◌==◌, ◌>>=◌, if◌then◌else◌,
}
use redisraft.Wire.{Bytes}
use redisraft.Commands.{Command, CommandArray}
use redisraft.Dict.{has, set_absent}

-- `ClientSession`, under its client's id in the dictionary
pub record ClientSession : Type 0 where
  pub client_id : ℕ
  pub is_local : Bool

abbrev pub same_client : ClientSession → ClientSession → Bool
same_client a b = a.client_id == b.client_id

abbrev watch_name : Bytes
watch_name = 119 ∷ 97 ∷ 116 ∷ 99 ∷ 104 ∷ []

-- whether the first command is WATCH; `none` is a read past the arrays
unfoldable pub starts_watch : List Command → Option Bool
starts_watch ((name ∷ argv) ∷ cmds) = some (is_name name watch_name)
starts_watch _ = none

-- The sessions after `getClientSession`; the session that it returns is not used.
unfoldable pub get_client_session :
    List ClientSession → CommandArray → Bool → Option (List ClientSession)
get_client_session dict cmds is_local =
    let session : ClientSession = record { client_id = cmds.client_id; is_local = is_local } in
    if has same_client dict session then some dict else do
      watch ← starts_watch cmds.commands
      some (if watch then set_absent same_client dict session else dict)

-- `endClientSession`
unfoldable pub end_client_session : List ClientSession → ℕ → List ClientSession
end_client_session [] id = []
end_client_session (s ∷ dict) id =
    let rest = end_client_session dict id in if s.client_id == id then dict else s ∷ rest

-- `clearClientSessions`: the clients that it disconnects, and no sessions
unfoldable pub clear_client_sessions : List ClientSession → List ℕ × List ClientSession
clear_client_sessions [] = ([], [])
clear_client_sessions (s ∷ dict) =
    let (closed, none_left) = clear_client_sessions dict in
    (if s.is_local then s.client_id ∷ closed else closed, none_left)

-- ===== src/Blocked/Tests.antt =====
-- Two blocked commands, a third one, and one that unblocks.
use redisraft.Prelude.{ℕ, ◌≡◌, refl, none, some, [], ◌∷◌, if◌then◌else◌, ℤ, pos, eq_ℤ}
use redisraft.Blocked.{
  BlockedCommand, BlockedCommands, add_blocked_command, get_blocked_command, delete_blocked_command,
}
use redisraft.Blocked.Registry.{
  IsSynced, IsNew, add_blocked_command-IsSynced, delete_blocked_command-IsSynced,
}
use redisraft.Dict.{has}

abbrev a_command : BlockedCommand ℕ
a_command = record {
  address = 64;
  idx = pos 4;
  session = 3;
  command = 66 ∷ 76 ∷ 80 ∷ 79 ∷ 80 ∷ [];
  body = [];
  req = none;
  reply = 1;
}

abbrev two_commands : BlockedCommands ℕ
two_commands =
    let list = a_command ∷ record a_command { address = 128; idx = pos 6 } ∷ [] in
    record { list = list; dict = list }

abbrev third : BlockedCommand ℕ
third = record a_command { address = 192; idx = pos 7 }

two_commands-IsSynced : IsSynced two_commands
two_commands-IsSynced = record {
  same = refl;
  indices = ((refl, tt), (tt, tt));
  addresses = ((refl, tt), (tt, tt));
}

third-IsNew : IsNew two_commands third
unfolding has
third-IsNew = record { index = refl; address = refl }

add_blocked_command-IsSynced_example :
    IsSynced (add_blocked_command two_commands third)
    × ((i : ℤ)
        → get_blocked_command (add_blocked_command two_commands third) i
          ≡ (if eq_ℤ (pos 7) i then some third else get_blocked_command two_commands i))
add_blocked_command-IsSynced_example =
    add_blocked_command-IsSynced two_commands third two_commands-IsSynced third-IsNew

delete_blocked_command-IsSynced_example :
    IsSynced (delete_blocked_command two_commands (pos 4))
    × ((j : ℤ)
        → get_blocked_command (delete_blocked_command two_commands (pos 4)) j
          ≡ (if eq_ℤ (pos 4) j then none else get_blocked_command two_commands j))
delete_blocked_command-IsSynced_example =
    delete_blocked_command-IsSynced two_commands (pos 4) two_commands-IsSynced

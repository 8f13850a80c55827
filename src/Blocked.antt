-- ===== src/Blocked.antt =====
-- blocked.c: the commands that block, as a list in the order in which they blocked and a dictionary from the
-- index of the entry.
pub mod Registry
pub mod Save
pub mod RoundTrip
mod Tests
use redisraft.Prelude.{
  eq_ℤ, ℕ, zero, suc, ◌+◌, ◌-◌, ◌*◌, ◌/◌, ◌%◌, ◌^◌, ◌≤◌, ◌<◌, ◌≡◌, ◌≢◌, refl, sym, ap, ◌∙◌, Bool,
  true, false, ◌&&◌, ◌||◌, not, Option, none, some, List, [], ◌∷◌, ◌++◌, ◌==◌, ◌>>=◌, leb, ltb,
  if◌then◌else◌, length, take, drop, arith, Bool-cases, Option-cases, inl, inr, c_string, is_digit,
  ℤ, pos, negsuc, fits, lt→ltb, append_assoc, append-nil, length-append, take-append, drop-append,
}
use redisraft.Wire.{Bytes}
use redisraft.Dict.{set_absent}

-- `R` is the type of the replies of Redis.
module _ (R : Type 0) where
  -- `BlockedCommand`; `address` is where the object is, and `req` the request to answer
  pub record BlockedCommand : Type 0 where
    pub address : ℕ
    pub idx : ℤ
    pub session : ℕ
    pub command : Bytes
    pub body : Bytes
    pub req : Option ℕ
    pub reply : R

  -- `blocked_command_list` and `blocked_command_dict`; an entry of the dictionary is the object it points to
  pub record BlockedCommands : Type 0 where
    pub list : List BlockedCommand
    pub dict : List BlockedCommand

module _ {R : Type 0} where
  abbrev pub same_idx : BlockedCommand R → BlockedCommand R → Bool
  same_idx a b = eq_ℤ a.idx b.idx

  -- `allocBlockedCommand`
  unfoldable pub alloc_blocked_command : ℕ → Bytes → ℤ → ℕ → Bytes → Option ℕ → R → BlockedCommand R
  alloc_blocked_command address name idx session body req reply = record {
    address = address;
    idx = idx;
    session = session;
    command = c_string name;
    body = body;
    req = req;
    reply = reply;
  }

  -- `addBlockedCommand`
  unfoldable pub add_blocked_command : BlockedCommands R → BlockedCommand R → BlockedCommands R
  add_blocked_command b bc = record {
    list = b.list ++ bc ∷ [];
    dict = set_absent same_idx b.dict bc;
  }

  unfoldable pub find_idx : List (BlockedCommand R) → ℤ → Option (BlockedCommand R)
  find_idx [] idx = none
  find_idx (bc ∷ bcs) idx = let rest = find_idx bcs idx in if eq_ℤ bc.idx idx then some bc else rest

  -- `getBlockedCommand`
  abbrev pub get_blocked_command : BlockedCommands R → ℤ → Option (BlockedCommand R)
  get_blocked_command b idx = find_idx b.dict idx

  unfoldable pub delete_idx : List (BlockedCommand R) → ℤ → List (BlockedCommand R)
  delete_idx [] idx = []
  delete_idx (bc ∷ bcs) idx =
      let rest = delete_idx bcs idx in if eq_ℤ bc.idx idx then bcs else bc ∷ rest

  -- `sc_list_del`: the object at the address leaves the list
  unfoldable pub unlink : List (BlockedCommand R) → ℕ → List (BlockedCommand R)
  unlink [] address = []
  unlink (bc ∷ bcs) address =
      let rest = unlink bcs address in if bc.address == address then bcs else bc ∷ rest

  abbrev pub delete_found : BlockedCommands R → ℤ → Option (BlockedCommand R) → BlockedCommands R
  delete_found b idx none = b
  delete_found b idx (some bc) = record {
    list = unlink b.list bc.address;
    dict = delete_idx b.dict idx;
  }

  -- `deleteBlockedCommand`
  unfoldable pub delete_blocked_command : BlockedCommands R → ℤ → BlockedCommands R
  delete_blocked_command b idx = delete_found b idx (find_idx b.dict idx)

  -- The loop of `clearAllBlockCommands`: what is left of the list, and whether every promise was aborted.
  unfoldable pub abort_all : (R → Bool) → List (BlockedCommand R) → List (BlockedCommand R) × Bool
  abort_all abort [] = ([], true)
  abort_all abort (bc ∷ bcs) =
      let rest = abort_all abort bcs in if abort bc.reply then rest else (bcs, false)

  abbrev cleared : BlockedCommands R → List (BlockedCommand R) × Bool → BlockedCommands R
  cleared b (list, true) = record { list = list; dict = [] }
  cleared b (list, false) = record { list = list; dict = b.dict }

  -- `clearAllBlockCommands`; `abort` is whether `RedisModule_CallReplyPromiseAbort` succeeds
  unfoldable pub clear_all_block_commands : (R → Bool) → BlockedCommands R → BlockedCommands R
  clear_all_block_commands abort b = cleared b (abort_all abort b.list)

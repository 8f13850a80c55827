-- ===== src/RaftEntry.antt =====
-- `raft_entry_t` of the Raft library, as far as the log and its cache read it.
use redisraft.Prelude.{ℕ, ℤ, List}

-- `body` is the data, of which `data_len` is the length.
pub record Entry : Type 0 where
  pub term : ℤ
  pub id : ℤ
  pub session : ℕ
  pub type : ℤ
  pub body : List ℕ

-- ===== src/GroupText/Tests.antt =====
-- A group with a range and a node.
use redisraft.Prelude.{true, ◌≡◌, [], ◌∷◌, arith}
use redisraft.Sharding.{SlotRange, ShardGroupNode, ShardGroup, migrating}
use redisraft.GroupText.{parsed, serialize_group, deserialize_group}
use redisraft.GroupText.RoundTrip.{IsRange, IsNode, read_back, deserialize_group-serialize_group}

abbrev a_range : SlotRange
a_range = record {
  start_slot = 0;
  end_slot = 16383;
  type = migrating;
  migration_session_key = 12345678901;
}

-- n1, at h:6379
abbrev a_node : ShardGroupNode
a_node = record { node_id = 110 ∷ 49 ∷ []; addr = record { host = 104 ∷ []; port = 6379 } }

abbrev a_group : ShardGroup
a_group = record {
  id = 97 ∷ 98 ∷ [];
  slot_ranges = a_range ∷ [];
  nodes = a_node ∷ [];
  is_local = true;
  next_redir = 2;
  node_conn_idx = 1;
  use_conn_addr = true;
  conn = true;
}

a_range-IsRange : IsRange a_range
a_range-IsRange = record {
  start_fits = omega arith;
  end_fits = omega arith;
  key_fits = omega arith;
}

a_node-IsNode : IsNode a_node
a_node-IsNode = record {
  id_line = ((λ e. omega arith), ((λ e. omega arith), tt));
  id_string = ((λ e. omega arith), ((λ e. omega arith), tt));
  id_fits = omega arith;
  host_line = ((λ e. omega arith), tt);
  host_string = ((λ e. omega arith), tt);
  host_fits = omega arith;
  port_low = omega arith;
  port_high = omega arith;
}

deserialize_group-serialize_group_example :
    deserialize_group (serialize_group a_group) ≡ parsed (read_back a_group)
deserialize_group-serialize_group_example =
    deserialize_group-serialize_group a_group ((λ e. omega arith), ((λ e. omega arith), tt))
      ((λ e. omega arith), ((λ e. omega arith), tt)) (omega arith) (a_range-IsRange, tt)
      (a_node-IsNode, tt) (omega arith) (omega arith)

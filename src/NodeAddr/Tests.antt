-- ===== src/NodeAddr/Tests.antt =====
-- Addresses at concrete values.
use redisraft.Prelude.{◌≤◌, ◌≡◌, some, [], ◌∷◌, ◌++◌, arith, length}
use redisraft.Wire.{print_lu, Bytes}
use redisraft.NodeAddr.{NodeAddr, node_addr_parse, colon}
use redisraft.NodeAddr.Parse.{node_addr_parse_bounds, node_addr_parse-print}

abbrev host_name : Bytes
host_name = 58 ∷ 58 ∷ 49 ∷ []

abbrev one_addr : NodeAddr
one_addr = record { host = host_name; port = 5001 }

abbrev other_addr : NodeAddr
other_addr = record { host = host_name; port = 5002 }

parsed_addr : node_addr_parse (host_name ++ colon ∷ print_lu 5001) ≡ some one_addr
parsed_addr =
    node_addr_parse-print host_name 5001 (omega arith)
      ((λ e. omega arith), ((λ e. omega arith), ((λ e. omega arith), tt))) (omega arith)
      (omega arith)

node_addr_parse_bounds_example : (1 ≤ 5001) × (5001 ≤ 65535) × (length host_name ≤ 255)
node_addr_parse_bounds_example =
    node_addr_parse_bounds (host_name ++ colon ∷ print_lu 5001) one_addr parsed_addr

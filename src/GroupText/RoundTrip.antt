-- ===== src/GroupText/RoundTrip.antt =====
-- A shard group that is printed is read back.
use redisraft.Prelude.{◌%◌, ◌^◌, ◌≤◌, ◌<◌, ◌≡◌, refl, false, List, [], ◌∷◌, ◌++◌, arith, length}
use native.Mathlib.Nat.{mod-eq_of_lt}
use redisraft.Wire.{Bytes, print_lu}
use redisraft.NodeAddr.{colon}
use redisraft.NodeAddr.Parse.{NoNul, node_addr_parse-print, AllDigits-digits}
use redisraft.Sharding.{
  SlotType, SlotRange, ShardGroupNode, ShardGroup, stable, importing, migrating, unknown,
}
use redisraft.GroupText.{
  line, parsed, type_code, type_of, ranges_text, nodes_text, serialize_group, read_range,
  read_ranges, read_node, read_nodes, deserialize_group,
}
use redisraft.GroupText.Lines.{
  IsOneLine, AllDigits-IsOneLine, IsOneLine-append, read_number-line, read_name-line,
  split_line-line,
}

-- a range whose numbers fit their C types
pub record IsRange (r : SlotRange) : Type 0 where
  pub start_fits : r.start_slot < 2 ^ 32
  pub end_fits : r.end_slot < 2 ^ 32
  pub key_fits : r.migration_session_key < 2 ^ 64

-- a node whose strings are C strings on one line and fit their fields, and whose port is one
pub record IsNode (n : ShardGroupNode) : Type 0 where
  pub id_line : IsOneLine n.node_id
  pub id_string : NoNul n.node_id
  pub id_fits : length n.node_id ≤ 40
  pub host_line : IsOneLine n.addr.host
  pub host_string : NoNul n.addr.host
  pub host_fits : length n.addr.host ≤ 255
  pub port_low : 1 ≤ n.addr.port
  pub port_high : n.addr.port ≤ 65535

abbrev pub AllRanges : List SlotRange → Type 0
AllRanges [] = Unit
AllRanges (r ∷ ranges) = IsRange r × AllRanges ranges

abbrev pub AllNodes : List ShardGroupNode → Type 0
AllNodes [] = Unit
AllNodes (n ∷ nodes) = IsNode n × AllNodes nodes

type_of-type_code : (t : SlotType) → type_of (type_code t % 2 ^ 32) ≡ t
type_of-type_code stable = refl
type_of-type_code importing = refl
type_of-type_code migrating = refl
type_of-type_code unknown = refl

type_code-small : (t : SlotType) → type_code t < 2 ^ 64
type_code-small stable = omega arith
type_code-small importing = omega arith
type_code-small migrating = omega arith
type_code-small unknown = omega arith

read_range-text :
    (r : SlotRange) (rest : Bytes)
    → IsRange r
    → read_range (
        line (print_lu r.start_slot) (
          line
            (print_lu r.end_slot)
            (line (print_lu (type_code r.type)) (line (print_lu r.migration_session_key) rest))))
      ≡ parsed (r, rest)
unfolding read_range
read_range-text r rest h = rw (
  read_number-line r.start_slot
      (line (print_lu r.end_slot)
        (line (print_lu (type_code r.type)) (line (print_lu r.migration_session_key) rest)))
      (omega (arith, h.start_fits)),
  read_number-line r.end_slot
      (line (print_lu (type_code r.type)) (line (print_lu r.migration_session_key) rest))
      (omega (arith, h.end_fits)),
  read_number-line (type_code r.type) (line (print_lu r.migration_session_key) rest)
      (type_code-small r.type),
  read_number-line r.migration_session_key rest h.key_fits,
  mod-eq_of_lt h.start_fits,
  mod-eq_of_lt h.end_fits,
  type_of-type_code r.type,
)

read_ranges-text :
    (ranges : List SlotRange) (rest : Bytes)
    → AllRanges ranges
    → read_ranges (length ranges) (ranges_text ranges rest) ≡ parsed (ranges, rest)
unfolding read_ranges ranges_text
read_ranges-text [] rest h = refl
read_ranges-text (r ∷ ranges) rest h =
    rw (read_range-text r (ranges_text ranges rest) h.0, read_ranges-text ranges rest h.1)

read_node-text :
    (n : ShardGroupNode) (rest : Bytes)
    → IsNode n
    → read_node (line n.node_id (line (n.addr.host ++ colon ∷ print_lu n.addr.port) rest))
      ≡ parsed (n, rest)
unfolding read_node
read_node-text n rest h =
    let port_line = AllDigits-IsOneLine (print_lu n.addr.port) (AllDigits-digits 20 n.addr.port) in
    let text = n.addr.host ++ colon ∷ print_lu n.addr.port in
    rw (
      read_name-line 40 n.node_id (line text rest) h.id_line h.id_string h.id_fits,
      split_line-line text rest (
          IsOneLine-append n.addr.host (colon ∷ print_lu n.addr.port) h.host_line
            ((λ e. omega (arith, e)), port_line)),
      node_addr_parse-print n.addr.host n.addr.port h.host_fits h.host_string h.port_low
          h.port_high,
    )

read_nodes-text :
    (nodes : List ShardGroupNode)
    → AllNodes nodes
    → read_nodes (length nodes) (nodes_text nodes) ≡ parsed nodes
unfolding read_nodes nodes_text
read_nodes-text [] h = refl
read_nodes-text (n ∷ nodes) h =
    rw (read_node-text n (nodes_text nodes) h.0, read_nodes-text nodes h.1)

-- the group as it is read: the fields of the runtime state are zeros
abbrev pub read_back : ShardGroup → ShardGroup
read_back sg = record sg {
  is_local = false;
  next_redir = 0;
  node_conn_idx = 0;
  use_conn_addr = false;
  conn = false;
}

-- `ShardGroupDeserialize` reads back what `ShardGroupSerialize` printed, with no failed assertion and the runtime state zeroed: for a group whose id
-- and nodes' ids and hosts are C strings of one line that fit their fields, whose ports are from 1 to 65535, and whose
-- numbers of slots, ranges and nodes are below 2^32 and session keys below 2^64.
pub deserialize_group-serialize_group :
    (sg : ShardGroup)
    → IsOneLine sg.id
    → NoNul sg.id
    → length sg.id ≤ 32
    → AllRanges sg.slot_ranges
    → AllNodes sg.nodes
    → length sg.slot_ranges < 2 ^ 32
    → length sg.nodes < 2 ^ 32
    → deserialize_group (serialize_group sg) ≡ parsed (read_back sg)
unfolding deserialize_group serialize_group
deserialize_group-serialize_group sg one nul short ranges nodes few_ranges few_nodes =
    let tail = ranges_text sg.slot_ranges (nodes_text sg.nodes) in
    let counted = line (print_lu (length sg.nodes)) tail in
    rw (
      read_name-line 32 sg.id (line (print_lu (length sg.slot_ranges)) counted) one nul short,
      read_number-line (length sg.slot_ranges) counted (omega arith),
      read_number-line (length sg.nodes) tail (omega arith),
      mod-eq_of_lt few_ranges,
      mod-eq_of_lt few_nodes,
      read_ranges-text sg.slot_ranges (nodes_text sg.nodes) ranges,
      read_nodes-text sg.nodes nodes,
    )

-- ===== src/GroupText.antt =====
-- cluster.c: a shard group as lines of text, as it stands in log entries and snapshots.
pub mod Lines
pub mod RoundTrip
mod Tests
use redisraft.Prelude.{
  ℕ, zero, suc, ◌+◌, ◌%◌, ◌^◌, Bool, false, Option, none, some, List, [], ◌∷◌, ◌++◌, ◌==◌, ltb,
  if◌then◌else◌, length, strtoul, c_string,
}
use redisraft.Wire.{Bytes, newline, print_lu}
use redisraft.NodeAddr.{NodeAddr, colon, node_addr_parse}
use redisraft.Sharding.{
  SlotType, SlotRange, ShardGroupNode, ShardGroup, stable, importing, migrating, unknown,
}

-- the numbers of the enumeration; `unknown` is printed as 0, SLOTRANGE_TYPE_UNDEF
abbrev pub type_code : SlotType → ℕ
type_code unknown = 0
type_code stable = 1
type_code importing = 2
type_code migrating = 3

abbrev pub type_of : ℕ → SlotType
type_of n =
    if n == 1 then stable else if n == 2 then importing else if n == 3 then migrating else unknown

-- a printed line, and what `catsnprintf` appends behind it
abbrev pub line : Bytes → Bytes → Bytes
line s rest = s ++ newline ∷ rest

unfoldable pub ranges_text : List SlotRange → Bytes → Bytes
ranges_text [] rest = rest
ranges_text (r ∷ ranges) rest = line (print_lu r.start_slot) (
    line (print_lu r.end_slot) (
      line (print_lu (type_code r.type))
        (line (print_lu r.migration_session_key) (ranges_text ranges rest))))

unfoldable pub nodes_text : List ShardGroupNode → Bytes
nodes_text [] = []
nodes_text (n ∷ nodes) =
    line n.node_id (line (n.addr.host ++ colon ∷ print_lu n.addr.port) (nodes_text nodes))

-- `ShardGroupSerialize`; the buffer grows as it is needed
unfoldable pub serialize_group : ShardGroup → Bytes
serialize_group sg = line sg.id (
    line (print_lu (length sg.slot_ranges))
      (line (print_lu (length sg.nodes)) (ranges_text sg.slot_ranges (nodes_text sg.nodes))))

-- `failed` is NULL, `aborted` a failed assertion.
pub data Parsed (A : Type 0) : Type 0 where
  parsed : A → Parsed A
  failed : Parsed A
  aborted : Parsed A

infixl 5 ◌>>=◌
abbrev pub ◌>>=◌ : {A B : Type 0} → Parsed A → (A → Parsed B) → Parsed B
parsed a >>= f = f a
failed >>= f = failed
aborted >>= f = aborted

abbrev cons_line : ℕ → Option (Bytes × Bytes) → Option (Bytes × Bytes)
cons_line c none = none
cons_line c (some (l, rest)) = some (c ∷ l, rest)

-- the bytes before the next newline, which `memchr` finds, and those behind it
unfoldable pub split_line : Bytes → Option (Bytes × Bytes)
split_line [] = none
split_line (c ∷ s) =
    let more = cons_line c (split_line s) in if c == newline then some ([], s) else more

abbrev or_failed : {A : Type 0} → Option A → Parsed A
or_failed none = failed
or_failed (some a) = parsed a

abbrev check_end : ℕ × Bytes → Bytes → Parsed (ℕ × Bytes)
check_end (v, end) rest = if length end == length rest + 1 then parsed (v, rest) else aborted

-- A number on a line; the assertion says that it ends at the newline.
unfoldable pub read_number : Bytes → Parsed (ℕ × Bytes)
read_number s = do (l, rest) ← or_failed (split_line s); check_end (strtoul s) rest

unfoldable pub read_range : Bytes → Parsed (SlotRange × Bytes)
read_range s = do
  (start, s) ← read_number s
  (end, s) ← read_number s
  (type, s) ← read_number s
  (key, s) ← read_number s
  parsed (
    record {
      start_slot = start % 2 ^ 32;
      end_slot = end % 2 ^ 32;
      type = type_of (type % 2 ^ 32);
      migration_session_key = key;
    },
    s,
  )

unfoldable pub read_ranges : ℕ → Bytes → Parsed (List SlotRange × Bytes)
read_ranges zero s = parsed ([], s)
read_ranges (suc n) s = do
  (r, s) ← read_range s
  (ranges, s) ← read_ranges n s
  parsed (r ∷ ranges, s)

-- A line of at most `n` bytes.
unfoldable pub read_name : ℕ → Bytes → Parsed (Bytes × Bytes)
read_name n s = do
  (l, rest) ← or_failed (split_line s)
  if ltb n (length l) then failed else parsed (c_string l, rest)

unfoldable pub read_node : Bytes → Parsed (ShardGroupNode × Bytes)
read_node s = do
  (id, s) ← read_name 40 s
  (l, s) ← or_failed (split_line s)
  addr ← or_failed (node_addr_parse l)
  parsed (record { node_id = id; addr = addr }, s)

unfoldable pub read_nodes : ℕ → Bytes → Parsed (List ShardGroupNode)
read_nodes zero s = parsed []
read_nodes (suc n) s = do (node, s) ← read_node s; nodes ← read_nodes n s; parsed (node ∷ nodes)

-- `ShardGroupDeserialize`; the fields that are not read are zeros.
unfoldable pub deserialize_group : Bytes → Parsed ShardGroup
deserialize_group s = do
  (id, s) ← read_name 32 s
  (slot_ranges_num, s) ← read_number s
  (nodes_num, s) ← read_number s
  (ranges, s) ← read_ranges (slot_ranges_num % 2 ^ 32) s
  nodes ← read_nodes (nodes_num % 2 ^ 32) s
  parsed (record {
    id = id;
    slot_ranges = ranges;
    nodes = nodes;
    is_local = false;
    next_redir = 0;
    node_conn_idx = 0;
    use_conn_addr = false;
    conn = false;
  })

-- ===== src/NodeAddr.antt =====
-- node_addr.c: node addresses `<host>:<port>`, and lists of them without repetitions.
pub mod Parse
pub mod Elements
mod Tests
use redisraft.Prelude.{
  true, ℕ, suc, Bool, ◌&&◌, ◌||◌, not, Option, none, some, List, [], ◌∷◌, ◌==◌, ltb, leb,
  if◌then◌else◌, length, take, bytes_eq, c_string, strtoul,
}
use redisraft.Wire.{Bytes}

-- `host` is the C string in the field of 256 bytes.
pub record NodeAddr : Type 0 where
  pub host : Bytes
  pub port : ℕ

abbrev pub colon : ℕ
colon = 58

abbrev cons_host : ℕ → Option (Bytes × Bytes) → Option (Bytes × Bytes)
cons_host c none = none
cons_host c (some (before, after)) = some (c ∷ before, after)

abbrev or_here : ℕ → Bytes → Option (Bytes × Bytes) → Option (Bytes × Bytes)
or_here c s none = if c == colon then some ([], s) else none
or_here c s (some split) = cons_host c (some split)

-- What is before and behind the last colon, which the loop looks for from the end.
unfoldable pub split_last : Bytes → Option (Bytes × Bytes)
split_last [] = none
split_last (c ∷ s) = or_here c s (split_last s)

abbrev at_end : Bytes → Bool
at_end [] = true
at_end (c ∷ s) = c == 0

-- the tests on the port, and the copy of the host
unfoldable pub accept_port : Bytes → ℕ → Bytes → Option NodeAddr
accept_port before l endptr =
    if not (at_end endptr) || ltb l 1 || ltb 65535 l
    then none
    else some (record { host = c_string (take 255 before); port = l })

abbrev accept : Bytes → ℕ × Bytes → Option NodeAddr
accept before (l, endptr) = accept_port before l endptr

abbrev parse_split : Option (Bytes × Bytes) → Option NodeAddr
parse_split none = none
parse_split (some (before, after)) =
    if leb 32 (length after) || ltb (length after) 1
    then none
    else accept before (strtoul (c_string after))

-- `NodeAddrParse`; `none` is false. A string ends with a NUL behind its last byte.
unfoldable pub node_addr_parse : Bytes → Option NodeAddr
node_addr_parse node_addr = parse_split (split_last node_addr)

unfoldable pub node_addr_equal : NodeAddr → NodeAddr → Bool
node_addr_equal a1 a2 = a1.port == a2.port && bytes_eq a1.host a2.host

-- `NodeAddrListAddElement`
unfoldable pub add_element : List NodeAddr → NodeAddr → List NodeAddr
add_element [] addr = addr ∷ []
add_element (e ∷ es) addr =
    let rest = add_element es addr in if node_addr_equal e addr then e ∷ es else e ∷ rest

-- `NodeAddrListConcat`
unfoldable pub concat : List NodeAddr → List NodeAddr → List NodeAddr
concat head [] = head
concat head (e ∷ es) = concat (add_element head e) es

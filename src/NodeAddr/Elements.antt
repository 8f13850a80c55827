-- ===== src/NodeAddr/Elements.antt =====
-- Address lists hold what was added, once each.
use redisraft.Prelude.{
  ◌||◌, Bool, true, false, ◌≡◌, ◌↔◌, inl, inr, List, [], ◌∷◌, arith, bytes_eq→eq, bytes_eq_refl,
  Bool-cases,
}
use redisraft.NodeAddr.{NodeAddr, node_addr_equal, add_element, concat}

-- `NodeAddrEqual` tells whether two addresses have the same port and the same host.
pub node_addr_equal_iff : (a b : NodeAddr) → (node_addr_equal a b ≡ true) ↔ (a ≡ b)
unfolding node_addr_equal
node_addr_equal_iff a b = (
  (λ h. ground (arith, bytes_eq→eq a.host b.host)),
  (λ e. rw e (ground (arith, bytes_eq_refl b.host))),
)

-- whether an address stands in the list
unfoldable pub contains : List NodeAddr → NodeAddr → Bool
contains [] a = false
contains (e ∷ es) a = node_addr_equal e a || contains es a

-- no address stands twice
abbrev pub AllDistinct : List NodeAddr → Type 0
AllDistinct [] = Unit
AllDistinct (e ∷ es) = (contains es e ≡ false) × AllDistinct es

contains-add :
    (es : List NodeAddr) (a b : NodeAddr)
    → contains (add_element es a) b ≡ (contains es b || node_addr_equal a b)
unfolding contains add_element
contains-add [] a b = ground arith
contains-add (e ∷ es) a b =
    ground (arith, contains-add es a b, node_addr_equal_iff e a, node_addr_equal_iff a b)

add-AllDistinct :
    (es : List NodeAddr) (a : NodeAddr) → AllDistinct es → AllDistinct (add_element es a)
unfolding contains add_element
add-AllDistinct [] a d = ground arith
add-AllDistinct (e ∷ es) a d = elim (Bool-cases (node_addr_equal e a)) [
  | inl same ↦ rw same d
  | inr other ↦ rw other (
    ground (arith, contains-add es a e, node_addr_equal_iff e a, node_addr_equal_iff a e, d.0),
    add-AllDistinct es a d.1,
  )
]

-- Adding all elements of a list to one without repetitions gives a list without repetitions that
-- holds an address exactly where one of the two did.
pub concat_lem :
    (head other : List NodeAddr)
    → AllDistinct head
    → AllDistinct (concat head other)
      × ((a : NodeAddr) → contains (concat head other) a ≡ (contains head a || contains other a))
unfolding concat contains
concat_lem head [] d = (d, λ a. ground arith)
concat_lem head (e ∷ es) d =
    let (d', all) = concat_lem (add_element head e) es (add-AllDistinct head e d) in
    (d', λ a. ground (arith, all a, contains-add head e a))

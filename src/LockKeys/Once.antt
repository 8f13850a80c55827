-- ===== src/LockKeys/Once.antt =====
-- The dictionary of the keys: each of the arguments, and none of them twice.
use redisraft.Prelude.{
  ◌≡◌, true, false, ◌||◌, List, [], ◌∷◌, arith, bytes_eq, bytes_eq→eq, bytes_eq_refl, Bool-cases,
  inl, inr,
}
use redisraft.Wire.{Bytes}
use redisraft.Dict.{IsDict, Apart}
use redisraft.LockKeys.{LockSet, has_key, insert, collect}

has_key-bytes_eq :
    (keys : List Bytes) (x k : Bytes)
    → has_key keys x ≡ true
    → has_key keys k ≡ (has_key keys k || bytes_eq x k)
has_key-bytes_eq keys x k there = elim (Bool-cases (bytes_eq x k)) [
  | inl same ↦
      let e = bytes_eq→eq x k same in
      let found : has_key keys k ≡ true = rw (← e) there in ground (arith, found)
  | inr other ↦ ground (arith, other)
]

has_key_cons :
    (keys : List Bytes) (x k : Bytes) → has_key (x ∷ keys) k ≡ (has_key keys k || bytes_eq x k)
unfolding has_key
has_key_cons keys x k = ground arith

has_key-insert :
    (set : LockSet) (x k : Bytes)
    → has_key (insert set x).keys k ≡ (has_key set.keys k || bytes_eq x k)
unfolding insert
has_key-insert set x k = elim (Bool-cases (has_key set.keys x)) [
  | inl there ↦ rw there (has_key-bytes_eq set.keys x k there)
  | inr fresh ↦ rw fresh (has_key_cons set.keys x k)
]

-- a key is in the dictionary exactly if it was before, or is one of the arguments
pub has_key-collect :
    (argv : List Bytes) (set : LockSet) (k : Bytes)
    → has_key (collect argv set).keys k ≡ (has_key set.keys k || has_key argv k)
unfolding collect has_key
has_key-collect [] set k = ground arith
has_key-collect (x ∷ argv) set k =
    ground (arith, has_key-collect argv (insert set x) k, has_key-insert set x k)

Apart-has_key : (keys : List Bytes) (x : Bytes) → has_key keys x ≡ false → Apart bytes_eq x keys
unfolding has_key
Apart-has_key [] x h = tt
Apart-has_key (y ∷ keys) x h = elim (Bool-cases (bytes_eq x y)) [
  | inl same ↦
      let e = bytes_eq→eq x y same in
      let found : bytes_eq y x ≡ true = rw e (bytes_eq_refl y) in absurd (ground (arith, found, h))
  | inr other ↦ (other, Apart-has_key keys x (ground (arith, h)))
]

insert-IsDict :
    (set : LockSet) (x : Bytes) → IsDict bytes_eq set.keys → IsDict bytes_eq (insert set x).keys
unfolding insert
insert-IsDict set x h = elim (Bool-cases (has_key set.keys x)) [
  | inl there ↦ rw there h
  | inr fresh ↦ rw fresh (Apart-has_key set.keys x fresh, h)
]

pub collect-IsDict :
    (argv : List Bytes) (set : LockSet)
    → IsDict bytes_eq set.keys
    → IsDict bytes_eq (collect argv set).keys
unfolding collect
collect-IsDict [] set h = h
collect-IsDict (x ∷ argv) set h = collect-IsDict argv (insert set x) (insert-IsDict set x h)

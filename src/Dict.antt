-- ===== src/Dict.antt =====
-- Dictionaries, as the functions RedisModule_DictSet and RedisModule_DictNext of Redis document them: an entry
-- is not set where its key is there already. A dictionary is the list of its entries, in the order in which
-- the iterator gives them.
use redisraft.Prelude.{
  ◌≡◌, refl, sym, ◌∙◌, Bool, true, false, List, [], ◌∷◌, ◌++◌, if◌then◌else◌, arith, Bool-cases,
  inl, inr, append_assoc, append-nil,
}

module _ {A : Type 0} (same : A → A → Bool) where
  -- whether an entry with the key of `x` is there
  unfoldable pub has : List A → A → Bool
  has [] x = false
  has (y ∷ d) x = let rest = has d x in if same y x then true else rest

  unfoldable pub set_absent : List A → A → List A
  set_absent d x = if has d x then d else d ++ x ∷ []

  unfoldable pub set_all : List A → List A → List A
  set_all d [] = d
  set_all d (x ∷ xs) = set_all (set_absent d x) xs

  -- no later entry has the key of an earlier one
  abbrev pub Apart : A → List A → Type 0
  Apart y [] = Unit
  Apart y (x ∷ xs) = (same y x ≡ false) × Apart y xs

  abbrev pub IsDict : List A → Type 0
  IsDict [] = Unit
  IsDict (x ∷ d) = Apart x d × IsDict d

  Apart-middle :
      (y : A) (d : List A) (x : A) (xs : List A) → Apart y (d ++ x ∷ xs) → same y x ≡ false
  Apart-middle y [] x xs h = h.0
  Apart-middle y (z ∷ d) x xs h = Apart-middle y d x xs h.1

  pub has-IsDict : (d : List A) (x : A) (xs : List A) → IsDict (d ++ x ∷ xs) → has d x ≡ false
  unfolding has
  has-IsDict [] x xs h = refl
  has-IsDict (y ∷ d) x xs h = rw (Apart-middle y d x xs h.0, has-IsDict d x xs h.1) refl

  set_all-append : (d xs : List A) → IsDict (d ++ xs) → set_all d xs ≡ d ++ xs
  unfolding set_all set_absent
  set_all-append d [] h = sym (append-nil d)
  set_all-append d (x ∷ xs) h =
      let e : (d ++ x ∷ []) ++ xs ≡ d ++ x ∷ xs = append_assoc d (x ∷ []) xs in
      rw (has-IsDict d x xs h) (set_all-append (d ++ x ∷ []) xs (rw e h) ∙ e)

  -- the entries of a dictionary, set one after the other, give it back
  pub set_all-IsDict : (d : List A) → IsDict d → set_all [] d ≡ d
  set_all-IsDict d h = set_all-append [] d h

  pub has_cons :
      (y : A) (d : List A) (x : A) → has (y ∷ d) x ≡ false → (same y x ≡ false) × (has d x ≡ false)
  unfolding has
  has_cons y d x h = elim (Bool-cases (same y x)) [
    | inl hit ↦ absurd (ground (arith, hit, h))
    | inr miss ↦ (miss, ground (arith, miss, h))
  ]

  Apart-append : (y : A) (d : List A) (x : A) → same y x ≡ false → Apart y d → Apart y (d ++ x ∷ [])
  Apart-append y [] x e h = (e, tt)
  Apart-append y (z ∷ d) x e h = (h.0, Apart-append y d x e h.1)

  -- a new entry behind the others
  pub IsDict-append : (d : List A) (x : A) → has d x ≡ false → IsDict d → IsDict (d ++ x ∷ [])
  IsDict-append [] x new h = (tt, tt)
  IsDict-append (y ∷ d) x new h =
      let (e, rest) = has_cons y d x new in (Apart-append y d x e h.0, IsDict-append d x rest h.1)

  pub set_absent-append : (d : List A) (x : A) → has d x ≡ false → set_absent d x ≡ d ++ x ∷ []
  unfolding set_absent
  set_absent-append d x new = rw new refl

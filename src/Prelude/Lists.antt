-- ===== src/Prelude/Lists.antt =====
-- Lists measured and indexed by native numbers, under the library's names.
use Prim.Native.Nat.{ℕ, zero, suc, ◌+◌, ◌-◌, ◌<◌, ◌≤◌}
use mathlib.Core.Path.{◌≡◌, refl, sym, ap, ◌∙◌}
use mathlib.Core.Logic.{◌⊎◌, inl, inr}
use mathlib.Core.List.{List, [], ◌∷◌, ◌++◌}
use mathlib.Core.Option.{Option, none, some}
use native.Mathlib.Omega.{arith}

module _ {ℓ} {A : Type ℓ} where
  abbrev pub length : List A → ℕ
  length [] = 0
  length (x ∷ xs) = suc (length xs)

  abbrev pub get_elem? : List A → ℕ → Option A
  get_elem? [] i = none
  get_elem? (x ∷ xs) zero = some x
  get_elem? (x ∷ xs) (suc i) = get_elem? xs i

  abbrev pub take : ℕ → List A → List A
  take zero xs = []
  take (suc n) [] = []
  take (suc n) (x ∷ xs) = x ∷ take n xs

  abbrev pub drop : ℕ → List A → List A
  drop zero xs = xs
  drop (suc n) [] = []
  drop (suc n) (x ∷ xs) = drop n xs

  abbrev pub replicate : ℕ → A → List A
  replicate zero a = []
  replicate (suc n) a = a ∷ replicate n a

module _ {ℓ} {A : Type ℓ} where
  pub length-append : (xs ys : List A) → length (xs ++ ys) ≡ length xs + length ys
  length-append [] ys = omega arith
  length-append (x ∷ xs) ys = omega (arith, length-append xs ys)

  pub length-drop : (n : ℕ) (xs : List A) → length (drop n xs) ≡ length xs - n
  length-drop zero xs = omega arith
  length-drop (suc n) [] = omega arith
  length-drop (suc n) (x ∷ xs) = omega (arith, length-drop n xs)

  pub drop-append : (xs ys : List A) → drop (length xs) (xs ++ ys) ≡ ys
  drop-append [] ys = refl
  drop-append (x ∷ xs) ys = drop-append xs ys

  drop-append_step : (xs ys : List A) (y : A) → drop (suc (length xs)) (xs ++ y ∷ ys) ≡ ys
  drop-append_step [] ys y = refl
  drop-append_step (x ∷ xs) ys y = drop-append_step xs ys y

  pub drop-append_suc : (xs ys : List A) (y : A) → drop (length xs + 1) (xs ++ y ∷ ys) ≡ ys
  drop-append_suc xs ys y =
      let e : length xs + 1 ≡ suc (length xs) = omega arith in rw e (drop-append_step xs ys y)

  pub take-append : (xs ys : List A) → take (length xs) (xs ++ ys) ≡ xs
  take-append [] ys = refl
  take-append (x ∷ xs) ys = ap (λ l. x ∷ l) (take-append xs ys)

  pub get_elem?-append_left :
      (xs ys : List A) (i : ℕ) → i < length xs → get_elem? (xs ++ ys) i ≡ get_elem? xs i
  get_elem?-append_left [] ys i h = absurd (omega arith)
  get_elem?-append_left (x ∷ xs) ys zero h = refl
  get_elem?-append_left (x ∷ xs) ys (suc i) h = get_elem?-append_left xs ys i (omega arith)

  pub get_elem?-append_last : (xs : List A) (x : A) → get_elem? (xs ++ x ∷ []) (length xs) ≡ some x
  get_elem?-append_last [] x = refl
  get_elem?-append_last (y ∷ xs) x = get_elem?-append_last xs x

  pub get_elem?-beyond : (xs : List A) (i : ℕ) → length xs ≤ i → get_elem? xs i ≡ none
  get_elem?-beyond [] i h = refl
  get_elem?-beyond (x ∷ xs) zero h = absurd (omega arith)
  get_elem?-beyond (x ∷ xs) (suc i) h = get_elem?-beyond xs i (omega arith)

  pub drop-eq_cons :
      (xs : List A) (m : ℕ) (x : A) → get_elem? xs m ≡ some x → drop m xs ≡ x ∷ drop (suc m) xs
  drop-eq_cons [] m x h = cc
  drop-eq_cons (y ∷ xs) zero x h = cc
  drop-eq_cons (y ∷ xs) (suc m) x h = drop-eq_cons xs m x h

  pub get_elem?-lt : (xs : List A) (m : ℕ) → m < length xs → (x : A) × (get_elem? xs m ≡ some x)
  get_elem?-lt [] m h = absurd (omega arith)
  get_elem?-lt (x ∷ xs) zero h = (x, refl)
  get_elem?-lt (x ∷ xs) (suc m) h = get_elem?-lt xs m (omega arith)

  pub get_elem?-take : (xs : List A) (k j : ℕ) → j < k → get_elem? (take k xs) j ≡ get_elem? xs j
  get_elem?-take xs zero j h = absurd (omega arith)
  get_elem?-take [] (suc k) j h = refl
  get_elem?-take (x ∷ xs) (suc k) zero h = refl
  get_elem?-take (x ∷ xs) (suc k) (suc j) h = get_elem?-take xs k j (omega arith)

  pub length-take_of_le : (xs : List A) (k : ℕ) → k ≤ length xs → length (take k xs) ≡ k
  length-take_of_le xs zero h = refl
  length-take_of_le [] (suc k) h = absurd (omega arith)
  length-take_of_le (x ∷ xs) (suc k) h = ap suc (length-take_of_le xs k (omega arith))

  pub drop-all : (xs : List A) (k : ℕ) → length xs ≤ k → drop k xs ≡ []
  drop-all [] zero h = refl
  drop-all [] (suc k) h = refl
  drop-all (x ∷ xs) zero h = absurd (omega arith)
  drop-all (x ∷ xs) (suc k) h = drop-all xs k (omega arith)

  pub length-replicate : (n : ℕ) (a : A) → length (replicate n a) ≡ n
  length-replicate zero a = refl
  length-replicate (suc n) a = ap suc (length-replicate n a)

  pub take-append_of_le : (xs ys : List A) (n : ℕ) → n ≤ length xs → take n (xs ++ ys) ≡ take n xs
  take-append_of_le xs ys zero h = refl
  take-append_of_le [] ys (suc n) h = absurd (omega arith)
  take-append_of_le (x ∷ xs) ys (suc n) h =
      ap (λ l. x ∷ l) (take-append_of_le xs ys n (omega arith))

  pub drop-append_of_le :
      (xs ys : List A) (n : ℕ) → n ≤ length xs → drop n (xs ++ ys) ≡ drop n xs ++ ys
  drop-append_of_le xs ys zero h = refl
  drop-append_of_le [] ys (suc n) h = absurd (omega arith)
  drop-append_of_le (x ∷ xs) ys (suc n) h = drop-append_of_le xs ys n (omega arith)

  pub take-all : (xs : List A) (k : ℕ) → length xs ≤ k → take k xs ≡ xs
  take-all [] zero h = refl
  take-all [] (suc k) h = refl
  take-all (x ∷ xs) zero h = absurd (omega arith)
  take-all (x ∷ xs) (suc k) h = ap (λ l. x ∷ l) (take-all xs k (omega arith))

  pub get_elem?-append_middle :
      (xs ys : List A) (y : A) → get_elem? (xs ++ y ∷ ys) (length xs) ≡ some y
  get_elem?-append_middle [] ys y = refl
  get_elem?-append_middle (x ∷ xs) ys y = get_elem?-append_middle xs ys y

  -- a list around one of its elements
  pub split_around :
      (xs : List A) (i : ℕ) (y : A)
      → get_elem? xs i ≡ some y
      → (front back : List A) × (xs ≡ front ++ y ∷ back) × (length front ≡ i)
  split_around [] i y h = cc
  split_around (x ∷ xs) zero y h = ([], xs, cc, refl)
  split_around (x ∷ xs) (suc i) y h =
      let (front, back, e, n) = split_around xs i y h in
      (x ∷ front, back, ap (λ l. x ∷ l) e, ap suc n)

  pub get_elem?-none : (xs : List A) (i : ℕ) → get_elem? xs i ≡ none → length xs ≤ i
  get_elem?-none [] i h = omega arith
  get_elem?-none (x ∷ xs) zero h = cc
  get_elem?-none (x ∷ xs) (suc i) h = omega (arith, get_elem?-none xs i h)

  -- a list without or with a last element
  pub last-cases : (xs : List A) → (xs ≡ []) ⊎ ((front : List A) × (x : A) × (xs ≡ front ++ x ∷ []))
  last-cases [] = inl refl
  last-cases (x ∷ xs) = elim (last-cases xs) [
    | inl e ↦ inr ([], x, ap (λ l. x ∷ l) e)
    | inr (front, y, e) ↦ inr (x ∷ front, y, ap (λ l. x ∷ l) e)
  ]

  pub take-around : (es xs ys : List A) (i : ℕ) → es ≡ xs ++ ys → length xs ≡ i → take i es ≡ xs
  take-around es xs ys i e n = rw (e, ← n) (take-append xs ys)

  pub take-drop : (n : ℕ) (xs : List A) → take n xs ++ drop n xs ≡ xs
  take-drop zero xs = refl
  take-drop (suc n) [] = refl
  take-drop (suc n) (x ∷ xs) = ap (λ l. x ∷ l) (take-drop n xs)

  pub take-append_beyond :
      (xs ys : List A) (n : ℕ) → length xs ≤ n → take n (xs ++ ys) ≡ xs ++ take (n - length xs) ys
  take-append_beyond [] ys n h = ap (λ k. take k ys) (omega arith)
  take-append_beyond (x ∷ xs) ys zero h = absurd (omega arith)
  take-append_beyond (x ∷ xs) ys (suc n) h =
      ap (λ l. x ∷ l)
        (take-append_beyond xs ys n (omega arith) ∙ ap (λ k. xs ++ take k ys) (omega arith))

  pub drop-drop : (m n : ℕ) (xs : List A) → drop m (drop n xs) ≡ drop (n + m) xs
  drop-drop m zero xs = ap (λ k. drop k xs) (omega arith)
  drop-drop m (suc n) [] = drop-all [] m (omega arith) ∙ sym (drop-all [] (suc n + m) (omega arith))
  drop-drop m (suc n) (x ∷ xs) =
      let e : suc n + m ≡ suc (n + m) = omega arith in rw e (drop-drop m n xs)

  pub take-take-drop : (k j : ℕ) (xs : List A) → take k xs ++ take j (drop k xs) ≡ take (k + j) xs
  take-take-drop zero j xs = ap (λ n. take n xs) (omega arith)
  take-take-drop (suc k) j [] =
      take-all [] j (omega arith) ∙ sym (take-all [] (suc k + j) (omega arith))
  take-take-drop (suc k) j (x ∷ xs) =
      let e : suc k + j ≡ suc (k + j) = omega arith in
      rw e (ap (λ l. x ∷ l) (take-take-drop k j xs))

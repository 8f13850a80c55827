-- ===== src/Blocked/Registry.antt =====
-- The list and the dictionary hold the same commands.
use redisraft.Prelude.{
  ◌≡◌, refl, ap, ◌∙◌, Bool, true, false, none, some, List, [], ◌∷◌, ◌++◌, ◌==◌, if◌then◌else◌,
  arith, Bool-cases, Option-cases, inl, inr, ℤ, pos, negsuc,
}
use redisraft.Dict.{has, has_cons, IsDict-append, set_absent-append, set_absent, Apart, IsDict}
use redisraft.Blocked.{
  eq_ℤ, BlockedCommand, BlockedCommands, same_idx, add_blocked_command, find_idx,
  get_blocked_command, delete_idx, unlink, delete_blocked_command, abort_all,
  clear_all_block_commands,
}

eq_ℤ_refl : (i : ℤ) → eq_ℤ i i ≡ true
eq_ℤ_refl (pos n) = ground arith
eq_ℤ_refl (negsuc n) = ground arith

eq_ℤ→eq : (i j : ℤ) → eq_ℤ i j ≡ true → i ≡ j
eq_ℤ→eq (pos m) (pos n) h = ap pos (ground (arith, h))
eq_ℤ→eq (pos m) (negsuc n) h = cc
eq_ℤ→eq (negsuc m) (pos n) h = cc
eq_ℤ→eq (negsuc m) (negsuc n) h = ap negsuc (ground (arith, h))

eq_ℤ_apart : (i j k : ℤ) → eq_ℤ i j ≡ false → eq_ℤ i k ≡ true → eq_ℤ j k ≡ true → ⊥
eq_ℤ_apart i j k apart ik jk =
    let a = eq_ℤ→eq i k ik in
    let b = eq_ℤ→eq j k jk in
    let same : eq_ℤ i j ≡ true = rw (a, b) (eq_ℤ_refl k) in ground (arith, same, apart)

module _ {R : Type 0} where
  abbrev pub same_address : BlockedCommand R → BlockedCommand R → Bool
  same_address a b = a.address == b.address

  -- No index and no address stands twice, and the dictionary has the commands of the list.
  pub record IsSynced (b : BlockedCommands R) : Type 0 where
    pub same : b.dict ≡ b.list
    pub indices : IsDict same_idx b.list
    pub addresses : IsDict same_address b.list

  -- neither the index nor the address of the command is in use
  pub record IsNew (b : BlockedCommands R) (bc : BlockedCommand R) : Type 0 where
    pub index : has same_idx b.list bc ≡ false
    pub address : has same_address b.list bc ≡ false

  find_idx-append :
      (d : List (BlockedCommand R)) (x : BlockedCommand R) (i : ℤ)
      → has same_idx d x ≡ false
      → find_idx (d ++ x ∷ []) i ≡ (if eq_ℤ x.idx i then some x else find_idx d i)
  unfolding has find_idx
  find_idx-append [] x i new = refl
  find_idx-append (y ∷ d) x i new =
      let (apart, rest) = has_cons same_idx y d x new in
      elim (Bool-cases (eq_ℤ y.idx i)) [
        | inl hit ↦ elim (Bool-cases (eq_ℤ x.idx i)) [
          | inl both ↦ absurd (eq_ℤ_apart y.idx x.idx i apart hit both)
          | inr other ↦ rw (hit, other) refl
        ]
        | inr miss ↦ rw miss (find_idx-append d x i rest)
      ]

  some_address : (y bc : BlockedCommand R) → some y ≡ some bc → (y.address == bc.address) ≡ true
  some_address y bc e = let same : y.address ≡ bc.address = cc in rw same (ground arith)

  Apart-found :
      (y : BlockedCommand R) (d : List (BlockedCommand R)) (i : ℤ) (bc : BlockedCommand R)
      → Apart same_address y d
      → find_idx d i ≡ some bc
      → same_address y bc ≡ false
  unfolding find_idx
  Apart-found y [] i bc h found = cc
  Apart-found y (x ∷ d) i bc h found = elim (Bool-cases (eq_ℤ x.idx i)) [
    | inl hit ↦
        let e : some x ≡ some bc = ground (arith, hit, found) in
        let same : x.address ≡ bc.address = cc in rw (← same) h.0
    | inr miss ↦
        let deeper : find_idx d i ≡ some bc = ground (arith, miss, found) in
        Apart-found y d i bc h.1 deeper
  ]

  -- the found object is the one that leaves the list
  unlink-found :
      (d : List (BlockedCommand R)) (i : ℤ) (bc : BlockedCommand R)
      → IsDict same_address d
      → find_idx d i ≡ some bc
      → unlink d bc.address ≡ delete_idx d i
  unfolding find_idx unlink delete_idx
  unlink-found [] i bc h found = cc
  unlink-found (y ∷ d) i bc h found = elim (Bool-cases (eq_ℤ y.idx i)) [
    | inl hit ↦
        let e : some y ≡ some bc = ground (arith, hit, found) in
        let here : (y.address == bc.address) ≡ true = some_address y bc e in rw (hit, here) refl
    | inr miss ↦
        let deeper : find_idx d i ≡ some bc = ground (arith, miss, found) in
        let other : (y.address == bc.address) ≡ false = Apart-found y d i bc h.0 deeper in
        rw (miss, other) (ap (λ l. y ∷ l) (unlink-found d i bc h.1 deeper))
  ]

  Apart-delete_idx :
      (eq : BlockedCommand R → BlockedCommand R → Bool) (y : BlockedCommand R)
      (d : List (BlockedCommand R)) (i : ℤ)
      → Apart eq y d
      → Apart eq y (delete_idx d i)
  unfolding delete_idx
  Apart-delete_idx eq y [] i h = tt
  Apart-delete_idx eq y (x ∷ d) i h = elim (Bool-cases (eq_ℤ x.idx i)) [
    | inl hit ↦ rw hit h.1
    | inr miss ↦ rw miss (h.0, Apart-delete_idx eq y d i h.1)
  ]

  IsDict-delete_idx :
      (eq : BlockedCommand R → BlockedCommand R → Bool) (d : List (BlockedCommand R)) (i : ℤ)
      → IsDict eq d
      → IsDict eq (delete_idx d i)
  unfolding delete_idx
  IsDict-delete_idx eq [] i h = tt
  IsDict-delete_idx eq (x ∷ d) i h = elim (Bool-cases (eq_ℤ x.idx i)) [
    | inl hit ↦ rw hit h.1
    | inr miss ↦ rw miss (Apart-delete_idx eq x d i h.0, IsDict-delete_idx eq d i h.1)
  ]

  find_idx-Apart :
      (x : BlockedCommand R) (d : List (BlockedCommand R))
      → Apart same_idx x d
      → find_idx d x.idx ≡ none
  unfolding find_idx
  find_idx-Apart x [] h = refl
  find_idx-Apart x (y ∷ d) h = elim (Bool-cases (eq_ℤ y.idx x.idx)) [
    | inl hit ↦ absurd (eq_ℤ_apart x.idx y.idx x.idx h.0 (eq_ℤ_refl x.idx) hit)
    | inr miss ↦ rw miss (find_idx-Apart x d h.1)
  ]

  -- after a deletion nothing is found under the index, and every other index finds what it found before
  find_idx-delete_idx :
      (d : List (BlockedCommand R)) (i j : ℤ)
      → IsDict same_idx d
      → find_idx (delete_idx d i) j ≡ (if eq_ℤ i j then none else find_idx d j)
  unfolding find_idx delete_idx
  find_idx-delete_idx [] i j h = ground arith
  find_idx-delete_idx (x ∷ d) i j h = elim (Bool-cases (eq_ℤ x.idx i)) [
    | inl hit ↦ elim (Bool-cases (eq_ℤ i j)) [
      | inl here ↦
          let e : x.idx ≡ j = eq_ℤ→eq x.idx i hit ∙ eq_ℤ→eq i j here in
          rw (hit, here, ← e) (find_idx-Apart x d h.0)
      | inr there ↦ let e = eq_ℤ→eq x.idx i hit in rw (hit, e, there) refl
    ]
    | inr miss ↦ elim (Bool-cases (eq_ℤ x.idx j)) [
      | inl found ↦ elim (Bool-cases (eq_ℤ i j)) [
        | inl here ↦ absurd (eq_ℤ_apart x.idx i j miss found here)
        | inr there ↦ rw (miss, found, there) refl
      ]
      | inr deeper ↦ rw (miss, deeper) (find_idx-delete_idx d i j h.1)
    ]
  ]

  find_missing :
      (d : List (BlockedCommand R)) (i j : ℤ)
      → find_idx d i ≡ none
      → find_idx d j ≡ (if eq_ℤ i j then none else find_idx d j)
  find_missing d i j h = elim (Bool-cases (eq_ℤ i j)) [
    | inl here ↦ let e = eq_ℤ→eq i j here in rw (here, ← e) h
    | inr there ↦ rw there refl
  ]

  abort_all-all :
      (abort : R → Bool) (d : List (BlockedCommand R))
      → ((r : R) → abort r ≡ true)
      → abort_all abort d ≡ ([], true)
  unfolding abort_all
  abort_all-all abort [] all = refl
  abort_all-all abort (x ∷ d) all = rw (all x.reply) (abort_all-all abort d all)

  -- Adding a command with an index and an address that are not in use keeps the list and the dictionary in
  -- step; the command is then found under its index, and every other index finds what it found before.
  pub add_blocked_command-IsSynced :
      (b : BlockedCommands R) (bc : BlockedCommand R)
      → IsSynced b
      → IsNew b bc
      → IsSynced (add_blocked_command b bc)
        × ((i : ℤ)
            → get_blocked_command (add_blocked_command b bc) i
              ≡ (if eq_ℤ bc.idx i then some bc else get_blocked_command b i))
  unfolding add_blocked_command
  add_blocked_command-IsSynced b bc h new =
      let unused : has same_idx b.dict bc ≡ false = rw h.same new.index in
      let grown : set_absent same_idx b.dict bc ≡ b.dict ++ bc ∷ [] =
        set_absent-append same_idx b.dict bc unused in
      (
        record {
          same = grown ∙ ap (λ l. l ++ bc ∷ []) h.same;
          indices = IsDict-append same_idx b.list bc new.index h.indices;
          addresses = IsDict-append same_address b.list bc new.address h.addresses;
        },
        (λ i. rw grown (find_idx-append b.dict bc i unused)),
      )

  -- Deleting keeps the list and the dictionary in step, whether the index is in use or not; nothing is then
  -- found under the index, and every other index finds what it found before.
  pub delete_blocked_command-IsSynced :
      (b : BlockedCommands R) (i : ℤ)
      → IsSynced b
      → IsSynced (delete_blocked_command b i)
        × ((j : ℤ)
            → get_blocked_command (delete_blocked_command b i) j
              ≡ (if eq_ℤ i j then none else get_blocked_command b j))
  unfolding delete_blocked_command
  delete_blocked_command-IsSynced b i h = elim (Option-cases (find_idx b.dict i)) [
    | inl missing ↦ rw missing (h, (λ j. find_missing b.dict i j missing))
    | inr (bc, found) ↦
        let listed : find_idx b.list i ≡ some bc = rw (← h.same) found in
        let unlinked = unlink-found b.list i bc h.addresses listed in
        let apart : IsDict same_idx b.dict = rw h.same h.indices in
        rw found (
          record {
            same = rw (h.same, unlinked) refl;
            indices = rw unlinked (IsDict-delete_idx same_idx b.list i h.indices);
            addresses = rw unlinked (IsDict-delete_idx same_address b.list i h.addresses);
          },
          (λ j. find_idx-delete_idx b.dict i j apart),
        )
  ]

  -- Clearing leaves nothing where every promise can be aborted.
  pub clear_all_block_commands-IsSynced :
      (abort : R → Bool) (b : BlockedCommands R)
      → ((r : R) → abort r ≡ true)
      → clear_all_block_commands abort b ≡ record { list = []; dict = [] }
  unfolding clear_all_block_commands
  clear_all_block_commands-IsSynced abort b all = rw (abort_all-all abort b.list all) refl

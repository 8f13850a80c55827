-- ===== src/Redirect/Keys.antt =====
-- The counting of `validateKeyExistence` against the tests that it stands for.
use redisraft.Prelude.{
  ℕ, suc, ◌+◌, ◌≤◌, ◌≡◌, refl, Bool, true, false, ◌&&◌, ◌||◌, List, [], ◌∷◌, ◌++◌, ◌==◌, ltb,
  if◌then◌else◌, length, arith, Bool-cases, inl, inr, length-append,
}
use redisraft.Wire.{Bytes}
use redisraft.Commands.{Command, CommandArray}
use redisraft.LockKeys.{has_key}
use redisraft.Redirect.{
  all_exist, some_exist, none_exist, locked_exist, Counts, count_key, count_keys, count_commands,
  status_of, validate_key_existence,
}

unfoldable pub count : (Bytes → Bool) → List Bytes → ℕ
count p [] = 0
count p (k ∷ keys) = let rest = count p keys in if p k then rest + 1 else rest

unfoldable pub any : (Bytes → Bool) → List Bytes → Bool
any p [] = false
any p (k ∷ keys) = p k || any p keys

unfoldable pub all : (Bytes → Bool) → List Bytes → Bool
all p [] = true
all p (k ∷ keys) = p k && all p keys

count-bound : (p : Bytes → Bool) (keys : List Bytes) → count p keys ≤ length keys
unfolding count
count-bound p [] = omega arith
count-bound p (k ∷ keys) = ground (arith, count-bound p keys)

count-any : (p : Bytes → Bool) (keys : List Bytes) → ltb 0 (count p keys) ≡ any p keys
unfolding count any
count-any p [] = refl
count-any p (k ∷ keys) = elim (Bool-cases (p k)) [
  | inl met ↦ rw met (ground arith)
  | inr unmet ↦ rw unmet (count-any p keys)
]

count-all : (p : Bytes → Bool) (keys : List Bytes) → (count p keys == length keys) ≡ all p keys
unfolding count all
count-all p [] = refl
count-all p (k ∷ keys) = elim (Bool-cases (p k)) [
  | inl met ↦
      let e : (count p keys + 1 == suc (length keys)) ≡ (count p keys == length keys) =
        ground arith in
      rw (met, e) (count-all p keys)
  | inr unmet ↦
      let bound = count-bound p keys in
      let e : (count p keys == suc (length keys)) ≡ false = ground (arith, bound) in
      rw (unmet, e) refl
]

abbrev no_counts : Counts
no_counts = record { total_keys = 0; found = 0; locked = 0 }

by_counts :
    (c : Counts) (locked found total : ℕ)
    → (c.total_keys ≡ 0 + total) × (c.found ≡ 0 + found) × (c.locked ≡ 0 + locked)
    → status_of c ≡ (
        if ltb 0 locked
        then locked_exist
        else if found == total
        then all_exist
        else if ltb 0 found
        then some_exist
        else none_exist)
by_counts c locked found total h = ground (arith, h)

module _ (exists : Bytes → Bool) (keys_of : Command → List Bytes) (locked_keys : List Bytes) where
  -- the keys of all commands, one after the other
  unfoldable pub all_keys : List Command → List Bytes
  all_keys [] = []
  all_keys (cmd ∷ cmds) = keys_of cmd ++ all_keys cmds

  abbrev pub is_held : Bytes → Bool
  is_held k = exists k && has_key locked_keys k

  -- what the keys add to the counts
  abbrev Adds : ℕ → List Bytes → Counts → Counts → Type 0
  Adds total keys c c' =
      (c'.total_keys ≡ c.total_keys + total)
      × (c'.found ≡ c.found + count exists keys)
      × (c'.locked ≡ c.locked + count is_held keys)

  count_key-Adds :
      (k : Bytes) (keys : List Bytes) (c c' : Counts)
      → Adds 0 keys (count_key exists keys_of locked_keys k c) c'
      → Adds 0 (k ∷ keys) c c'
  unfolding count
  count_key-Adds k keys c c' h = elim (Bool-cases (exists k)) [
    | inl there ↦ elim (Bool-cases (has_key locked_keys k)) [
      | inl held ↦ ground (arith, there, held, h)
      | inr free ↦ ground (arith, there, free, h)
    ]
    | inr missing ↦ ground (arith, missing, h)
  ]

  count_keys-Adds :
      (keys : List Bytes) (c : Counts)
      → Adds 0 keys c (count_keys exists keys_of locked_keys keys c)
  unfolding count_keys count
  count_keys-Adds [] c = (omega arith, omega arith, omega arith)
  count_keys-Adds (k ∷ keys) c =
      count_key-Adds k keys c _ (count_keys-Adds keys (count_key exists keys_of locked_keys k c))

  count-append : (p : Bytes → Bool) (a b : List Bytes) → count p (a ++ b) ≡ count p a + count p b
  unfolding count
  count-append p [] b = omega arith
  count-append p (k ∷ a) b = ground (arith, count-append p a b)

  count_commands-Adds :
      (cmds : List Command) (c : Counts)
      → Adds
          (length (all_keys cmds))
          (all_keys cmds)
          c
          (count_commands exists keys_of locked_keys cmds c)
  unfolding count_commands all_keys count
  count_commands-Adds [] c = (omega arith, omega arith, omega arith)
  count_commands-Adds (cmd ∷ cmds) c =
      let keys = keys_of cmd in
      let c0 : Counts = record c { total_keys = c.total_keys + length keys } in
      let c1 = count_keys exists keys_of locked_keys keys c0 in
      let (t, f, l) = count_keys-Adds keys c0 in
      let (t2, f2, l2) = count_commands-Adds cmds c1 in
      let n = length-append keys (all_keys cmds) in
      let found = count-append exists keys (all_keys cmds) in
      let held = count-append is_held keys (all_keys cmds) in
      (omega (arith, t, t2, n), omega (arith, f, f2, found), omega (arith, l, l2, held))

  -- The status, by what holds of the keys of all commands: some key that exists is locked; otherwise all
  -- exist; otherwise some do; otherwise none does.
  pub validate_key_existence_lem :
      (cmds : CommandArray)
      → let keys = all_keys cmds.commands in
        validate_key_existence exists keys_of locked_keys cmds ≡ (
          if any is_held keys
          then locked_exist
          else if all exists keys
          then all_exist
          else if any exists keys
          then some_exist
          else none_exist)
  unfolding validate_key_existence
  validate_key_existence_lem cmds =
      let keys = all_keys cmds.commands in
      rw (← (count-any is_held keys), ← (count-all exists keys), ← (count-any exists keys))
        (by_counts (count_commands exists keys_of locked_keys cmds.commands no_counts)
          (count is_held keys) (count exists keys) (length keys)
          (count_commands-Adds cmds.commands no_counts))

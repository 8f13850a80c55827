-- ===== src/Blocked/RoundTrip.antt =====
-- The blocked commands of a snapshot block again when it is loaded.
use redisraft.Prelude.{
  ℕ, ◌^◌, ◌≡◌, refl, sym, ap, ◌∙◌, Bool, true, false, Option, none, some, List, [], ◌∷◌, ◌++◌,
  length, map, Bool-cases, inl, inr, c_string, ℤ, fits, append_assoc, append-nil,
}
use redisraft.Wire.{Bytes}
use redisraft.Rdb.{All, Stream, load_times, save_each, to_long-to_uint64}
use redisraft.Dict.{has, has-IsDict, set_absent-append, IsDict, Apart}
use redisraft.Commands.{CommandArray, empty_array, deserialize}
use redisraft.Blocked.{
  eq_ℤ, BlockedCommand, BlockedCommands, same_idx, alloc_blocked_command, add_blocked_command,
}
use redisraft.Blocked.Registry.{clear_all_block_commands-IsSynced}
use redisraft.Blocked.Save.{
  Saved, leb_ℤ, first_name, applied, save_blocked, load_saved, blocked_commands_save, block_again,
  block_each, blocked_commands_load,
}

-- what a snapshot keeps of a command, and the command's name
abbrev pub View : Type 0
View = Saved × Bytes

abbrev same_view : View → View → Bool
same_view a b = eq_ℤ a.0.0 b.0.0

module _ {R : Type 0} where
  abbrev pub saved_of : BlockedCommand R → Saved
  saved_of bc = (bc.idx, (bc.session, bc.body))

  abbrev pub view : BlockedCommand R → View
  view bc = (saved_of bc, bc.command)

  has-view :
      (d : List (BlockedCommand R)) (x : BlockedCommand R) (v : View)
      → v.0.0 ≡ x.idx
      → has same_idx d x ≡ has same_view (map view d) v
  unfolding has
  has-view [] x v e = refl
  has-view (z ∷ d) x v e = rw (has-view d x v e, ← e) refl

  Apart-view :
      (y : BlockedCommand R) (d : List (BlockedCommand R))
      → Apart same_idx y d
      → Apart same_view (view y) (map view d)
  Apart-view y [] h = tt
  Apart-view y (x ∷ d) h = (h.0, Apart-view y d h.1)

  IsDict-view : (d : List (BlockedCommand R)) → IsDict same_idx d → IsDict same_view (map view d)
  IsDict-view [] h = tt
  IsDict-view (x ∷ d) h = (Apart-view x d h.0, IsDict-view d h.1)

  Apart-applied :
      (last : ℤ) (y : BlockedCommand R) (d : List (BlockedCommand R))
      → Apart same_idx y d
      → Apart same_idx y (applied last d)
  unfolding applied
  Apart-applied last y [] h = tt
  Apart-applied last y (x ∷ d) h = elim (Bool-cases (leb_ℤ x.idx last)) [
    | inl kept ↦ rw kept (h.0, Apart-applied last y d h.1)
    | inr beyond ↦ rw beyond tt
  ]

  IsDict-applied :
      (last : ℤ) (d : List (BlockedCommand R))
      → IsDict same_idx d
      → IsDict same_idx (applied last d)
  unfolding applied
  IsDict-applied last [] h = tt
  IsDict-applied last (x ∷ d) h = elim (Bool-cases (leb_ℤ x.idx last)) [
    | inl kept ↦ rw kept (Apart-applied last x d h.0, IsDict-applied last d h.1)
    | inr beyond ↦ rw beyond tt
  ]

  map-view-append :
      (d : List (BlockedCommand R)) (x : BlockedCommand R)
      → map view (d ++ x ∷ []) ≡ map view d ++ view x ∷ []
  map-view-append [] x = refl
  map-view-append (y ∷ d) x = ap (λ l. view y ∷ l) (map-view-append d x)

module _ {W R : Type 0} (calloc : W → ℕ × W) (execute : W → CommandArray → Option R × W)
    (promise : R → Bool) (abort : R → Bool) where
  -- The index is one, and the data is that of a command array with the command's name, which blocks
  -- whenever it is executed.
  pub record IsBlocked (bc : BlockedCommand R) : Type 0 where
    pub idx_fits : fits (2 ^ 63) bc.idx ≡ true
    pub cmds : CommandArray
    pub name : Bytes
    pub read : deserialize (record empty_array { client_id = bc.session }) bc.body ≡ some cmds
    pub named : first_name cmds.commands ≡ some name
    pub command : bc.command ≡ c_string name
    pub blocks : (w : W) → (r : R) × (w' : W) × (execute w cmds ≡ (some r, w')) × (promise r ≡ true)

  -- `b'` is the former with the commands of the list behind it, under new requests and replies.
  abbrev Resumed : BlockedCommands R → List (BlockedCommand R) → BlockedCommands R → Type 0
  Resumed b bcs b' = (map view b'.list ≡ map view b.list ++ map view bcs) × (b'.dict ≡ b'.list)

  block_again-IsBlocked :
      (w : W) (b : BlockedCommands R) (bc : BlockedCommand R) (bcs : List (BlockedCommand R))
      → b.dict ≡ b.list
      → IsDict same_view (map view b.list ++ map view (bc ∷ bcs))
      → IsBlocked bc
      → (b' : BlockedCommands R) × (w' : W) × (block_again calloc execute promise abort w b
            (saved_of bc)
          ≡ some (b', w'))
        × Resumed b (bc ∷ []) b'
  unfolding block_again add_blocked_command alloc_blocked_command
  block_again-IsBlocked w b bc bcs same apart h =
      let (r, w', run, promised) = h.blocks w in
      let new = alloc_blocked_command (calloc w').0 h.name bc.idx bc.session bc.body none r in
      let unseen : has same_view (map view b.list) (view bc) ≡ false =
        has-IsDict same_view (map view b.list) (view bc) (map view bcs) apart in
      let absent : has same_idx b.dict new ≡ false =
        rw same (has-view b.list new (view bc) refl ∙ unseen) in
      let grown = set_absent-append same_idx b.dict new absent in
      (
        add_blocked_command b new,
        (calloc w').1,
        rw (h.read, run, promised, h.named) refl,
        (map-view-append b.list new ∙ rw h.command refl, grown ∙ ap (λ l. l ++ new ∷ []) same),
      )

  block_each-IsBlocked :
      (w : W) (b : BlockedCommands R) (bcs : List (BlockedCommand R))
      → b.dict ≡ b.list
      → IsDict same_view (map view b.list ++ map view bcs)
      → All IsBlocked bcs
      → (b' : BlockedCommands R) × (w' : W) × (block_each calloc execute promise abort w b
            (map saved_of bcs)
          ≡ some (b', w'))
        × Resumed b bcs b'
  unfolding block_each
  block_each-IsBlocked w b [] same apart all =
      (b, w, refl, (sym (append-nil (map view b.list)), same))
  block_each-IsBlocked w b (bc ∷ bcs) same apart (h, all) =
      let (b1, w1, first, (listed, same1)) = block_again-IsBlocked w b bc bcs same apart h in
      let e : map view b1.list ++ map view bcs ≡ map view b.list ++ map view (bc ∷ bcs) =
        rw listed (append_assoc (map view b.list) (view bc ∷ []) (map view bcs)) in
      let (b2, w2, rest, (listed2, same2)) =
        block_each-IsBlocked w1 b1 bcs same1 (rw e apart) all in
      (b2, w2, rw first rest, (listed2 ∙ e, same2))

  load_times-saved :
      (bcs : List (BlockedCommand R)) (s : Stream)
      → All IsBlocked bcs
      → load_times load_saved (length bcs) (save_each save_blocked bcs s)
        ≡ some (map saved_of bcs, s)
  load_times-saved [] s all = refl
  load_times-saved (bc ∷ bcs) s (h, all) =
      rw (to_long-to_uint64 bc.idx h.idx_fits, load_times-saved bcs s all) refl

  -- Loading what was saved, where every promise can be aborted: the commands up to the last applied index are
  -- blocked again, in their order and with their index, session, data and name, and nothing else is; the
  -- dictionary has them too.
  pub blocked_commands_load-save :
      (w : W) (old b : BlockedCommands R) (last : ℤ) (rest : Stream)
      → ((r : R) → abort r ≡ true)
      → IsDict same_idx b.list
      → All IsBlocked (applied last b.list)
      → (b' : BlockedCommands R) × (w' : W) × (blocked_commands_load calloc execute promise abort w
            old
            (blocked_commands_save last b rest)
          ≡ some (b', (w', rest)))
        × (map view b'.list ≡ map view (applied last b.list))
        × (b'.dict ≡ b'.list)
  unfolding blocked_commands_load blocked_commands_save
  blocked_commands_load-save w old b last rest all indices h =
      let saved = applied last b.list in
      let apart = IsDict-view saved (IsDict-applied last b.list indices) in
      let (b', w', run, (listed, same)) =
        block_each-IsBlocked w (record { list = []; dict = [] }) saved refl apart h in
      (
        b',
        w',
        rw (load_times-saved saved rest h, clear_all_block_commands-IsSynced abort old all, run)
            refl,
        listed,
        same,
      )

-- ===== src/Sharding/Slots.antt =====
-- Which slots a list of ranges covers, apart from how the loops go through them.
use redisraft.Prelude.{ℕ, ◌≡◌, refl, Bool, true, false, ◌&&◌, ◌||◌, List, [], ◌∷◌, leb}
use redisraft.Sharding.{SlotType, SlotRange, stable, importing, migrating, unknown, type_eq}

-- whether the slot stands in the range
abbrev pub within : SlotRange → ℕ → Bool
within r j = leb r.start_slot j && leb j r.end_slot

-- whether a range of this type holds the slot
unfoldable pub covered : List SlotRange → SlotType → ℕ → Bool
covered [] t j = false
covered (r ∷ ranges) t j = (type_eq r.type t && within r j) || covered ranges t j

pub type_eq→eq : (s t : SlotType) → type_eq s t ≡ true → s ≡ t
type_eq→eq stable stable h = refl
type_eq→eq importing importing h = refl
type_eq→eq migrating migrating h = refl
type_eq→eq unknown unknown h = refl
type_eq→eq stable importing h = cc
type_eq→eq stable migrating h = cc
type_eq→eq stable unknown h = cc
type_eq→eq importing stable h = cc
type_eq→eq importing migrating h = cc
type_eq→eq importing unknown h = cc
type_eq→eq migrating stable h = cc
type_eq→eq migrating importing h = cc
type_eq→eq migrating unknown h = cc
type_eq→eq unknown stable h = cc
type_eq→eq unknown importing h = cc
type_eq→eq unknown migrating h = cc

pub type_eq_refl : (t : SlotType) → type_eq t t ≡ true
type_eq_refl stable = refl
type_eq_refl importing = refl
type_eq_refl migrating = refl
type_eq_refl unknown = refl

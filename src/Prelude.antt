-- ===== src/Prelude.antt =====
-- The names that the other modules share: the libraries', passed on, and those of its children.
mod Tests
mod Lists
mod Options
mod Bytes
mod CString
mod Int
pub use Tests.*
pub use Lists.*
pub use Options.*
pub use Int.*
unfoldable pub use Bytes.{bytes_eq, to_lower, is_name}
unfoldable pub use CString.{
  c_string, is_digit, is_space, skip_spaces, scan_digits, sign_of, starts_with_digit, to_ulong,
  strtoul,
}
pub use Bytes.{bytes_eq→eq, bytes_eq_refl}
pub use Prim.Native.Nat.{ℕ, zero, suc, ◌+◌, ◌-◌, ◌*◌, ◌/◌, ◌%◌, ◌^◌, ◌≤◌, ◌<◌, min}
pub use mathlib.Core.Path.{◌≡◌, refl, sym, ap, ◌∙◌}
pub use mathlib.Core.Logic.{◌≢◌, ◌↔◌, ◌⊎◌, inl, inr}
pub use mathlib.Core.Bool.{Bool, true, false, not, ◌&&◌, ◌||◌}
pub use mathlib.Core.Option.{Option, none, some}
pub use mathlib.Core.List.{List, [], ◌∷◌, ◌++◌, map, append_assoc, append-nil}
pub use native.Mathlib.Omega.{arith}

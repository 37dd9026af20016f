-- ===== src/Common.antt =====
-- The names that every component shares: the libraries', passed on, and those of the children.
mod Tests
mod Lists
mod Text
mod Int
mod Keys
mod Decimal
pub use Tests.*
pub use Lists.*
unfoldable pub use Text.{
  itoa, digits, split_after, cut, trim_left, trim_space, trim_seqs, strip_any, spaces,
}
pub use Text.*
unfoldable pub use Int.{◌+ℤ◌, ◌-ℤ◌}
pub use Int.*
unfoldable pub use Keys.{lookup, insert, delete, bytes_eq}
pub use Keys.*
pub use Decimal.*
pub use Prim.Native.Nat.{ℕ, zero, suc, ◌+◌, ◌-◌, ◌*◌, ◌/◌, ◌%◌, ◌^◌, ◌≤◌, ◌<◌, max, min}
pub use Prim.Native.String.{String}
pub use mathlib.Core.Path.{◌≡◌, refl, sym, ap, ◌∙◌, subst}
pub use mathlib.Core.Logic.{◌≢◌, ◌↔◌, ◌⊎◌, inl, inr}
pub use mathlib.Core.Bool.{Bool, true, false, not, ◌&&◌, ◌||◌}
pub use mathlib.Core.Option.{Option, none, some}
pub use mathlib.Core.List.{List, [], ◌∷◌, ◌++◌, map, reverse, append_assoc, append-nil}
pub use native.Mathlib.Omega.{arith}

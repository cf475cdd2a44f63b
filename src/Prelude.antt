-- ===== src/Prelude.antt =====
-- The names that the other modules share: the libraries', passed on, and those of the children.
mod Tests
mod Lists
mod Text
mod Sorting
mod Doubles
pub mod Integer
pub use Tests.*
pub use Lists.*
pub use Doubles.Tenths.{tenths-near}
pub use Doubles.{
  Double, times, round, IsBelow, IsAbove, rounded-IsBelow, rounded-IsAbove, times-IsBelow,
  times-IsAbove, round-IsBelow, round-IsAbove,
}
unfoldable pub use Doubles.{nearest, scaled, rounded}
pub use Text.{str_ne, str_refl}
unfoldable pub use Sorting.{insert_by, sort_by}
pub use Sorting.{any-insert_by, any-sort_by, any-take}
unfoldable pub use Text.{trim_space, to_lower, is_blank, has_prefix}
pub use Prim.Native.Nat.{ℕ, zero, suc, ◌+◌, ◌-◌, ◌*◌, ◌/◌, ◌%◌, ◌^◌, ◌≤◌, ◌<◌}
pub use Prim.Native.String.{String}
pub use mathlib.Core.Path.{◌≡◌, refl, sym, ap, subst, ◌∙◌}
pub use mathlib.Core.Logic.{◌≢◌, ◌↔◌, ◌⊎◌, inl, inr}
pub use mathlib.Core.Bool.{Bool, true, false, not, ◌&&◌, ◌||◌}
pub use mathlib.Core.Option.{Option, none, some}
pub use mathlib.Core.List.{List, [], ◌∷◌, ◌++◌, map}
pub use native.Mathlib.Omega.{arith}
pub use text.Mathlib.Text.{◌==◌ as str_eq}
pub use text.Mathlib.TextEquality.{eq_iff}

-- ===== src/Prelude.antt =====
-- The names that the other modules share: the libraries' and those of the children, passed on.
mod Tests
mod Maps
mod Names
mod Texts
mod Lists
mod Totals
mod Results
mod Numbers
pub use Tests.*
pub use Results.*
pub use Numbers.*
unfoldable pub use Maps.*
unfoldable pub use Totals.*
pub use Lists.*
unfoldable pub use Names.*
unfoldable pub use Texts.*
pub use Prim.Native.Nat.{ℕ, zero, suc, ◌+◌, ◌-◌, ◌*◌, ◌/◌, ◌%◌, ◌^◌, ◌≤◌, ◌<◌, max}
pub use Prim.Native.String.{String}
pub use mathlib.Core.Path.{◌≡◌, refl, sym, ap, subst, ◌∙◌}
pub use mathlib.Core.Logic.{◌≢◌, ◌↔◌, ◌⊎◌, inl, inr}
pub use mathlib.Core.Bool.{Bool, true, false, ◌&&◌, ◌||◌, not}
pub use mathlib.Core.Option.{Option, none, some}
pub use mathlib.Core.List.{List, [], ◌∷◌, ◌++◌, map}
pub use native.Mathlib.Omega.{arith}
pub use text.Mathlib.TextEquality.{eq_iff}
pub use text.Mathlib.TextPositions.{eq_refl}

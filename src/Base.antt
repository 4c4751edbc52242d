-- ===== src/Base.antt =====
-- Shared names: the libraries', passed on, and the tests, lists and integers of the children.
mod Tests
pub mod Lists
pub mod Int
pub mod Fold
pub mod Decimal
unfoldable pub use Tests.{◌==◌}
pub use Tests.{ltb, leb, eqb, if◌then◌else◌, ==_iff, ==_refl, String-set, Bool-cases, Option-cases}
pub use Prim.Native.Nat.{ℕ, zero, suc, ◌+◌, ◌-◌, ◌*◌, ◌/◌, ◌%◌, ◌^◌, ◌≤◌, ◌<◌}
pub use Prim.Native.String.{String}
pub use mathlib.Core.Path.{◌≡◌, refl, sym, ap, ◌∙◌, subst}
pub use mathlib.Core.Logic.{◌≢◌, ◌↔◌, ◌⊎◌, inl, inr}
pub use mathlib.Core.Bool.{Bool, true, false, not, ◌&&◌, ◌||◌}
pub use mathlib.Core.Option.{Option, none, some}
pub use mathlib.Core.List.{List, [], ◌∷◌, ◌++◌, map}
pub use native.Mathlib.Omega.{arith}

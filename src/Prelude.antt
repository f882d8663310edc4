-- ===== src/Prelude.antt =====
-- The names that every module shares: the libraries' numbers, lists and paths passed on, and the
-- tests, results, tables and sorts of the modules below.
mod Tests
mod Results
mod Lists
pub mod Table
pub mod Sort
pub mod Compare
pub mod Sums
pub mod Split
pub mod Text
pub use Tests.*
pub use Results.*
unfoldable pub use Lists.*
pub use Prim.Native.Nat.{ℕ, zero, suc, ◌+◌, ◌-◌, ◌*◌, ◌/◌, ◌^◌, ◌≤◌, ◌<◌}
pub use mathlib.Core.Path.{◌≡◌, refl, sym, ap, ap₂, ◌∙◌, subst}
pub use mathlib.Core.Logic.{◌≢◌, ◌↔◌, ◌⊎◌, inl, inr}
pub use mathlib.Core.Bool.{Bool, true, false, ◌&&◌, ◌||◌, not}
pub use mathlib.Core.Option.{Option, none, some}
pub use mathlib.Core.List.{List, [], ◌∷◌, ◌++◌, map}
pub use native.Mathlib.Omega.{arith}

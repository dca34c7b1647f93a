-- ===== src/Prelude.antt =====
-- The names that the other modules share: the libraries', passed on, the tests and lists over the
-- native numbers, the signed integers of Python and the result of code that may raise.
mod Tests
mod Lists
mod Raise
pub mod Division
pub mod Gather
pub mod Int
pub mod Powers
pub mod Text
pub use Tests.*
pub use Lists.*
unfoldable pub use Raise.*
pub use Prim.Native.Nat.{ℕ, zero, suc, ◌+◌, ◌-◌, ◌*◌, ◌/◌, ◌%◌, ◌^◌, ◌≤◌, ◌<◌, min, max}
pub use mathlib.Core.Path.{◌≡◌, refl, sym, ap, ap₂, ◌∙◌}
pub use mathlib.Core.Logic.{◌≢◌, ◌↔◌, ◌⊎◌, inl, inr}
pub use mathlib.Core.Bool.{Bool, true, false, not, ◌&&◌, ◌||◌}
pub use mathlib.Core.Option.{Option, none, some}
pub use mathlib.Core.List.{List, [], ◌∷◌, ◌++◌, map}
pub use native.Mathlib.Omega.{arith}

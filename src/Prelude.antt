-- ===== src/Prelude.antt =====
-- The names that all modules share: the libraries', passed on, and those of the children: Boolean
-- tests, C arrays as lists, machine words, checked access.
mod Tests
mod Lists
mod Words
mod Checked
mod Arith
pub mod Int
pub use Tests.*
pub use Lists.*
pub use Arith.*
pub use Words.*
unfoldable pub use Checked.*
pub use Prim.Native.Nat.{ℕ, zero, suc, ◌+◌, ◌-◌, ◌*◌, ◌/◌, ◌%◌, ◌^◌, ◌≤◌, ◌<◌}
pub use mathlib.Core.Path.{◌≡◌, refl, sym, ap, subst, ◌∙◌}
pub use mathlib.Core.Logic.{◌≢◌, ◌↔◌, ◌⊎◌, inl, inr}
pub use mathlib.Core.Bool.{Bool, true, false, ◌&&◌, ◌||◌, not}
pub use mathlib.Core.Option.{Option, none, some}
pub use mathlib.Core.List.{List, [], ◌∷◌, ◌++◌, map}
pub use native.Mathlib.Omega.{arith}

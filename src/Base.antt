-- ===== src/Base.antt =====
-- The names that the other modules share.
mod Tests
mod Texts
mod Errors
mod Lists
mod Checks
mod Maps
pub mod Int
pub mod Floats
pub mod Sorting
pub use Tests.*
unfoldable pub use Texts.*
pub use Errors.*
pub use Lists.*
pub use Checks.*
pub use Maps.*
pub use Prim.Native.Nat.{ℕ, zero, suc, ◌+◌, ◌-◌, ◌*◌, ◌/◌, ◌%◌, ◌^◌, ◌≤◌, ◌<◌, min, max}
pub use mathlib.Core.Path.{◌≡◌, refl, sym, ap, ◌∙◌}
pub use mathlib.Core.Logic.{◌≢◌, ◌↔◌, ◌⊎◌, inl, inr}
pub use mathlib.Core.Bool.{Bool, true, false, ◌&&◌, ◌||◌, not}
pub use mathlib.Core.Option.{Option, none, some}
pub use mathlib.Core.List.{List, [], ◌∷◌, ◌++◌, map}
pub use native.Mathlib.Omega.{arith}

-- ===== src/Base.antt =====
-- Shared vocabulary: the library names that the other modules use, Boolean tests and list functions
-- over the native numbers, machine words, faults, and association lists for `std::map`.
mod Tests
mod Lists
mod Faults
mod Maps
mod Predicates
mod Outcomes
pub use Tests.*
pub use Lists.*
pub use Faults.*
pub use Predicates.*
pub use Outcomes.*
unfoldable pub use Maps.*
pub use Prim.Native.Nat.{ℕ, zero, suc, ◌+◌, ◌-◌, ◌*◌, ◌/◌, ◌%◌, ◌^◌, ◌≤◌, ◌<◌}
pub use mathlib.Core.Path.{◌≡◌, refl, sym, ap, ◌∙◌}
pub use mathlib.Core.Logic.{◌≢◌, ◌↔◌, ◌⊎◌, inl, inr}
pub use mathlib.Core.Bool.{Bool, true, false, ◌&&◌, ◌||◌, not}
pub use mathlib.Core.Option.{Option, none, some}
pub use mathlib.Core.List.{List, [], ◌∷◌, ◌++◌, map}
pub use native.Mathlib.Omega.{arith}

-- ===== src/Base.antt =====
-- The names that all modules share: library names passed on, tests on numbers and texts, lists
-- measured by native numbers, and Python's dicts.
mod Tests
mod Lists
mod Keys
mod Dicts
mod Sets
mod Actions
mod Texts
mod Stale
mod Patterns
mod Slots
pub use Tests.*
pub use Lists.*
pub use Keys.*
unfoldable pub use Dicts.*
unfoldable pub use Sets.*
pub use Slots.*
pub use Actions.*
unfoldable pub use Texts.*
unfoldable pub use Stale.*
unfoldable pub use Patterns.*
pub use Prim.Native.Nat.{ℕ, zero, suc, ◌+◌, ◌-◌, ◌*◌, ◌/◌, ◌≤◌, ◌<◌, min, max}
pub use Prim.Native.String.{String}
pub use mathlib.Core.Path.{◌≡◌, refl, sym, ap, subst, subst₂, ◌∙◌}
pub use mathlib.Core.Logic.{◌≢◌, ◌↔◌, ◌⊎◌, inl, inr}
pub use mathlib.Core.Bool.{Bool, true, false, not, ◌&&◌, ◌||◌}
pub use mathlib.Core.Option.{Option, none, some}
pub use mathlib.Core.List.{List, [], ◌∷◌, ◌++◌, map}
pub use native.Mathlib.Omega.{arith}

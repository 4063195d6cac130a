-- ===== src/Base.antt =====
-- The names that all modules share: the libraries', passed on, and those of the children, which
-- hold Boolean tests, lists over the native numbers, association maps and machine words.
mod Tests
mod Lists
mod Maps
mod MapLaws
mod Words
mod Texts
mod Results
mod Runs
pub mod Options
pub mod Select
pub use Tests.*
pub use Lists.*
pub use Maps.*
pub use MapLaws.*
pub use Words.*
pub use Texts.*
pub use Results.*
pub use Runs.*
pub use Prim.Native.Nat.{ℕ, zero, suc, ◌+◌, ◌-◌, ◌*◌, ◌/◌, ◌%◌, ◌^◌, ◌≤◌, ◌<◌, min, max}
pub use Prim.Native.String.{String}
pub use mathlib.Core.Path.{◌≡◌, refl, sym, ap, ◌∙◌, subst}
pub use mathlib.Core.Logic.{◌≢◌, ◌↔◌, ◌⊎◌, inl, inr}
pub use mathlib.Core.Bool.{Bool, true, false, not, ◌&&◌, ◌||◌}
pub use mathlib.Core.Option.{Option, none, some}
pub use mathlib.Core.List.{List, [], ◌∷◌, ◌++◌, Mem, map, append_assoc, append-nil}
pub use native.Mathlib.Omega.{arith}

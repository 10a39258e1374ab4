-- ===== src/Common.antt =====
-- Names that every module shares: the libraries', passed on, and the helpers of the children.
pub mod Tests
pub mod Branch
pub mod Lists
pub mod Dict
pub mod Text
pub mod Result
pub mod Regex
pub mod Int
pub mod Json
pub mod Strip
pub mod Lines
pub mod Glob
pub mod Shell
pub use Branch.*
pub use Tests.*
pub use Prim.Native.Nat.{ℕ, zero, suc, ◌+◌, ◌-◌, ◌*◌, ◌/◌, ◌%◌, ◌^◌, ◌≤◌, ◌<◌, min, max}
pub use Prim.Native.String.{String}
pub use mathlib.Core.Path.{◌≡◌, refl, sym, ap, ◌∙◌, subst}
pub use mathlib.Core.Logic.{◌≢◌, ◌↔◌, ◌⊎◌, inl, inr}
pub use mathlib.Core.Bool.{Bool, true, false, not, ◌&&◌, ◌||◌}
pub use mathlib.Core.Option.{Option, none, some}
pub use mathlib.Core.List.{List, [], ◌∷◌, ◌++◌, map}
pub use native.Mathlib.Omega.{arith}

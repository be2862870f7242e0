-- ===== src/Prelude.antt =====
-- The names that the other modules share: the libraries', passed on, and those of four children
-- (Boolean tests, lists over the native numbers, Go strings, Go maps).
mod Tests
pub mod Lists
pub mod Text
pub mod Dict
pub mod Time
pub mod Sort
pub mod Result
pub use Tests.*
pub use Prim.Native.Nat.{ℕ, zero, suc, ◌+◌, ◌-◌, ◌*◌, ◌/◌, ◌%◌, ◌^◌, ◌≤◌, ◌<◌}
pub use Prim.Native.String.{String}
pub use mathlib.Core.Path.{◌≡◌, refl, sym, ap, ◌∙◌}
pub use mathlib.Core.Logic.{◌≢◌, ◌↔◌, ◌⊎◌, inl, inr}
pub use mathlib.Core.Bool.{Bool, true, false, not, ◌&&◌, ◌||◌}
pub use mathlib.Core.Option.{Option, none, some}
pub use mathlib.Core.List.{List, [], ◌∷◌, ◌++◌, map}
pub use native.Mathlib.Omega.{arith}
pub use Lists.{length, All}
pub use Text.{Str, eq_iff, is_empty, str}
unfoldable pub use Text.{◌==◌}

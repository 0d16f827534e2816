-- ===== src/Base.antt =====
-- The names that the other modules share: the libraries', passed on, and those of the children.
mod Tests
mod Lists
mod Int
mod Errors
pub mod Text
pub mod Table
pub mod Keyed
pub mod Trimmed
pub use Tests.*
pub use Lists.*
pub use Int.{ℤ, pos, negsuc, pos_part, neg_part, sub_ℕ, ltb_ℤ, equal_ℤ, max_int64}
pub use Int.{add64_exact, mul64_exact}
unfoldable pub use Int.{add64, mul64}
pub use Errors.*
pub use Prim.Native.Nat.{ℕ, zero, suc, ◌+◌, ◌-◌, ◌*◌, ◌/◌, ◌%◌, ◌≤◌, ◌<◌}
pub use mathlib.Core.Path.{◌≡◌, refl, sym, ap, ◌∙◌}
pub use mathlib.Core.Logic.{◌≢◌, ◌↔◌, ◌⊎◌, inl, inr}
pub use mathlib.Core.Bool.{Bool, true, false, not, ◌&&◌, ◌||◌}
pub use mathlib.Core.Option.{Option, none, some}
pub use mathlib.Core.List.{List, [], ◌∷◌, ◌++◌, map}
pub use native.Mathlib.Omega.{arith}

-- ===== src/Base.antt =====
-- The names that the other modules share: the libraries' names passed on, the Boolean tests on
-- native numbers, equality as an instance, lists, sets, maps and big-endian bytes.
mod Tests
pub mod Equality
mod Lists
mod Text
pub mod Results
pub mod Maps
pub mod Sets
pub mod Sort
pub mod Dedup
pub mod Options
pub mod Ordered
pub mod Reading
pub mod Int
pub use Tests.*
pub use Lists.*
pub use Text.*
unfoldable pub use Text.{be_bytes, le_bytes, le_value}
unfoldable pub use Lists.{take, drop}
pub use Prim.Native.Nat.{ℕ, zero, suc, ◌+◌, ◌-◌, ◌*◌, ◌/◌, ◌%◌, ◌^◌, ◌≤◌, ◌<◌, min, max}
pub use mathlib.Core.Path.{◌≡◌, refl, sym, ap, ◌∙◌, subst}
pub use mathlib.Core.Logic.{◌≢◌, ◌↔◌, ◌⊎◌, inl, inr}
pub use mathlib.Core.Bool.{Bool, true, false, ◌&&◌, ◌||◌, not}
pub use mathlib.Core.Option.{Option, none, some}
pub use mathlib.Core.List.{List, [], ◌∷◌, ◌++◌, map}
pub use native.Mathlib.Omega.{arith}

-- ===== src/Base.antt =====
-- The names that every module of the development shares: the libraries', passed on, Boolean tests
-- on numbers, Go strings as byte sequences with their equality, lists, and decimal printing.
mod Tests
mod Lists
mod Text
mod Decimal
mod Search
mod Order
mod Maps
mod Trim
mod Int
unfoldable pub use Tests.*
unfoldable pub use Lists.*
unfoldable pub use Text.*
unfoldable pub use Decimal.*
unfoldable pub use Search.*
unfoldable pub use Int.*
unfoldable pub use Order.*
unfoldable pub use Maps.*
unfoldable pub use Trim.*
pub use Prim.Native.Nat.{ℕ, zero, suc, ◌+◌, ◌-◌, ◌*◌, ◌/◌, ◌%◌, ◌^◌, ◌≤◌, ◌<◌, min, max}
pub use mathlib.Core.Path.{◌≡◌, refl, sym, ap, ap₂, ◌∙◌, subst, fun_ext}
pub use mathlib.Core.Logic.{◌≢◌, ◌↔◌, ◌⊎◌, inl, inr}
pub use mathlib.Core.Bool.{Bool, true, false, not, ◌&&◌, ◌||◌}
pub use mathlib.Core.Option.{Option, none, some}
pub use mathlib.Core.List.{List, [], ◌∷◌, ◌++◌, map, append_assoc, append-nil}
pub use native.Mathlib.Omega.{arith}

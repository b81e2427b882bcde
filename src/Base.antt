-- ===== src/Base.antt =====
-- What the components share: the library's names, Boolean tests, lists over the native numbers,
-- byte strings, signed integers with Go's 64-bit wrap-around, and the result type.
pub mod Tests
pub mod Lists
pub mod Int
pub mod Text
pub mod Result
pub mod Files
pub mod Path
pub mod Normal
pub mod Clean
pub mod Within
pub mod Beneath
pub mod Child
pub mod Decimal
pub mod Hex
pub mod Printing
pub use Tests.*
pub use Lists.*
pub use Prim.Native.Nat.{ℕ, zero, suc, ◌+◌, ◌-◌, ◌*◌, ◌/◌, ◌%◌, ◌^◌, ◌≤◌, ◌<◌}
pub use mathlib.Core.Path.{◌≡◌, refl, sym, ap, subst, ◌∙◌}
pub use mathlib.Core.Logic.{◌≢◌, ◌↔◌, ◌⊎◌, inl, inr}
pub use mathlib.Core.Bool.{Bool, true, false, not, ◌&&◌, ◌||◌}
pub use mathlib.Core.Option.{Option, none, some}
pub use mathlib.Core.List.{List, [], ◌∷◌, ◌++◌, map}
pub use native.Mathlib.Omega.{arith}

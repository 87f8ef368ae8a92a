-- ===== src/Base.antt =====
-- The names that every module shares: the libraries', passed on, with the Boolean tests, the
-- conditional, the byte strings and the maps with byte-string keys that Go's code works on.
mod Tests
mod Lists
mod Octets
pub mod Map
pub use Tests.*
pub use Lists.*
unfoldable pub use Octets.*
pub use Prim.Native.Nat.{ℕ, zero, suc, ◌+◌, ◌-◌, ◌*◌, ◌/◌, ◌%◌, ◌^◌, ◌≤◌, ◌<◌}
pub use mathlib.Core.Path.{◌≡◌, refl, sym, ap, ◌∙◌}
pub use mathlib.Core.Logic.{◌≢◌, ◌↔◌, ◌⊎◌, inl, inr}
pub use mathlib.Core.Bool.{Bool, true, false, not, ◌&&◌, ◌||◌}
pub use mathlib.Core.Option.{Option, none, some}
pub use mathlib.Core.List.{List, [], ◌∷◌, ◌++◌, map}
pub use native.Mathlib.Omega.{arith}

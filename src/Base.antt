-- ===== src/Base.antt =====
-- Names shared by every module: the libraries' names passed on, Boolean tests on the native
-- numbers, list helpers, and the exceptions that the Python code raises.
mod Tests
mod Lists
mod Raised
pub mod Int
pub mod Bytes
pub mod Text
pub mod Dict
pub mod ByteDict
pub use Tests.*
unfoldable pub use Lists.*
pub use Raised.*
pub use Prim.Native.Nat.{ℕ, zero, suc, ◌+◌, ◌-◌, ◌*◌, ◌/◌, ◌%◌, ◌^◌, ◌≤◌, ◌<◌, min, max}
pub use Prim.Native.String.{String}
pub use mathlib.Core.Path.{◌≡◌, refl, sym, ap, ap₂, ◌∙◌, subst}
pub use mathlib.Core.Logic.{◌≢◌, ◌↔◌, ◌⊎◌, inl, inr}
pub use mathlib.Core.Bool.{Bool, true, false, ◌&&◌, ◌||◌, not}
pub use mathlib.Core.Option.{Option, none, some}
pub use mathlib.Core.List.{List, [], ◌∷◌, ◌++◌, map, foldl}
pub use native.Mathlib.Omega.{arith}

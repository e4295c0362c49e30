-- ===== src/Common.antt =====
-- What the modules share: library names passed on, tests, lists, results, equality and maps.
mod Tests
mod Lists
mod Results
mod Eq
mod Maps
mod Strings
mod Trim
pub mod Bits
pub use Tests.*
pub use Lists.*
pub use Results.*
unfoldable pub use Eq.*
unfoldable pub use Maps.*
unfoldable pub use Strings.*
pub use Trim.*
pub use Prim.Native.Nat.{ℕ, zero, suc, ◌+◌, ◌-◌, ◌*◌, ◌/◌, ◌%◌, ◌^◌, ◌≤◌, ◌<◌, min, max}
pub use Prim.Native.Nat.{bit_and, bit_or, bit_xor}
pub use mathlib.Core.Path.{◌≡◌, refl, sym, ap, ◌∙◌}
pub use mathlib.Core.Logic.{◌≢◌, ◌↔◌, ◌⊎◌, inl, inr}
pub use mathlib.Core.Bool.{Bool, true, false, ◌&&◌, ◌||◌, not}
pub use mathlib.Core.Option.{Option, none, some}
pub use mathlib.Core.List.{List, [], ◌∷◌, ◌++◌, map, append_assoc, append-nil}
pub use native.Mathlib.Omega.{arith}

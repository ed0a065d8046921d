-- ===== src/Base.antt =====
-- The names that the other modules share: those of the libraries, the Boolean tests on numbers,
-- and lists indexed by native numbers.
mod Tests
mod Lists
pub mod Below
pub mod Order
pub mod Int
pub mod Slice
pub use Tests.*
pub use Lists.*
pub use Prim.Native.Nat.{ℕ, zero, suc, ◌+◌, ◌-◌, ◌*◌, ◌/◌, ◌%◌, ◌^◌, ◌≤◌, ◌<◌, min}
pub use mathlib.Core.Path.{subst, ◌≡◌, refl, sym, ap, ◌∙◌, fun_ext}
pub use mathlib.Core.Logic.{◌≢◌, ◌↔◌, ◌⊎◌, inl, inr}
pub use mathlib.Core.Bool.{Bool, true, false, not, ◌&&◌, ◌||◌}
pub use mathlib.Core.Option.{Option, none, some}
pub use mathlib.Core.List.{List, [], ◌∷◌, ◌++◌, append-nil, append_assoc, reverse, reverse-append}
pub use native.Mathlib.Omega.{arith}

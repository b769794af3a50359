-- ===== src/Base.antt =====
-- What the other modules share: the libraries' names, passed on, and those of the children.
mod Tests
mod Int
mod Lists
pub mod Bits
pub mod Bytes
pub mod Map
pub use Tests.{ltb, leb, nat_beq, if◌then◌else◌, Bool-cases, Option-cases, is_some, KeyEq, ◌==◌}
pub use Tests.{nat_eq, nat_beq_iff, ==_refl}
pub use Int.{ℤ, pos, negsuc, int_eq, int_beq_iff}
pub use Lists.{length, length-append, take, drop, head?, All, Distinct, Distinct-snoc}
pub use Lists.{elem-append, elem-snoc, elem-erase_first, elem-erase_first_ne, Distinct-erase_first}
unfoldable pub use Lists.{elem, erase_first}
pub use Prim.Native.Nat.{ℕ, zero, suc, ◌+◌, ◌-◌, ◌*◌, ◌/◌, ◌%◌, ◌^◌, ◌≤◌, ◌<◌}
pub use mathlib.Core.Path.{◌≡◌, refl, sym, ap, ◌∙◌, subst}
pub use mathlib.Core.Logic.{◌≢◌, ◌↔◌, ◌⊎◌, inl, inr}
pub use mathlib.Core.Bool.{Bool, true, false, not, ◌&&◌, ◌||◌}
pub use mathlib.Core.Option.{Option, none, some}
pub use mathlib.Core.List.{List, [], ◌∷◌, ◌++◌, map}
pub use native.Mathlib.Omega.{arith}

-- ===== src/Prelude.antt =====
-- The names that the other modules share: the libraries', passed on, and those of the children.
mod Tests
mod Lists
mod Fallible
pub mod Maps
pub mod Numeral
pub mod Text
pub mod Equality
pub mod Int
pub use Tests.*
pub use Lists.*
pub use Fallible.*
pub use Equality.{
  Eq, ◌==◌, beq_refl, nat_eq, string_eq, option_eq, list_eq, eq_of_beq, ne_of_beq, beq_of_ne,
  and_split, contains, and_join,
}
pub use Int.{ℤ, pos, negsuc, int_eq}
pub use Prim.Native.Nat.{ℕ, zero, suc, ◌+◌, ◌-◌, ◌*◌, ◌/◌, ◌%◌, ◌^◌, ◌≤◌, ◌<◌}
pub use Prim.Native.String.{String}
pub use mathlib.Core.Path.{◌≡◌, refl, sym, ap, ◌∙◌, subst}
pub use mathlib.Core.Logic.{◌≢◌, ◌↔◌, ◌⊎◌, inl, inr}
pub use mathlib.Core.Bool.{Bool, true, false, not, ◌&&◌, ◌||◌}
pub use mathlib.Core.Option.{Option, none, some}
pub use mathlib.Core.List.{List, [], ◌∷◌, ◌++◌, map, append-nil, append_assoc}
pub use native.Mathlib.Omega.{arith}

-- ===== src/Prelude.antt =====
-- The names that the other modules share: the libraries', passed on, and those of the children.
pub mod Tests
pub mod Lists
pub mod Int
pub mod Map
pub mod Decimal
pub mod Text
pub use Prim.Native.Nat.{ℕ, zero, suc, ◌+◌, ◌-◌, ◌*◌, ◌/◌, ◌%◌, ◌^◌, ◌≤◌, ◌<◌}
pub use mathlib.Core.Path.{◌≡◌, refl, sym, ap, ◌∙◌, subst}
pub use mathlib.Core.Logic.{◌≢◌, ◌↔◌, ◌⊎◌, inl, inr}
pub use mathlib.Core.Bool.{Bool, true, false, not, ◌&&◌, ◌||◌}
pub use mathlib.Core.Option.{Option, none, some}
pub use mathlib.Core.List.{List, [], ◌∷◌, ◌++◌, map}
pub use native.Mathlib.Omega.{arith}
pub use Tests.*
pub use Lists.*
pub use Text.*
pub use Int.{ℤ, pos, negsuc, to_int_small}
unfoldable pub use Int.{
  ltb_ℤ, eqb_ℤ, minus_one, max_int, max_uint, to_int, neg_int, ◌-ℤ◌, sub_ℕ, pos_part, neg_part,
}

-- A Go string or byte slice.
abbrev pub Bytes : Type 0
Bytes = List ℕ

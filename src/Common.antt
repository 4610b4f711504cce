-- ===== src/Common.antt =====
-- The names that the other modules share: the libraries', passed on, and those of the children.
mod Tests
mod Lists
mod Equality
mod Results
mod Maps
mod Text
mod Decimal
mod Wrapping
mod Histories
mod Members
pub use Tests.{
  ltb, leb, if◌then◌else◌, ==_iff, &&_iff, if_both, put, put_cases, put-put, pair_path, Bool-cases,
  Option-cases,
}
pub use Lists.*
pub use Histories.*
pub use Members.*
pub use Equality.{
  Comparable, same_iff, ◌==◌, nat_eq, ℤ, pos, negsuc, int_eq, text_eq, list_beq_iff, eq_true,
  eq_false,
}
pub use Results.*
pub use Maps.*
pub use Text.*
pub use Wrapping.{Errors}
unfoldable pub use Wrapping.{prefixing}
pub use Decimal.{
  max_int, is_digit, value_from, format_int-every, format_int-occupied, atoi-format_int,
}
unfoldable pub use Decimal.{format_int, atoi}
pub use Prim.Native.Nat.{ℕ, zero, suc, ◌+◌, ◌-◌, ◌*◌, ◌/◌, ◌%◌, ◌^◌, ◌≤◌, ◌<◌}
pub use mathlib.Core.Path.{◌≡◌, refl, sym, ap, ◌∙◌, subst}
pub use mathlib.Core.Logic.{◌≢◌, ◌↔◌, ◌⊎◌, inl, inr}
pub use mathlib.Core.Bool.{Bool, true, false, ◌&&◌, ◌||◌, not}
pub use mathlib.Core.Option.{Option, none, some}
pub use mathlib.Core.List.{List, [], ◌∷◌, ◌++◌, map, append_assoc, append-nil}
pub use native.Mathlib.Omega.{arith}

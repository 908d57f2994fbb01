-- ===== src/Base.antt =====
-- The names that the other modules share: those of the libraries, passed on, and the children's.
mod Tests
mod Lists
mod Text
mod Splitting
pub mod Map
pub use Tests.*
pub use Lists.*
pub use Splitting.*
pub use Text.{
  Str, str_beq_iff, str_beq_refl, codes, is_empty, Eq, ◌==◌, nat_eq, str_eq, nat_beq, join,
}
pub use Text.Visible.{
  trim_space-visible, to_lower-fixed, trim_space-between, trim_space-before, trim_space-after,
}
unfoldable pub use Text.Visible.{is_visible, is_not_upper}
unfoldable pub use Text.{
  str_beq, has_prefix, trim_prefix, contains_text, trim_space, to_lower, split, trim_right_byte,
  trim_byte,
}
pub use Prim.Native.Nat.{ℕ, zero, suc, ◌+◌, ◌-◌, ◌*◌, ◌/◌, ◌%◌, ◌^◌, ◌≤◌, ◌<◌}
pub use Prim.Native.String.{String}
pub use mathlib.Core.Path.{◌≡◌, refl, sym, ap, subst, ◌∙◌}
pub use mathlib.Core.Logic.{◌≢◌, ◌↔◌, ◌⊎◌, inl, inr}
pub use mathlib.Core.Bool.{Bool, true, false, not, ◌&&◌, ◌||◌}
pub use mathlib.Core.Option.{Option, none, some}
pub use mathlib.Core.List.{List, [], ◌∷◌, ◌++◌, map, reverse}
pub use native.Mathlib.Omega.{arith}

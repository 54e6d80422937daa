-- ===== src/Base.antt =====
-- The names that the other modules share: library names passed on, Boolean tests on the native
-- numbers, decimal numerals and sequences over the native numbers.
mod Tests
mod Text
mod Lists
pub use Tests.*
pub use Text.{◌<>◌, is_empty, or_text, CharTable}
unfoldable pub use Text.{
  decimal, is_blank, strip, isdigit, split, partition, split_lines, first_word, rstrip_char,
  splitlines, join,
}
pub use Lists.*
pub use Prim.Native.Nat.{ℕ, zero, suc, ◌+◌, ◌-◌, ◌*◌, ◌/◌, ◌%◌, ◌^◌, ◌≤◌, ◌<◌, min, max}
pub use Prim.Native.String.{String}
pub use mathlib.Core.Path.{◌≡◌, refl, sym, ap, ◌∙◌}
pub use mathlib.Core.Logic.{◌≢◌, ◌↔◌, ◌⊎◌, inl, inr}
pub use mathlib.Core.Bool.{Bool, true, false, ◌&&◌, ◌||◌, not}
pub use mathlib.Core.Option.{Option, none, some}
pub use mathlib.Core.List.{List, [], ◌∷◌, ◌++◌, map, reverse}
pub use native.Mathlib.Omega.{arith}
pub use text.Mathlib.Text.{◌==◌ as str_eq}
pub use text.Mathlib.TextEquality.{eq_iff}

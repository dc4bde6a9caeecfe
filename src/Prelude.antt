-- ===== src/Prelude.antt =====
-- The names that the other modules share: those of the libraries, passed on, and those of the
-- children.
mod Tests
mod Lists
mod Text
mod Paths
mod Int
pub mod Dict
pub use Tests.*
pub use Lists.*
pub use Int.{ℤ, pos, negsuc, int32, signed32, signed32-int32}
pub use Text.{◌<>◌, mem}
unfoldable pub use Paths.{
  clean, dir_of, join_path, is_slash, is_rooted, put_part, put_parts, is_skipped,
}
unfoldable pub use Text.{
  contains_char, has_prefix, contains, split_on, join, trim_suffix, insert_sorted, sort_strings,
}
pub use Prim.Native.Nat.{ℕ, zero, suc, ◌+◌, ◌-◌, ◌%◌, ◌≤◌, ◌<◌}
pub use Prim.Native.String.{String}
pub use mathlib.Core.Path.{◌≡◌, refl, sym, ap, ◌∙◌}
pub use mathlib.Core.Logic.{◌≢◌, ◌↔◌, ◌⊎◌, inl, inr}
pub use mathlib.Core.Bool.{Bool, true, false, ◌&&◌, ◌||◌, not}
pub use mathlib.Core.Option.{Option, none, some}
pub use mathlib.Core.List.{List, [], ◌∷◌, ◌++◌, append-nil, append_assoc}
pub use native.Mathlib.Omega.{arith}
pub use text.Mathlib.Text.{◌==◌}
pub use text.Mathlib.TextEquality.{eq_iff}
pub use text.Mathlib.TextPositions.{eq_refl}

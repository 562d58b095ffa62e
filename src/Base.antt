-- ===== src/Base.antt =====
-- The names that the other modules share: the libraries', passed on, and those of the children.
mod Tests
mod Lists
mod Text
mod Parts
mod Paths
mod Sort
mod Maps
mod Results
pub use Tests.*
pub use Prim.Native.Nat.{ℕ, zero, suc, ◌+◌, ◌-◌, ◌*◌, ◌≤◌, ◌<◌}
pub use mathlib.Core.Path.{◌≡◌, refl, sym, ap, ap₂, subst, ◌∙◌}
pub use mathlib.Core.Logic.{◌≢◌, ◌↔◌, ◌⊎◌, inl, inr}
pub use mathlib.Core.Bool.{Bool, true, false, not, ◌&&◌, ◌||◌}
pub use mathlib.Core.Option.{Option, none, some}
pub use mathlib.Core.List.{List, [], ◌∷◌, ◌++◌, map}
pub use native.Mathlib.Omega.{arith}
unfoldable pub use Lists.{all, take_while, drop_while}
unfoldable pub use Maps.{lookup, insert, remove, keep}
unfoldable pub use Sort.{str_leb, insert_by, sort_by}
unfoldable pub use Parts.{
  split_byte, join, trim_suffix, trim_prefix, trim_right, is_white, trim_space,
}
unfoldable pub use Text.{
  str_eq, to_lower, ascii_lower, cut_byte, contains_byte, contains_any, has_prefix,
}
pub use Lists.*
pub use Text.*
pub use Parts.*
pub use Paths.{is_abs}
unfoldable pub use Paths.{clean}
pub use Sort.*
pub use Maps.*
pub use Results.*

-- ===== src/Base.antt =====
-- Names that every other module shares: the libraries' and those of the children below, which
-- hold tests, lists, stable sorting and the functions of Go's `strings` and `path/filepath`.
mod Tests
mod Lists
mod Sort
mod Text
mod Path
pub use Tests.*
pub use Lists.*
unfoldable pub use Sort.{insert_stable, sort_stable, insert_text, sort_texts}
pub use Sort.{Sorted, Sorted-sort_stable, sort_stable-perm, AllLe}
unfoldable pub use Text.{
  has_prefix, strip_prefix, contains_text, replace_all, has_suffix, trim_suffix, base_name, ext,
  dir_name, split_text, join_texts,
}
unfoldable pub use Path.{
  clean_path, join_path, clean_parts, up_one, rel_path, rel_parts, go_up, parts_of, text_of,
}
pub use Prim.Native.Nat.{ℕ, zero, suc, ◌+◌, ◌-◌, ◌*◌, ◌/◌, ◌%◌, ◌^◌, ◌≤◌, ◌<◌, compare, Ordering}
pub use Prim.Native.String.{String}
pub use mathlib.Core.Path.{◌≡◌, refl, sym, ap, ◌∙◌, subst, fun_ext}
pub use mathlib.Core.Logic.{◌≢◌, ◌↔◌, ◌⊎◌, inl, inr}
pub use mathlib.Core.Bool.{Bool, true, false, not, ◌&&◌, ◌||◌}
pub use mathlib.Core.Option.{Option, none, some}
pub use mathlib.Core.List.{List, [], ◌∷◌, ◌++◌, map, reverse, append-nil, append_assoc}
pub use native.Mathlib.Omega.{arith}
pub use text.Mathlib.Text.{◌==◌}
pub use text.Mathlib.TextEquality.{eq_iff}
pub use text.Mathlib.TextPositions.{eq_refl}

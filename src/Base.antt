-- ===== src/Base.antt =====
-- The names that the other modules share: the libraries', passed on, and those of the children.
mod Tests
mod Text
mod Int64
mod GoMap
mod Lists
mod Sorting
mod Keyed
pub mod Pointers
pub mod Strconv
pub use Tests.*
pub use Text.{
  GoString, codes, is_empty, ==_iff, ==_refl, str_lt_irrefl, str_lt_trans, str_lt_tri, str_lt_asym,
  str_lt_cotrans,
}
unfoldable pub use Text.{◌==◌, str_lt}
pub use Int64.*
pub use GoMap.{
  Map, values, get_or, lookup-insert, lookup-delete, lookup-insert_self, lookup-insert_ne,
  lookup-delete_self, map_laws,
}
pub use Lists.{
  take-nil, take-zero, take-suc, drop-nil, drop-zero, drop-suc, length, All, length-append,
  length-filter-le,
}
unfoldable pub use Lists.{take, drop, filter, insert_sorted, sort_slice}
pub use Sorting.{
  In, In-Permᴰ, In-filter_of, of_In-filter, filter-Permᴰ, sort_slice-Permᴰ, IsOrder, Separated,
  sort_slice-eq_of_Permᴰ, IsSorted, sort_slice-IsSorted,
}
pub use Keyed.{
  Unique, OwnKeys, insert-Unique, insert-OwnKeys, In-values_of_lookup, key_of_lookup,
  lookup_of_In-values,
}
unfoldable pub use GoMap.{lookup, insert, delete}
pub use Prim.Native.Nat.{ℕ, zero, suc, ◌+◌, ◌-◌, ◌*◌, ◌/◌, ◌%◌, ◌^◌, ◌≤◌, ◌<◌}
pub use mathlib.Core.Path.{◌≡◌, refl, sym, ap, ◌∙◌, subst}
pub use mathlib.Core.Logic.{◌≢◌, ◌↔◌, ◌⊎◌, inl, inr}
pub use mathlib.Core.Bool.{Bool, true, false, not, ◌&&◌, ◌||◌}
pub use mathlib.Core.Option.{Option, none, some}
pub use mathlib.Core.List.{List, [], ◌∷◌, ◌++◌, map, Permᴰ}
pub use native.Mathlib.Omega.{arith}

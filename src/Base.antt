-- ===== src/Base.antt =====
-- The names that the other modules share: the libraries', passed on, and those of the children.
mod Tests
mod Lists
mod Texts
mod Split
mod Dict
mod Int
pub use Tests.*
pub use Lists.*
unfoldable pub use Texts.{
  bytes, ◌==◌, has_prefix, has_suffix, trim_prefix, trim_suffix, contains, to_upper, trim_space,
}
pub use Texts.{
  Str, eq_iff, eq_refl, eq_false, has_prefix-append, has_prefix_elim, trim_prefix-append,
  to_upper_idem,
}
unfoldable pub use Split.{split, join}
pub use Split.{IsFree, split-IsFree, split-ne-nil, join-split, split-join}
unfoldable pub use Dict.{lookup, insert, delete}
pub use Dict.{Map, lookup-insert, lookup-delete, map_laws, Has, keys, mem, lookup_missing}
pub use Int.*
pub use Prim.Native.Nat.{ℕ, zero, suc, ◌+◌, ◌-◌, ◌*◌, ◌/◌, ◌%◌, ◌^◌, ◌≤◌, ◌<◌, min}
pub use Prim.Native.String.{String}
pub use mathlib.Core.Path.{◌≡◌, refl, sym, ap, ◌∙◌, ◌≡⟨◌⟩◌, ◌∎}
pub use mathlib.Core.Logic.{◌≢◌, ◌↔◌, ◌⊎◌, inl, inr}
pub use mathlib.Core.Bool.{Bool, true, false, not, ◌&&◌, ◌||◌}
pub use mathlib.Core.Option.{Option, none, some}
pub use mathlib.Core.List.{List, [], ◌∷◌, ◌++◌, map, reverse}
pub use native.Mathlib.Omega.{arith}

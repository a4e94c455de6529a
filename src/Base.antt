-- ===== src/Base.antt =====
-- The names that every module shares: the libraries', passed on, and those of the children.
mod Compare
mod Lists
mod Maps
mod Members
mod Text
mod Picks
mod Results
pub mod Int
pub mod Sorting
pub use Compare.*
pub use Lists.*
pub use Picks.*
pub use Members.*
pub use Text.{Str, bytes, str_lt_irrefl, str_lt_total, str_lt_asymm, str_lt_chain}
unfoldable pub use Text.{Str_discrete, str_lt, str_contains, has_prefix}
pub use Results.*
pub use Maps.{
  Dict, keys, lookup-insert, lookup-delete, lookup_iff, keys-insert_fresh, keys-insert_old,
}
unfoldable pub use Maps.{lookup, insert, delete}
pub use Prim.Native.Nat.{ℕ, zero, suc, ◌+◌, ◌-◌, ◌*◌, ◌≤◌, ◌<◌}
pub use mathlib.Core.Path.{◌≡◌, refl, sym, ap, ◌∙◌, subst}
pub use mathlib.Core.Logic.{◌≢◌, ◌↔◌, ◌⊎◌, inl, inr, ite}
pub use mathlib.Core.Bool.{Bool, true, false, not, ◌&&◌, ◌||◌}
pub use mathlib.Core.Option.{Option, none, some}
pub use mathlib.Core.List.{List, [], ◌∷◌, ◌++◌, map, Mem, Memᴰ, Nodup, Perm, Pairwise}
pub use native.Mathlib.Omega.{arith}
unfoldable pub use native.Mathlib.Decide.{dec_lt, ℕ_discrete}

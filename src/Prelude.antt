-- ===== src/Prelude.antt =====
-- The names that the other modules share: the libraries', passed on, and those of the children.
mod Tests
mod Lists
mod Keys
mod Results
pub mod Words
pub mod Int
pub mod Dict
pub mod Entries
pub mod Set
pub use Tests.{ltb, leb, if◌then◌else◌}
pub use Tests.{Option-cases}
unfoldable pub use Tests.{Bool-cases}
pub use Lists.{length, get_elem?, length-append, is_empty, is_some, is_some_and, is_none_or}
pub use Lists.{unwrap_or, length-filter, take, drop, chunks}
unfoldable pub use Lists.{any, all, filter, chunks_from}
pub use Results.*
unfoldable pub use Results.{for_each, try_fold}
pub use Keys.{Key, ◌==◌, nat_key, text_key, pair_key, list_key, ==_refl}
unfoldable pub use Keys.{String-discrete, pair-discrete, list-discrete, text_less}
pub use Prim.Native.Nat.{ℕ, zero, suc, ◌+◌, ◌-◌, ◌*◌, ◌/◌, ◌%◌, ◌^◌, ◌≤◌, ◌<◌, min, max}
pub use Prim.Native.String.{String}
pub use mathlib.Core.Path.{◌≡◌, refl, sym, ap, ◌∙◌, subst}
pub use mathlib.Core.Logic.{◌≢◌, ◌↔◌, ◌⊎◌, inl, inr}
pub use mathlib.Core.Bool.{Bool, true, false, not, ◌&&◌, ◌||◌}
pub use mathlib.Core.Option.{Option, none, some}
pub use mathlib.Core.List.{List, [], ◌∷◌, ◌++◌, map, reverse}
pub use native.Mathlib.Omega.{arith}
unfoldable pub use native.Mathlib.Decide.{ℕ_discrete}

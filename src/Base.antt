-- ===== src/Base.antt =====
-- Names that every component shares: the libraries', passed on, and those of the children below.
mod Tests
mod Lists
mod Maps
mod Removal
mod Results
mod Counts
mod Entries
pub use Tests.*
unfoldable pub use Lists.*
unfoldable pub use Maps.*
unfoldable pub use Removal.*
unfoldable pub use Results.*
pub use Counts.*
pub use Entries.*
pub use Prim.Native.Nat.{ℕ, zero, suc, ◌+◌, ◌-◌, ◌*◌, ◌^◌, ◌≤◌, ◌<◌}
pub use Prim.Native.String.{String}
pub use mathlib.Core.Path.{◌≡◌, refl, sym, ap, subst, ◌∙◌}
pub use mathlib.Core.Logic.{◌≢◌, ◌↔◌, ◌⊎◌, inl, inr}
pub use mathlib.Core.Bool.{Bool, true, false, not, ◌&&◌, ◌||◌}
pub use mathlib.Core.Option.{Option, none, some}
pub use mathlib.Core.List.{List, [], ◌∷◌, ◌++◌, map}
pub use native.Mathlib.Omega.{arith}

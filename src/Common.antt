-- ===== src/Common.antt =====
-- What the modules share: names of the libraries passed on, the tests on numbers, the lists
-- measured by native numbers, and the results of code that can fail.
mod Tests
mod Lists
mod Words
mod Results
mod Maps
mod Text
pub use Tests.*
pub use Lists.*
pub use Words.*
pub use Results.*
pub use Maps.*
pub use Text.*
pub use Prim.Native.Nat.{ℕ, zero, suc, ◌+◌, ◌-◌, ◌*◌, ◌/◌, ◌%◌, ◌^◌, ◌≤◌, ◌<◌, min, max}
pub use mathlib.Core.Path.{◌≡◌, refl, sym, ap, ap₂, subst, ◌∙◌}
pub use mathlib.Core.Logic.{◌≢◌, ◌↔◌, ◌⊎◌, inl, inr}
pub use mathlib.Core.Bool.{Bool, true, false, not, ◌&&◌, ◌||◌}
pub use mathlib.Core.Option.{Option, none, some}
pub use mathlib.Core.List.{List, [], ◌∷◌, ◌++◌, map, append-nil, append_assoc}
pub use native.Mathlib.Omega.{arith}

-- ===== src/Base.antt =====
-- Names that the components share: the libraries', passed on, and the helpers of the children.
mod Tests
mod Lists
mod Strings
mod Results
pub mod Actions
pub mod Dicts
pub use Tests.*
pub use Lists.{
  length, get_elem?, set, drop_last, length-append, length-set, length-drop_last, length-perm,
  get_elem?-get_or, get_elem?-set, get_elem?-append, get_elem?-append_last, get_elem?-append_cases,
  get_or-set, get_or-append, get_or-append_last, get_or-drop_last, set-perm, last-perm,
}
unfoldable pub use Lists.{get_or}
pub use Strings.{
  Text, units, text_eq_refl, text_eq→eq, text_eq_iff, decimal-injective, append-cancel,
}
unfoldable pub use Strings.{text_eq, decimal}
pub use Results.{
  Result, ok, throw, type_error, bind, ◌>>=◌, ◌>>◌, fail_if, or_fail, Result-cases, bind-eq-ok,
  bind-elim, fail_if-eq-ok,
}
pub use Actions.{Action, and_then}
pub use Prim.Native.Nat.{ℕ, zero, suc, ◌+◌, ◌-◌, ◌*◌, ◌/◌, ◌%◌, ◌^◌, ◌≤◌, ◌<◌}
pub use mathlib.Core.Path.{◌≡◌, refl, sym, ap, ◌∙◌}
pub use mathlib.Core.Logic.{◌≢◌, ◌↔◌, ◌⊎◌, inl, inr}
pub use mathlib.Core.Bool.{Bool, true, false, not, ◌&&◌, ◌||◌}
pub use mathlib.Core.Option.{Option, none, some}
pub use mathlib.Core.List.{List, [], ◌∷◌, ◌++◌, map, Perm}
pub use native.Mathlib.Omega.{arith}

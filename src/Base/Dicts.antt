-- ===== src/Base/Dicts.antt =====
-- A Map of the source with texts as keys, as a list in the order of insertion.
use mathlib.Core.Path.{◌≡◌, refl}
use mathlib.Core.Bool.{Bool, true, false}
use mathlib.Core.Option.{Option, none, some}
use mathlib.Core.List.{List, [], ◌∷◌}
use native.Mathlib.Omega.{arith}
use distlab.Base.Tests.{if◌then◌else◌}
use distlab.Base.Strings.{Text, text_eq, text_eq_iff}

abbrev pub is_some {ℓ} : {A : Type ℓ} → Option A → Bool
is_some none = false
is_some (some _) = true

abbrev pub Dict : Type 0 → Type 0
Dict V = List (Text × V)

module _ {V : Type 0} where
  -- `map.get(key)`
  unfoldable pub find : Text → Dict V → Option V
  find key [] = none
  find key ((k, v) ∷ d) = if text_eq k key then some v else find key d

  -- `map.set(key, value)`: an old key keeps its place.
  unfoldable pub enter : Text → V → Dict V → Dict V
  enter key value [] = (key, value) ∷ []
  enter key value ((k, v) ∷ d) =
      let later = (k, v) ∷ enter key value d in if text_eq k key then (k, value) ∷ d else later

  -- `map.delete(key)`
  unfoldable pub leave : Text → Dict V → Dict V
  leave key [] = []
  leave key ((k, v) ∷ d) =
      let later = leave key d in if text_eq k key then later else (k, v) ∷ later

  pub find-enter :
      (key other : Text) (value : V) (d : Dict V)
      → find other (enter key value d) ≡ (if text_eq key other then some value else find other d)
  unfolding find enter
  find-enter key other value [] = refl
  find-enter key other value ((k, v) ∷ d) = ground (
    arith,
    text_eq_iff key other,
    text_eq_iff k key,
    text_eq_iff k other,
    find-enter key other value d,
  )

  pub find-leave :
      (key other : Text) (d : Dict V)
      → find other (leave key d) ≡ (if text_eq key other then none else find other d)
  unfolding find leave
  find-leave key other [] = ground arith
  find-leave key other ((k, v) ∷ d) =
      ground (
        arith,
        text_eq_iff key other,
        text_eq_iff k key,
        text_eq_iff k other,
        find-leave key other d,
      )

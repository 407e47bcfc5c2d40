-- ===== src/Base/Results.antt =====
-- What a call that may throw returns, and calls that also change a state. The state outlives an
-- exception, as in the source: a throw undoes nothing.
use mathlib.Core.Path.{◌≡◌, refl}
use mathlib.Core.Logic.{◌⊎◌, inl, inr}
use mathlib.Core.Bool.{Bool, true, false}
use distlab.Contracts.Errors.{ErrorCode}

-- `throw` carries the code of `throwSimulationError`; `type_error` is the host's TypeError, which
-- a read through `undefined` raises.
pub data Result {ℓ} (A : Type ℓ) : Type ℓ where
  ok : A → Result A
  throw : ErrorCode → Result A
  type_error : Result A

abbrev pub bind {ℓ κ} : {A : Type ℓ} {B : Type κ} → Result A → (A → Result B) → Result B
bind (ok a) f = f a
bind (throw e) f = throw e
bind type_error f = type_error

infixl 5 ◌>>=◌ ◌>>◌
abbrev pub ◌>>=◌ {ℓ κ} : {A : Type ℓ} {B : Type κ} → Result A → (A → Result B) → Result B
m >>= f = bind m f

abbrev pub ◌>>◌ {ℓ} : {B : Type ℓ} → Result (Unit {0}) → Result B → Result B
m >> k = bind m λ _. k

-- `if (bad) fail(e)`
abbrev pub fail_if : Bool → ErrorCode → Result (Unit {0})
fail_if true e = throw e
fail_if false e = ok tt

-- `try { m } catch { fail(e) }`
abbrev pub or_fail {ℓ} : {A : Type ℓ} → Result A → ErrorCode → Result A
or_fail (ok a) e = ok a
or_fail _ e = throw e

pub Result-cases {ℓ} :
    {A : Type ℓ} (r : Result A)
    → ((a : A) × (r ≡ ok a)) ⊎ (((e : ErrorCode) × (r ≡ throw e)) ⊎ (r ≡ type_error))
Result-cases (ok a) = inl (a, refl)
Result-cases (throw e) = inr (inl (e, refl))
Result-cases type_error = inr (inr refl)

-- A chain that succeeds has each step succeed.
pub bind-eq-ok {ℓ κ} :
    {A : Type ℓ} {B : Type κ} (step : Result A) (rest : A → Result B) {result : B}
    → bind step rest ≡ ok result
    → (a : A) × (step ≡ ok a) × (rest a ≡ ok result)
bind-eq-ok type_error rest h = cc
bind-eq-ok (throw e) rest h = cc
bind-eq-ok (ok a) rest h = (a, refl, h)

-- The same, with the rest of the proof as an argument.
pub bind-elim {ℓ κ μ} :
    {A : Type ℓ} {B : Type κ} {C : Type μ} (step : Result A) (rest : A → Result B) {result : B}
    → bind step rest ≡ ok result
    → ((a : A) → step ≡ ok a → rest a ≡ ok result → C)
    → C
bind-elim (ok a) rest h k = k a refl h
bind-elim (throw e) rest h k = absurd (cc)
bind-elim type_error rest h k = absurd (cc)

pub fail_if-eq-ok : (b : Bool) (e : ErrorCode) {u : Unit {0}} → fail_if b e ≡ ok u → b ≡ false
fail_if-eq-ok false e h = refl
fail_if-eq-ok true e h = cc

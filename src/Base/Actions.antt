-- ===== src/Base/Actions.antt =====
-- Calls that may throw and that change the state of an object. The state outlives an exception, as in
-- the source: a throw undoes nothing.
use mathlib.Core.Path.{◌≡◌, refl, subst}
use distlab.Base.Results.{Result, ok, throw, type_error}
use distlab.Contracts.Errors.{ErrorCode}

abbrev pub Action : Type 0 → Type 0 → Type 0
Action S A = S → Result A × S

-- After a result: go on, or pass the exception on.
abbrev pub and_then : {S A B : Type 0} → Result A → (A → Action S B) → Action S B
and_then (ok a) f s = f a s
and_then (throw e) f s = (throw e, s)
and_then type_error f s = (type_error, s)

infixl 5 ◌>>=◌ ◌>>◌
abbrev pub ◌>>=◌ : {S A B : Type 0} → Action S A → (A → Action S B) → Action S B
◌>>=◌ m f s = and_then (m s).0 f (m s).1

abbrev pub ◌>>◌ : {S B : Type 0} → Action S (Unit {0}) → Action S B → Action S B
m >> k = m >>= λ _. k

abbrev pub pure : {S A : Type 0} → A → Action S A
pure a s = (ok a, s)

abbrev pub get : {S : Type 0} → Action S S
get s = (ok s, s)

abbrev pub put : {S : Type 0} → S → Action S (Unit {0})
put s' s = (ok tt, s')

-- A computation that leaves the state alone.
abbrev pub lift : {S A : Type 0} → Result A → Action S A
lift r s = (r, s)

abbrev pub raise : {S A : Type 0} → ErrorCode → Action S A
raise e s = (throw e, s)

-- A last step that leaves the state alone.
pub and_then-state {κ} :
    {S A B : Type 0} (P : S → Type κ) (r : Result A × S) (f : A → B)
    → P r.1
    → P (and_then r.0 (λ a s. (ok (f a), s)) r.1).1
and_then-state P (ok a, s) f p = p
and_then-state P (throw e, s) f p = p
and_then-state P (type_error, s) f p = p

-- A chain that succeeds has its first step succeed, and goes on from what that leaves.
pub chain-eq-ok :
    {S A B : Type 0} (m : Action S A) (f : A → Action S B) (s : S) {b : B} {t : S}
    → (m >>= f) s ≡ (ok b, t)
    → (a : A) × (u : S) × (m s ≡ (ok a, u)) × (f a u ≡ (ok b, t))
chain-eq-ok {S} {A} m f s {b} {t} h = answered (m s) refl h
  where
    answered :
        (r : Result A × S)
        → m s ≡ r
        → and_then r.0 f r.1 ≡ (ok b, t)
        → (a : A) × (u : S) × (m s ≡ (ok a, u)) × (f a u ≡ (ok b, t))
    answered (ok a, u) e k = (a, u, e, k)
    answered (throw x, u) e k = cc
    answered (type_error, u) e k = cc

pub lift-eq-ok :
    {S A : Type 0} (r : Result A) (s : S) {a : A} {t : S}
    → lift r s ≡ (ok a, t)
    → (r ≡ ok a) × (s ≡ t)
lift-eq-ok r s h = (cc, cc)

-- The same for a step that leaves the state alone, with the rest of the proof as an argument.
pub lift-elim {κ} :
    {S A B : Type 0} {C : Type κ} (r : Result A) (f : A → Action S B) (s : S) {b : B} {t : S}
    → (lift r >>= f) s ≡ (ok b, t)
    → ((a : A) → r ≡ ok a → f a s ≡ (ok b, t) → C)
    → C
lift-elim (ok a) f s h k = k a refl h
lift-elim (throw e) f s h k = absurd (cc)
lift-elim type_error f s h k = absurd (cc)

pub chain-elim {κ} :
    {S A B : Type 0} {C : Type κ} (m : Action S A) (f : A → Action S B) (s : S) {b : B} {t : S}
    → (m >>= f) s ≡ (ok b, t)
    → ((a : A) (u : S) → m s ≡ (ok a, u) → f a u ≡ (ok b, t) → C)
    → C
chain-elim m f s h k = let (a, u, e, h') = chain-eq-ok m f s h in k a u e h'

-- A predicate that both steps keep, however they end, is kept by the chain.
pub chain-keeps {κ} :
    {S A B : Type 0} (P : S → Type κ) (m : Action S A) (f : A → Action S B) (s : S)
    → P (m s).1
    → ((a : A) (t : S) → P t → P (f a t).1)
    → P ((m >>= f) s).1
chain-keeps {S} {A} P m f s first rest = answered (m s).0 (m s).1 first
  where
    answered : (r : Result A) (t : S) → P t → P (and_then r f t).1
    answered (ok a) t p = rest a t p
    answered (throw e) t p = p
    answered type_error t p = p

-- The same, where what follows may read what the first step returned.
pub chain-keeps_eq {κ} :
    {S A B : Type 0} (P : S → Type κ) (m : Action S A) (f : A → Action S B) (s : S)
    → P (m s).1
    → ((a : A) (t : S) → m s ≡ (ok a, t) → P t → P (f a t).1)
    → P ((m >>= f) s).1
chain-keeps_eq {S} {A} P m f s first rest = answered (m s).0 (m s).1 refl first
  where
    answered : (r : Result A) (t : S) → m s ≡ (r, t) → P t → P (and_then r f t).1
    answered (ok a) t e p = rest a t e p
    answered (throw x) t e p = p
    answered type_error t e p = p

-- A chain whose first step succeeds goes on from what that leaves.
pub chain-run {κ} :
    {S A B : Type 0} (Post : Result B × S → Type κ) (m : Action S A) (f : A → Action S B) (s : S)
    (a : A)
    → (m s).0 ≡ ok a
    → Post (f a (m s).1)
    → Post ((m >>= f) s)
chain-run {S} {A} {B} Post m f s a e p = answered (m s).0 (m s).1 e p
  where
    answered : (r : Result A) (t : S) → r ≡ ok a → Post (f a t) → Post (and_then r f t)
    answered (ok b) t e p = subst (λ (x : A). Post (f x t)) (let q : a ≡ b = cc in q) p
    answered (throw x) t e p = absurd (cc)
    answered type_error t e p = absurd (cc)

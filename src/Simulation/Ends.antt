-- ===== src/Simulation/Ends.antt =====
-- packages/kernel/src/simulation.ts: how a call ends, and what a try block makes of it.
use distlab.Base.{◌≡◌, refl, ap, ◌∙◌, Option, none, some, Result, ok, throw, type_error}
use distlab.Base.Actions.{and_then, ◌>>=◌, ◌>>◌, pure, lift}
use distlab.Contracts.Errors.{ErrorCode}
use distlab.Simulation.{Simulation, Failure, Call, Thrown, throw_of, caught, rethrow, refuse_failed}

module _ {W : Type 0} where
  -- A call that succeeds, or throws the failure that it leaves standing.
  pub data Ends {A : Type 0} (x : Result A × Simulation W) : Type 0 where
    succeeds : (a : A) → x.0 ≡ ok a → Ends x
    dies : (f : Failure) → x.0 ≡ throw f.code → x.1.failure ≡ some f → Ends x

  -- A failure that stands is kept.
  pub record Keeps (s t : Simulation W) : Type 0 where
    pub failure : (f : Failure) → s.failure ≡ some f → t.failure ≡ some f

  pub record Has (g : Failure) (t : Simulation W) : Type 0 where
    pub failure : t.failure ≡ some g

  pub rethrow-Dies :
      {A : Type 0} (s : Simulation W) (f : Failure)
      → s.failure ≡ some f
      → rethrow {A = A} s ≡ (throw f.code, s)
  unfolding rethrow
  rethrow-Dies s f e =
      ap (λ (o : Option Failure). elim o [ none ↦ (type_error, s) | some g ↦ (throw g.code, s) ]) e

  pub refuse_failed-Dies :
      (s : Simulation W) (f : Failure) → s.failure ≡ some f → refuse_failed s ≡ (throw f.code, s)
  unfolding refuse_failed
  refuse_failed-Dies s f e =
      ap (λ (o : Option Failure). elim o [ none ↦ (ok tt, s) | some g ↦ (throw g.code, s) ]) e

  pub caught-cases :
      {A B : Type 0} (Post : Result B × Simulation W → Type 0) (m : Call W A) (f : A → Call W B)
      (g : Thrown → Call W B) (s : Simulation W)
      → ((a : A) (t : Simulation W) → m s ≡ (ok a, t) → Post (f a t))
      → ((error : Thrown) (t : Simulation W) → m s ≡ (throw_of error, t) → Post (g error t))
      → Post (caught m f g s)
  caught-cases {A} {B} Post m f g s good bad = ended (m s) refl
    where
      ended :
          (r : Result A × Simulation W)
          → m s ≡ r
          → Post (elim r.0 [ ok a ↦ f a r.1 | throw e ↦ g (some e) r.1 | type_error ↦ g none r.1 ])
      ended (ok a, t) e = good a t e
      ended (throw c, t) e = bad (some c) t e
      ended (type_error, t) e = bad none t e

  -- A call that returns and leaves a given failure standing.
  pub record Stands (f : Failure) (x : Result (Unit {0}) × Simulation W) : Type 0 where
    pub answers : x.0 ≡ ok tt
    pub failure : x.1.failure ≡ some f

  -- One that throws, of a failure that it leaves standing.
  pub record Dies {A : Type 0} (x : Result A × Simulation W) : Type 0 where
    pub cause : Failure
    pub thrown : x.0 ≡ throw cause.code
    pub failure : x.1.failure ≡ some cause

  pub Dies-Ends : {A : Type 0} (x : Result A × Simulation W) → Dies x → Ends x
  Dies-Ends x d = dies d.cause d.thrown d.failure

  -- What follows an end in the finally block of a call.
  pub finally-Ends :
      {A B : Type 0} (m : Call W A) (g : A → B) (last : Call W (Unit {0})) (s : Simulation W)
      → ((t : Simulation W) → (last t).0 ≡ ok tt)
      → ((t : Simulation W) → (last t).1.failure ≡ t.failure)
      → Ends (m s)
      → Ends (caught m (λ a. last >> pure (g a)) (λ error. last >> lift (throw_of error)) s)
  finally-Ends {A} {B} m g last s total same h = ended (m s) h
    where
      closing : (t : Simulation W) (r : Result B) → (last >> lift r) t ≡ (r, (last t).1)
      closing t r = ap (λ (x : Result (Unit {0})). and_then x (λ _. lift r) (last t).1) (total t)

      ended :
          (r : Result A × Simulation W)
          → Ends {A = A} r
          → Ends {A = B} (elim r.0 [
            | ok a ↦ (last >> pure (g a)) r.1
            | throw e ↦ (last >> lift (throw_of (some e))) r.1
            | type_error ↦ (last >> lift (throw_of none)) r.1
          ])
      ended (ok a, t) e =
          succeeds (g a) (ap (λ (x : Result B × Simulation W). x.0) (closing t (ok (g a))))
      ended (throw c, t) (succeeds a q) = cc
      ended (throw c, t) (dies f q k) =
          dies f
            (ap (λ (x : Result B × Simulation W). x.0) (closing t (throw c))
              ∙ (let alike : c ≡ f.code = cc in ap (λ (x : ErrorCode). throw x) alike))
            (ap (λ (x : Result B × Simulation W). x.1.failure) (closing t (throw c)) ∙ same t ∙ k)
      ended (type_error, t) (succeeds a q) = cc
      ended (type_error, t) (dies f q k) = cc

  pub then-Ends :
      {A B : Type 0} (m : Call W A) (f : A → Call W B) (s : Simulation W)
      → Ends (m s)
      → ((a : A) (t : Simulation W) → m s ≡ (ok a, t) → Ends (f a t))
      → Ends ((m >>= f) s)
  then-Ends {A} {B} m f s h rest = ended (m s) refl h
    where
      ended : (r : Result A × Simulation W) → m s ≡ r → Ends r → Ends {A = B} (and_then r.0 f r.1)
      ended (ok a, t) e h = rest a t e
      ended (throw c, t) e (succeeds a q) = cc
      ended (throw c, t) e (dies g q k) =
          dies g (let alike : c ≡ g.code = cc in ap (λ (x : ErrorCode). throw x) alike) k
      ended (type_error, t) e (succeeds a q) = cc
      ended (type_error, t) e (dies g q k) = cc

  pub refuse_failed-Ends : (s : Simulation W) → Ends (refuse_failed s)
  unfolding refuse_failed
  refuse_failed-Ends s = stood s.failure refl
    where
      stood :
          (o : Option Failure)
          → s.failure ≡ o
          → Ends {A = Unit {0}} (elim o [ none ↦ (ok tt, s) | some f ↦ (throw f.code, s) ])
      stood none e = succeeds tt refl
      stood (some f) e = dies f refl e

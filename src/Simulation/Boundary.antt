-- ===== src/Simulation/Boundary.antt =====
-- packages/kernel/src/simulation.ts: how `#boundary` decides whether a run is over.
use mathlib.Core.Path.{subst}
use mathlib.Core.Logic.{inl, inr}
use distlab.Base.{
  ◌≡◌, refl, ap, sym, true, false, not, ◌==◌, none, some, List, [], ◌∷◌, Text, Result, ok, throw,
  Bool-cases, if_true, if_false,
}
use distlab.Base.Actions.{pure, chain-elim}
use distlab.Contracts.Errors.{simulation_deadlock}
use distlab.Simulation.{
  Simulation, Failure, completed, Ports, Code, refuse_failed, note, die, failure_of, code_of,
}
use distlab.Simulation.Events.{boundary, close_at, close_run, complete_run}
use distlab.Simulation.Ends.{Keeps, caught-cases}
use distlab.Simulation.Latch.{die-Dies, die-new}
use distlab.Simulation.Runs.{go, refuse_failed-passes}

-- The four ends of a boundary: events are pending and nothing happens; tasks are left, which is a
-- deadlock; the run is complete; or completing it fails.
pub data Decides {W : Type 0} (ports : Ports W) (s : Simulation W)
    (x : Result (Unit {0}) × Simulation W) : Type 0 where
  waits : (ports.size s.world == 0) ≡ false → x ≡ (ok tt, s) → Decides ports s x
  deadlocks :
      (id : Text) (more : List Text) (f : Failure)
      → (ports.size s.world == 0) ≡ true
      → s.live ≡ id ∷ more
      → x.0 ≡ throw simulation_deadlock
      → x.1.failure ≡ some f
      → f.code ≡ simulation_deadlock
      → Decides ports s x
  completes :
      (ports.size s.world == 0) ≡ true
      → s.live ≡ []
      → x.0 ≡ ok tt
      → x.1.status ≡ completed
      → Decides ports s x
  fails :
      (f : Failure)
      → (ports.size s.world == 0) ≡ true
      → s.live ≡ []
      → x.0 ≡ throw f.code
      → x.1.failure ≡ some f
      → Decides ports s x

module _ {W : Type 0} (ports : Ports W) (code : Code W)
    (hook : (f : Failure) (s : Simulation W) → Keeps s (code.on_failure f s).1) where
  complete_run-Completes :
      (s t : Simulation W) (u : Unit {0})
      → complete_run ports code s ≡ (ok u, t)
      → t.status ≡ completed
  unfolding complete_run
  complete_run-Completes s t u h = chain-elim code.on_completion _ s h λ _ v e k.
      chain-elim (note ports _ none _) _ v k
        λ _ w d l. sym (ap (λ (x : Result (Unit {0}) × Simulation W). x.1.status) l)

  close_run-Decides :
      (s : Simulation W)
      → s.failure ≡ none
      → (ports.size s.world == 0) ≡ true
      → Decides ports s (close_run ports code s.live s)
  unfolding close_run code_of failure_of
  close_run-Decides s well over = decided s.live refl
    where
      decided : (live : List Text) → s.live ≡ live → Decides ports s (close_run ports code live s)
      decided (id ∷ more) e =
          let (thrown, stands) =
            die-new ports code hook {A = Unit {0}} (some simulation_deadlock) none s well in
          deadlocks id more _ over e thrown stands refl
      decided [] e =
          caught-cases (λ (x : Result (Unit {0}) × Simulation W). Decides ports s x)
            (complete_run ports code) (λ _. pure tt) (λ error. die ports code error none) s
            (λ a t h. completes over e refl (complete_run-Completes s t a h))
            (λ error t h.
              let d = die-Dies ports code hook {A = Unit {0}} error none t in
              fails d.cause over e d.thrown d.failure)

  -- At a boundary of a run that has not failed: with events pending nothing changes; with none and with
  -- tasks left the run fails with SIMULATION_DEADLOCK; with neither the run is COMPLETED, or a failure is
  -- left standing and thrown. The hook that is told of a failure must not take it back.
  pub boundary-Decides :
      (s : Simulation W) → s.failure ≡ none → Decides ports s (boundary ports code s)
  unfolding boundary close_at
  boundary-Decides s well =
      go (λ (x : Result (Unit {0}) × Simulation W). Decides ports s x) refuse_failed
        (λ _. close_at ports code) s s tt (refuse_failed-passes s well)
        (elim (Bool-cases (ports.size s.world == 0)) [
          | inl over ↦
              subst (λ (x : Result (Unit {0}) × Simulation W). Decides ports s x)
                (sym (if_false _ _ (ap not over))) (close_run-Decides s well over)
          | inr busy ↦
              subst (λ (x : Result (Unit {0}) × Simulation W). Decides ports s x)
                (sym (if_true _ _ (ap not busy))) (waits busy refl)
        ])

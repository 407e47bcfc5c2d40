-- ===== src/Simulation/Runs.antt =====
-- packages/kernel/src/simulation.ts: what `run` and `step` return, and what they throw.
use mathlib.Core.Path.{subst}
use mathlib.Core.Logic.{inl, inr}
use distlab.Base.{
  ℕ, zero, suc, ◌+◌, ◌≤◌, ◌≡◌, refl, ap, sym, ◌∙◌, Bool, true, false, not, ◌&&◌, Option, none, some,
  Result, ok, throw, type_error, Bool-cases, if◌then◌else◌, arith, Option-cases, if_true, if_false,
  fail_if,
}
use distlab.Base.Actions.{and_then, ◌>>=◌, ◌>>◌, pure, lift, raise, chain-elim}
use distlab.Contracts.Errors.{ErrorCode, control_busy}
use distlab.Values.{Value}
use distlab.Simulation.{
  Status, ready, failed, Simulation, Failure, running, paused, completed, Call, Ports, Code,
  refuse_failed,
}
use distlab.Simulation.Events.{boundary, dispatch}
use distlab.Simulation.Control.{
  lock, then_unlock, unlock, run, run_for, run_loop, run_events, maybe_yield, result_of, RunResult,
  read_options, is_completed, is_running,
}
use distlab.Simulation.Ends.{Ends, succeeds, dies, Keeps, refuse_failed-Dies, then-Ends}
use distlab.Simulation.Latch.{boundary-Ends, run_loop-Ends}

module _ {W : Type 0} where
  pub go :
      {A B : Type 0} (Post : Result B × Simulation W → Type 0) (m : Call W A) (f : A → Call W B)
      (s t : Simulation W) (a : A)
      → m s ≡ (ok a, t)
      → Post (f a t)
      → Post ((m >>= f) s)
  go Post m f s t a e p =
      subst (λ (x : Result _ × Simulation W). Post (and_then x.0 f x.1)) (sym e) p

  pub stops :
      {A B : Type 0} (m : Call W A) (f : A → Call W B) (s : Simulation W) (e : ErrorCode)
      → m s ≡ (throw e, s)
      → (m >>= f) s ≡ (throw e, s)
  stops m f s e h = ap (λ (x : Result _ × Simulation W). and_then x.0 f x.1) h

  pub refuse_failed-passes : (s : Simulation W) → s.failure ≡ none → refuse_failed s ≡ (ok tt, s)
  unfolding refuse_failed
  refuse_failed-passes s e =
      ap (λ (o : Option Failure). elim o [ none ↦ (ok tt, s) | some g ↦ (throw g.code, s) ]) e

  pub unlocked-free :
      (s : Simulation W) → s.locked ≡ false → lift (fail_if s.locked control_busy) s ≡ (ok tt, s)
  unlocked-free s e = ap (λ (b : Bool). (fail_if b control_busy, s)) e

-- What `run` does of at most `most` events: it returns with no more of them, with the reason that
-- fits, or throws the failure that it leaves standing; either way the simulation is free again.
pub data Runs {W : Type 0} (most : ℕ) (x : Result RunResult × Simulation W) : Type 0 where
  returns :
      (a : RunResult)
      → x.0 ≡ ok a
      → a.processed_events ≤ most
      → is_running a.status ≡ false
      → x.1.locked ≡ false
      → Runs most x
  fails :
      (f : Failure) → x.0 ≡ throw f.code → x.1.failure ≡ some f → x.1.locked ≡ false → Runs most x

stopped : (status : Status) → is_running (if is_running status then paused else status) ≡ false
unfolding is_running
stopped ready = refl
stopped running = refl
stopped paused = refl
stopped completed = refl
stopped failed = refl

module _ {W : Type 0} (ports : Ports W) (code : Code W) where
  lock-Locks :
      (s : Simulation W)
      → s.locked ≡ false
      → s.failure ≡ none
      → lock ports code s ≡ (ok tt, record s { locked = true })
  unfolding lock
  lock-Locks s open_yet well =
      let Post =
        λ (x : Result (Unit {0}) × Simulation W). x ≡ (ok tt, record s { locked = true }) in
      go Post (lift (fail_if s.locked control_busy)) _ s s tt (unlocked-free s open_yet)
        (go Post refuse_failed _ s s tt (refuse_failed-passes s well) refl)

  run_loop-bound :
      (left processed every : ℕ) (s : Simulation W) {n : ℕ} {t : Simulation W}
      → run_loop ports code left processed every s ≡ (ok n, t)
      → n ≤ processed + left
  unfolding run_loop
  run_loop-bound zero processed every s {n} h = let e : processed ≡ n = cc in omega arith
  run_loop-bound (suc left) processed every s {n} {t} h =
      elim (Bool-cases (is_running s.status && not s.pausing)) [
        | inl goes ↦
            let h' = sym (if_true _ _ goes) ∙ h in
            chain-elim (dispatch ports code) _ s h' λ x u d k.
              chain-elim (maybe_yield ports code (suc processed) every) _ u k
                λ y v m l. let b = run_loop-bound left (suc processed) every v l in omega arith
        | inr stops ↦
            let e : processed ≡ n = (let h' = sym (if_false _ _ stops) ∙ h in cc) in omega arith
      ]

  abbrev count_of : Result RunResult → ℕ
  count_of (ok a) = a.processed_events
  count_of _ = 0

  abbrev runs_on : Result RunResult → Bool
  runs_on (ok a) = is_running a.status
  runs_on _ = false

  result_of-Bounded :
      (processed : ℕ) (s : Simulation W) {a : RunResult} {t : Simulation W}
      → result_of ports code processed s ≡ (ok a, t)
      → (a.processed_events ≡ processed) × (is_running a.status ≡ false)
  unfolding result_of
  result_of-Bounded processed s {a} {t} h = (
    ap (λ (x : Result RunResult × Simulation W). count_of x.0) (sym h),
    ap (λ (x : Result RunResult × Simulation W). runs_on x.0) (sym h) ∙ stopped s.status,
  )

  run_events-bound :
      (most every : ℕ) (s : Simulation W) {a : RunResult} {t : Simulation W}
      → run_events ports code most every s ≡ (ok a, t)
      → (a.processed_events ≤ most) × (is_running a.status ≡ false)
  unfolding run_events
  run_events-bound most every s {a} h = chain-elim (boundary ports code) _ s h λ x u d k.
      chain-elim (run_loop ports code most 0 every) _ u k λ n v m l.
        let (same, over) = result_of-Bounded n v l in
        let b = run_loop-bound most 0 every u m in (omega arith, over)

  run_for-bound :
      (most every : ℕ) (s : Simulation W) {a : RunResult} {t : Simulation W}
      → run_for ports code most every s ≡ (ok a, t)
      → (a.processed_events ≤ most) × (is_running a.status ≡ false)
  unfolding run_for is_running
  run_for-bound most every s {a} h = elim (Bool-cases (is_completed s.status)) [
    | inl over ↦
        let e = sym h ∙ if_true _ _ over in
        (
          subst (λ (n : ℕ). n ≤ most)
              (sym (ap (λ (x : Result RunResult × Simulation W). count_of x.0) e)) (omega arith),
          ap (λ (x : Result RunResult × Simulation W). runs_on x.0) e,
        )
    | inr goes ↦ run_events-bound most every _ (sym (if_false _ _ goes) ∙ h)
  ]

  -- Once a failure stands, a control throws it and changes nothing.
  pub run-fails :
      (options : Option Value) (s : Simulation W) (f : Failure)
      → s.locked ≡ false
      → s.failure ≡ some f
      → run ports code options s ≡ (throw f.code, s)
  unfolding run
  run-fails options s f free e =
      let Post = λ (x : Result RunResult × Simulation W). x ≡ (throw f.code, s) in
      go Post (lift (fail_if s.locked control_busy)) _ s s tt (unlocked-free s free)
        (stops refuse_failed _ s f.code (refuse_failed-Dies s f e))

module _ {W : Type 0} (ports : Ports W) (code : Code W)
    (hook : (f : Failure) (s : Simulation W) → Keeps s (code.on_failure f s).1) where
  run_events-Ends : (most every : ℕ) (s : Simulation W) → Ends (run_events ports code most every s)
  unfolding run_events result_of
  run_events-Ends most every s =
      then-Ends (boundary ports code) _ s (boundary-Ends ports code hook s) λ _ t e.
        then-Ends (run_loop ports code most 0 every) _ t
          (run_loop-Ends ports code hook most 0 every t) λ n u k. succeeds _ refl

  run_for-Ends : (most every : ℕ) (s : Simulation W) → Ends (run_for ports code most every s)
  unfolding run_for
  run_for-Ends most every s = elim (Bool-cases (is_completed s.status)) [
    | inl over ↦
        subst (λ (x : Result RunResult × Simulation W). Ends x) (sym (if_true _ _ over))
          (succeeds _ refl)
    | inr goes ↦
        subst (λ (x : Result RunResult × Simulation W). Ends x) (sym (if_false _ _ goes))
          (run_events-Ends most every _)
  ]

  -- The controls of a free simulation that has not failed: the options are read, and the lock is taken.
  run-starts :
      (options : Option Value) (s : Simulation W) {most every : ℕ}
      → s.locked ≡ false
      → s.failure ≡ none
      → read_options options ≡ ok (most, every)
      → run ports code options s
        ≡ then_unlock ports code (run_for ports code most every) (record s { locked = true })
  unfolding run
  run-starts options s {most} {every} free well reads =
      let Post = λ (x : Result RunResult × Simulation W).
        x ≡ then_unlock ports code (run_for ports code most every) (record s { locked = true }) in
      go Post (lift (fail_if s.locked control_busy)) _ s s tt (unlocked-free s free) (
        go Post refuse_failed _ s s tt (refuse_failed-passes s well) (
          go Post (lift (read_options options)) _ s s (most, every)
            (ap (λ (r : Result (ℕ × ℕ)). (r, s)) reads)
            (go Post (lock ports code) _ s (record s { locked = true }) tt
              (lock-Locks ports code s free well) refl)))

  then_unlock-Runs :
      (most every : ℕ) (s : Simulation W)
      → Runs most (then_unlock ports code (run_for ports code most every) s)
  unfolding then_unlock unlock
  then_unlock-Runs most every s =
      ended (run_for ports code most every s) refl (run_for-Ends most every s)
    where
      ended :
          (r : Result RunResult × Simulation W)
          → run_for ports code most every s ≡ r
          → Ends r
          → Runs {W = W} most (elim r.0 [
            | ok a ↦ (unlock ports code >> pure a) r.1
            | throw e ↦ (unlock ports code >> raise e) r.1
            | type_error ↦ (unlock ports code >> lift type_error) r.1
          ])
      ended (ok a, t) e h =
          let (bound, over) = run_for-bound ports code most every s e in
          returns a refl bound over refl
      ended (throw c, t) e (succeeds a q) = cc
      ended (throw c, t) e (dies f q k) = fails f q k refl
      ended (type_error, t) e (succeeds a q) = cc
      ended (type_error, t) e (dies f q k) = cc

  -- A run of a simulation that nothing controls, with options that are well formed, ends: it
  -- returns, with no more events dispatched than it was allowed and not in the status RUNNING, or
  -- it throws the failure that it leaves standing. The simulation is free then. The hook that is
  -- told of a failure must not take it back.
  pub run-Runs :
      (options : Option Value) (s : Simulation W) {most every : ℕ}
      → s.locked ≡ false
      → read_options options ≡ ok (most, every)
      → Runs most (run ports code options s)
  run-Runs options s {most} {every} free reads = elim (Option-cases s.failure) [
    | inl well ↦
        subst (λ (x : Result RunResult × Simulation W). Runs most x)
          (sym (run-starts options s free well reads))
          (then_unlock-Runs most every (record s { locked = true }))
    | inr (f, e) ↦
        subst (λ (x : Result RunResult × Simulation W). Runs most x)
          (sym (run-fails ports code options s f free e)) (fails f refl e free)
  ]

-- ===== src/Simulation/Latch.antt =====
-- packages/kernel/src/simulation.ts: `#terminal` leaves a failure standing, and what a dispatch or a step
-- throws is the failure that stands.
use mathlib.Core.Path.{subst}
use mathlib.Core.Logic.{inl, inr}
use distlab.Base.{
  ℕ, suc, ◌≡◌, refl, ap, sym, ◌∙◌, Bool, true, false, ◌&&◌, Option, none, some, List, [], ◌∷◌, Text,
  Result, ok, throw, Bool-cases, not, fail_if, ◌%◌, zero, ◌==◌, if_true, if_false,
}
use distlab.Base.Actions.{and_then, ◌>>◌, pure, put, lift, chain-keeps}
use distlab.Base.Dicts.{is_some}
use distlab.Contracts.Errors.{ErrorCode, handler_failed, control_busy}
use distlab.Contracts.Events.{ScheduledEvent}
use distlab.Values.{Value}
use distlab.Simulation.{
  Simulation, Failure, failed, Call, Ports, Code, Thrown, throw_of, caught, on_world, rethrow,
  refuse_failed, note, note_failure, close_history, conclude, terminal, die, failure_of,
}
use distlab.Simulation.Events.{
  Step, boundary, close_at, close_run, complete_run, dispatch, dispatch_found, dispatch_event,
  run_event, try_event, leave_event,
}
use distlab.Simulation.Control.{
  step, step_once, lock, then_unlock, unlock, run_loop, maybe_yield, is_completed, is_running,
}
use distlab.Simulation.Ends.{
  Ends, succeeds, Keeps, Has, Stands, Dies, Dies-Ends, finally-Ends, then-Ends, refuse_failed-Ends,
  rethrow-Dies, caught-cases,
}

module _ {W : Type 0} (ports : Ports W) (code : Code W)
    (hook : (f : Failure) (s : Simulation W) → Keeps s (code.on_failure f s).1) where
  hooked :
      (f g : Failure) (s t : Simulation W) (r : Result (Unit {0}))
      → code.on_failure f s ≡ (r, t)
      → s.failure ≡ some g
      → t.failure ≡ some g
  hooked f g s t r h e =
      let k : (code.on_failure f s).1.failure ≡ some g = (hook f s).failure g e in
      ap (λ (x : Result (Unit {0}) × Simulation W). x.1.failure) (sym h) ∙ k

  close_history-Stands :
      (f : Failure) (b : Bool) (s : Simulation W) (g : Failure)
      → s.failure ≡ some g
      → Stands g (close_history ports code f b s)
  unfolding close_history
  close_history-Stands f b s g e =
      caught-cases (Stands g) (code.on_failure f) (λ _. pure tt) (λ _. pure tt) _
        (λ a t h. record { answers = refl; failure = hooked f g _ t _ h e })
        (λ error t h. record { answers = refl; failure = hooked f g _ t _ h e })

  note-keeps :
      (type : Text) (event : Option ScheduledEvent) (content : Option Value) (s : Simulation W)
      (g : Failure)
      → Has g s
      → Has g (note ports type event content s).1
  unfolding note on_world
  note-keeps type event content s g h =
      chain-keeps (Has g) (on_world (ports.sink.observe _)) _ s (record { failure = h.failure })
        (λ _ t p. p)

  note_failure-keeps :
      (event : Option ScheduledEvent) (f g : Failure) (s : Simulation W)
      → Has g s
      → Has g (note_failure ports event f s).1
  unfolding note_failure
  note_failure-keeps none f g s h = note-keeps _ none _ s g h
  note_failure-keeps (some e) f g s h =
      chain-keeps (Has g) (note ports _ (some e) _) _ s (note-keeps _ (some e) _ s g h)
        (λ _ t p. note-keeps _ none _ t g p)

  pub conclude-Stands :
      (event : Option ScheduledEvent) (f g : Failure) (s : Simulation W)
      → s.failure ≡ some g
      → Stands g (conclude ports code event f s)
  unfolding conclude
  conclude-Stands event f g s e = elim (Bool-cases (is_some f.rejected)) [
    | inl refused ↦
        subst (λ (m : Call W (Unit {0})). Stands g (m s)) (sym (if_true _ _ refused))
          (close_history-Stands f false s g e)
    | inr passed ↦
        subst (λ (m : Call W (Unit {0})). Stands g (m s)) (sym (if_false _ _ passed))
          (caught-cases (Stands g) (note_failure ports event f)
            (λ _. close_history ports code f true) (λ _. close_history ports code f false) s
            (λ a t h. close_history-Stands f true t g (noted t _ h))
            (λ error t h. close_history-Stands f false t g (noted t _ h)))
  ]
    where
      noted :
          (t : Simulation W) (r : Result (Unit {0}))
          → note_failure ports event f s ≡ (r, t)
          → t.failure ≡ some g
      noted t r h =
          ap (λ (x : Result (Unit {0}) × Simulation W). x.1.failure) (sym h)
          ∙ (note_failure-keeps event f g s (record { failure = e })).failure

  -- `#terminal` returns, and a failure stands then.
  terminal-Stands :
      (error : Thrown) (event : Option ScheduledEvent) (fallback : ErrorCode)
      (rejected : Option Text) (s : Simulation W)
      → (g : Failure) × Stands g (terminal ports code error event fallback rejected s)
  unfolding terminal
  terminal-Stands error event fallback rejected s = stood s.failure refl
    where
      stood :
          (o : Option Failure)
          → s.failure ≡ o
          → (g : Failure) × Stands {W = W} g (elim o [
            | some f ↦ (ok tt, s)
            | none ↦
                let f = failure_of error fallback rejected event s.origin_event s.event in
                conclude ports code event f (record s { failure = some f; status = failed })
          ])
      stood (some f) e = (f, record { answers = refl; failure = e })
      stood none e = (
        _,
        conclude-Stands event (failure_of error fallback rejected event s.origin_event s.event) _ _
            refl,
      )

  -- The failure that stands after a first error is the one of that error.
  pub die-new :
      {A : Type 0} (error : Thrown) (event : Option ScheduledEvent) (s : Simulation W)
      → s.failure ≡ none
      → let f = failure_of error handler_failed none event s.origin_event s.event in
        ((die ports code {A = A} error event s).0 ≡ throw f.code)
        × ((die ports code {A = A} error event s).1.failure ≡ some f)
  unfolding die terminal
  die-new {A} error event s well =
      let f = failure_of error handler_failed none event s.origin_event s.event in
      let t = record s { failure = some f; status = failed } in
      let h = conclude-Stands event f f t refl in
      let u = (conclude ports code event f t).1 in
      let start : terminal ports code error event handler_failed none s
          ≡ conclude ports code event f t =
        ap
          (λ (o : Option Failure). elim o [
            | some g ↦ (ok tt, s)
            | none ↦ conclude ports code event f t
          ])
          well in
      let e : die ports code {A = A} error event s ≡ (throw f.code, u) =
        ap (λ (x : Result (Unit {0}) × Simulation W). and_then x.0 (λ _. rethrow) x.1) start
        ∙ ap (λ (r : Result (Unit {0})). and_then r (λ _. rethrow) u) h.answers
        ∙ rethrow-Dies u f h.failure in
      (
        ap (λ (x : Result A × Simulation W). x.0) e,
        ap (λ (x : Result A × Simulation W). x.1.failure) e ∙ h.failure,
      )

  pub die-Dies :
      {A : Type 0} (error : Thrown) (event : Option ScheduledEvent) (s : Simulation W)
      → Dies (die ports code {A = A} error event s)
  unfolding die
  die-Dies {A} error event s =
      let (g, h) = terminal-Stands error event handler_failed none s in
      let t = (terminal ports code error event handler_failed none s).1 in
      let e : die ports code {A = A} error event s ≡ (throw g.code, t) =
        ap (λ (r : Result (Unit {0})). and_then r (λ _. rethrow) t) h.answers
        ∙ rethrow-Dies t g h.failure in
      record {
        cause = g;
        thrown = ap (λ (x : Result A × Simulation W). x.0) e;
        failure = ap (λ (x : Result A × Simulation W). x.1.failure) e ∙ h.failure;
      }

  try-Ends :
      {A B : Type 0} (m : Call W A) (g : A → B) (event : Option ScheduledEvent) (s : Simulation W)
      → Ends (caught m (λ a. pure (g a)) (λ error. die ports code error event) s)
  try-Ends m g event s =
      caught-cases Ends m (λ a. pure (g a)) (λ error. die ports code error event) s
        (λ a t e. succeeds (g a) refl) (λ error t e. Dies-Ends _ (die-Dies error event t))

  close_run-Ends : (live : List Text) (s : Simulation W) → Ends (close_run ports code live s)
  unfolding close_run
  close_run-Ends [] s = try-Ends (complete_run ports code) (λ _. tt) none s
  close_run-Ends (_ ∷ _) s = Dies-Ends _ (die-Dies _ none s)

  pub boundary-Ends : (s : Simulation W) → Ends (boundary ports code s)
  unfolding boundary close_at
  boundary-Ends s =
      then-Ends refuse_failed (λ _. close_at ports code) s (refuse_failed-Ends s)
        λ _ t e. elim (Bool-cases (not (ports.size t.world == 0))) [
          | inl busy ↦
              subst (λ (x : Result (Unit {0}) × Simulation W). Ends x) (sym (if_true _ _ busy))
                (succeeds tt refl)
          | inr over ↦
              subst (λ (x : Result (Unit {0}) × Simulation W). Ends x) (sym (if_false _ _ over))
                (close_run-Ends t.live t)
        ]

  dispatch_event-Ends :
      (e : ScheduledEvent) (s : Simulation W) → Ends (dispatch_event ports code e s)
  unfolding dispatch_event leave_event try_event
  dispatch_event-Ends e s =
      finally-Ends (try_event ports code e) (λ x. x) (leave_event ports code)
        (record s { processed = suc s.processed; event = some e; dispatching = true }) (λ t. refl)
        (λ t. refl) (try-Ends (run_event ports code e) (λ x. some x) (some e) _)

  dispatch_found-Ends :
      (o : Option ScheduledEvent) (s : Simulation W) → Ends (dispatch_found ports code o s)
  unfolding dispatch_found
  dispatch_found-Ends none s =
      then-Ends (boundary ports code) _ s (boundary-Ends s) (λ _ t e. succeeds none refl)
  dispatch_found-Ends (some e) s = dispatch_event-Ends e s

  -- `#dispatch` succeeds, or it leaves a failure standing and throws it, whatever the handlers, the
  -- tasks and the ports do, as long as the hook that is told of a failure does not take it back.
  pub dispatch-Ends : (s : Simulation W) → Ends (dispatch ports code s)
  unfolding dispatch
  dispatch-Ends s =
      caught-cases Ends (on_world ports.take_next) _ _ s (λ o t e. dispatch_found-Ends o t)
        (λ error t e. Dies-Ends _ (die-Dies error (ports.peek s.world) t))

  step_once-Ends : (s : Simulation W) → Ends (step_once ports code s)
  unfolding step_once
  step_once-Ends s = elim (Bool-cases (is_completed s.status)) [
    | inl over ↦
        subst (λ (x : Result (Option Step) × Simulation W). Ends x) (sym (if_true _ _ over))
          (succeeds none refl)
    | inr goes ↦
        subst (λ (x : Result (Option Step) × Simulation W). Ends x) (sym (if_false _ _ goes))
          (dispatch-Ends _)
  ]

  pub unlocked-Ends :
      {A : Type 0} (m : Call W A) (s : Simulation W)
      → Ends (m s)
      → Ends (then_unlock ports code m s)
  unfolding then_unlock unlock
  unlocked-Ends m s h = finally-Ends m (λ a. a) (unlock ports code) s (λ t. refl) (λ t. refl) h

  pub unlocked :
      {A : Type 0} (m : Call W A) (s : Simulation W) → (then_unlock ports code m s).1.locked ≡ false
  unfolding then_unlock unlock
  unlocked {A} m s =
      caught-cases (λ (x : Result A × Simulation W). x.1.locked ≡ false) m
        (λ a. unlock ports code >> pure a) (λ error. unlock ports code >> lift (throw_of error)) s
        (λ a t e. refl) (λ error t e. refl)

  lock-Ends : (s : Simulation W) → s.locked ≡ false → Ends (lock ports code s)
  unfolding lock
  lock-Ends s e =
      subst
        (λ (b : Bool). Ends (
          (lift (fail_if b control_busy) >> (refuse_failed >> put (record s { locked = true }))) s))
        (sym e) (then-Ends refuse_failed _ s (refuse_failed-Ends s) (λ _ t h. succeeds tt refl))

  -- So does a step of a simulation that is not controlled already.
  pub step-Ends : (s : Simulation W) → s.locked ≡ false → Ends (step ports code s)
  unfolding step
  step-Ends s e =
      then-Ends (lock ports code) _ s (lock-Ends s e)
        λ _ t h. unlocked-Ends (step_once ports code) t (step_once-Ends t)

  maybe_yield-ok :
      (processed every : ℕ) (s : Simulation W) → Ends (maybe_yield ports code processed every s)
  unfolding maybe_yield
  maybe_yield-ok processed every s =
      elim (Bool-cases (processed % every == 0 && is_running s.status)) [
        | inl now ↦
            subst (λ (x : Result (Unit {0}) × Simulation W). Ends x) (sym (if_true _ _ now))
              (succeeds tt refl)
        | inr later ↦
            subst (λ (x : Result (Unit {0}) × Simulation W). Ends x) (sym (if_false _ _ later))
              (succeeds tt refl)
      ]

  pub run_loop-Ends :
      (left processed every : ℕ) (s : Simulation W)
      → Ends (run_loop ports code left processed every s)
  unfolding run_loop
  run_loop-Ends zero processed every s = succeeds processed refl
  run_loop-Ends (suc left) processed every s =
      elim (Bool-cases (is_running s.status && not s.pausing)) [
        | inl goes ↦
            subst (λ (x : Result ℕ × Simulation W). Ends x) (sym (if_true _ _ goes))
              (then-Ends (dispatch ports code) _ s (dispatch-Ends s) λ _ t h.
                then-Ends (maybe_yield ports code (suc processed) every) _ t
                  (maybe_yield-ok (suc processed) every t)
                  λ _ u k. run_loop-Ends left (suc processed) every u)
        | inr stops ↦
            subst (λ (x : Result ℕ × Simulation W). Ends x) (sym (if_false _ _ stops))
              (succeeds processed refl)
      ]

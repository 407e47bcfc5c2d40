-- ===== src/Simulation/Refusals.antt =====
-- packages/kernel/src/simulation.ts: what a failed run answers to every control but `reset`, and to the capabilities.
use mathlib.Core.Logic.{inl, inr}
use distlab.Base.{
  ℕ, ◌≡◌, refl, ap, sym, ◌∙◌, Bool, true, false, not, ◌&&◌, ◌||◌, ◌==◌, Option, none, some, List,
  [], ◌∷◌, Text, Result, ok, throw, type_error, Bool-cases, if◌then◌else◌, if_true, if_false,
  fail_if, arith,
}
use distlab.Base.Actions.{Action, ◌>>=◌, ◌>>◌, pure, lift, raise}
use distlab.Base.Dicts.{is_some}
use distlab.Contracts.Errors.{ErrorCode, control_busy, stale_capability, handler_failed}
use distlab.Contracts.Observation.{ObservationInput}
use distlab.Contracts.Events.{ScheduledEvent}
use distlab.Values.{Value}
use distlab.Simulation.{
  Simulation, Failure, failed, Call, Ports, Code, Thrown, check, refuse_failed, rethrow, terminal,
  guard, guard_failed, failure_of, conclude, Status, port_call, fail_task, setup_observe,
}
use distlab.Simulation.Operations.{
  Outcome, create_operation, create_checked, complete, complete_checked, abandon,
}
use distlab.Simulation.Events.{register_handler}
use distlab.Simulation.Control.{step, lock, run, pause, is_running}
use distlab.Simulation.Ends.{rethrow-Dies, refuse_failed-Dies}
use distlab.Simulation.Runs.{go, stops, unlocked-free}

-- The controls but `reset`, and the capabilities of some attempt. `calls` is a call of a port; `guards` is any
-- other capability that is guarded, such as `scheduleStorage`, and `asks` one that is only checked, such as
-- `networkFor`.
pub data Entry (W : Type 0) : Type 0 where
  steps pauses : Entry W
  runs : Option Value → Entry W
  creates : ℕ → Entry W
  completes : ℕ → Text → Outcome → Entry W
  abandons : ℕ → Text → ℕ → Entry W
  observes : ℕ → ObservationInput → Entry W
  calls : ℕ → Action W (Unit {0}) → Entry W
  guards asks : ℕ → Call W (Unit {0}) → Entry W
  fails_task : ℕ → ErrorCode → Entry W
  registers : ℕ → Text → Text → Entry W

abbrev dropped : {W A : Type 0} → Call W A → Call W (Unit {0})
dropped m = m >>= λ _. pure tt

module _ {W : Type 0} (ports : Ports W) (code : Code W) where
  unfoldable pub enter_by : Entry W → Call W (Unit {0})
  enter_by steps = dropped (step ports code)
  enter_by pauses = λ s. (ok tt, pause ports code s)
  enter_by (runs options) = dropped (run ports code options)
  enter_by (creates generation) = dropped (create_operation ports code generation)
  enter_by (completes generation id outcome) = complete ports code generation id outcome
  enter_by (abandons generation owner process) = abandon ports code generation owner process
  enter_by (observes generation input) = setup_observe ports code generation input
  enter_by (calls generation m) = port_call ports code generation m
  enter_by (guards generation m) = guard ports code generation (check generation >> m)
  enter_by (asks generation m) = check generation >> m
  enter_by (fails_task generation e) = fail_task ports code generation e
  enter_by (registers generation type owner) = register_handler generation type owner

  unfoldable pub after_all : List (Entry W) → Simulation W → Simulation W
  after_all [] s = s
  after_all (entry ∷ entries) s = after_all entries (enter_by entry s).1

-- What a control of a failed run throws, and what a capability does.
abbrev pub of_control : {W : Type 0} → Simulation W → Failure → ErrorCode
of_control s f = if s.locked then control_busy else f.code

abbrev pub of_capability : {W : Type 0} → Simulation W → Failure → ℕ → ErrorCode → ErrorCode
of_capability s f generation otherwise = if generation == s.generation then f.code else otherwise

abbrev pub refusal : {W : Type 0} → Simulation W → Failure → Entry W → Result (Unit {0})
refusal s f steps = throw (of_control s f)
refusal s f pauses = ok tt
refusal s f (runs options) = throw (of_control s f)
refusal s f (creates generation) = throw (of_capability s f generation stale_capability)
refusal s f (completes generation id outcome) =
    throw (of_capability s f generation stale_capability)
refusal s f (abandons generation owner process) =
    throw (of_capability s f generation stale_capability)
refusal s f (observes generation input) = throw (of_capability s f generation stale_capability)
refusal s f (calls generation m) = throw (of_capability s f generation stale_capability)
refusal s f (guards generation m) = throw (of_capability s f generation stale_capability)
refusal s f (asks generation m) = throw (of_capability s f generation stale_capability)
refusal s f (fails_task generation e) = throw (of_capability s f generation e)
refusal s f (registers generation type owner) =
    throw (of_capability s f generation stale_capability)

module _ {W : Type 0} (ports : Ports W) (code : Code W) (s : Simulation W) (f : Failure)
    (stands : s.failure ≡ some f) where
  abbrev thrown : {A : Type 0} → ErrorCode → Result A × Simulation W
  thrown c = (throw c, s)

  check-refuses :
      (generation : ℕ) → check generation s ≡ thrown (of_capability s f generation stale_capability)
  unfolding check
  check-refuses generation = elim (Bool-cases (generation == s.generation)) [
    | inl current ↦
        if_false _ _ (ap not current)
        ∙ refuse_failed-Dies s f stands
        ∙ ap (λ (c : ErrorCode). thrown c) (sym (if_true _ _ current))
    | inr old ↦ if_true _ _ (ap not old) ∙ ap (λ (c : ErrorCode). thrown c) (sym (if_false _ _ old))
  ]

  -- `#terminal` lets a failure that stands be.
  terminal-stays :
      (error : Thrown) (event : Option ScheduledEvent) (fallback : ErrorCode)
      (rejected : Option Text)
      → terminal ports code error event fallback rejected s ≡ (ok tt, s)
  unfolding terminal
  terminal-stays error event fallback rejected =
      ap
        (λ (o : Option Failure). elim o [
          | some g ↦ (ok tt, s)
          | none ↦
              let g = failure_of error fallback rejected event s.origin_event s.event in
              conclude ports code event g (record s { failure = some g; status = failed })
        ])
        stands

  guard_failed-old :
      {A : Type 0} (generation : ℕ) (e : ErrorCode)
      → (generation == s.generation) ≡ false
      → guard_failed ports code {A = A} generation (some e) s ≡ thrown e
  unfolding guard_failed
  guard_failed-old {A} generation e old =
      let apart : (generation == s.generation && is_some s.failure) ≡ false =
        ap (λ (b : Bool). b && is_some s.failure) old in
      let first : Call W (Unit {0}) =
        if s.dispatching || generation == s.generation
        then terminal ports code (some e) s.event handler_failed none
        else pure tt in
      let last : Unit {0} → Call W A =
        λ _ t. (if generation == t.generation && is_some t.failure then rethrow else raise e) t in
      let quiet : first s ≡ (ok tt, s) =
        elim (Bool-cases (s.dispatching || generation == s.generation)) [
          | inl b ↦
              ap (λ (m : Call W (Unit {0})). m s) (if_true _ _ b)
              ∙ terminal-stays (some e) s.event handler_failed none
          | inr b ↦ ap (λ (m : Call W (Unit {0})). m s) (if_false _ _ b)
        ] in
      go (λ (x : Result A × Simulation W). x ≡ thrown e) first last s s tt quiet
        (ap (λ (m : Call W A). m s) (if_false rethrow (raise e) apart))

  guard-refuses :
      {A : Type 0} (generation : ℕ) (m : Call W A) (e : ErrorCode)
      → ((generation == s.generation) ≡ false → m s ≡ thrown e)
      → guard ports code generation m s ≡ thrown (of_capability s f generation e)
  unfolding guard
  guard-refuses {A} generation m e fails = elim (Bool-cases (generation == s.generation)) [
    | inl current ↦
        let known : is_some s.failure ≡ true = ap (λ (o : Option Failure). is_some o) stands in
        let holds : (generation == s.generation && is_some s.failure) ≡ true = ground arith in
        if_true _ _ holds
        ∙ rethrow-Dies s f stands
        ∙ ap (λ (c : ErrorCode). thrown c) (sym (if_true _ _ current))
    | inr old ↦
        let apart : (generation == s.generation && is_some s.failure) ≡ false =
          ap (λ (b : Bool). b && is_some s.failure) old in
        if_false _ _ apart
        ∙ ap
            (λ (x : Result A × Simulation W). elim x.0 [
              | ok a ↦ (ok a, x.1)
              | throw c ↦ guard_failed ports code generation (some c) x.1
              | type_error ↦ guard_failed ports code generation none x.1
            ])
            (fails old)
        ∙ guard_failed-old generation e old
        ∙ ap (λ (c : ErrorCode). thrown c) (sym (if_false _ _ old))
  ]

  -- A guarded call that begins with `#check`.
  capability-refuses :
      {A : Type 0} (generation : ℕ) (m : Call W A)
      → guard ports code generation (check generation >> m) s
        ≡ thrown (of_capability s f generation stale_capability)
  capability-refuses generation m = guard-refuses generation _ stale_capability λ old.
      stops (check generation) _ s stale_capability
        (check-refuses generation ∙ ap (λ (c : ErrorCode). thrown c) (if_false _ _ old))

  -- The beginning of every control but `reset`: one that is refused as busy, or for the failure.
  control-refuses :
      {A : Type 0} (m : Call W A)
      → (lift (fail_if s.locked control_busy) >> (refuse_failed >> m)) s ≡ thrown (of_control s f)
  control-refuses {A} m = elim (Bool-cases s.locked) [
    | inl busy ↦
        stops (lift (fail_if s.locked control_busy)) _ s control_busy
          (ap (λ (b : Bool). (fail_if b control_busy, s)) busy)
        ∙ ap (λ (c : ErrorCode). thrown c) (sym (if_true _ _ busy))
    | inr free ↦
        go (λ (x : Result A × Simulation W). x ≡ thrown f.code)
          (lift (fail_if s.locked control_busy)) _ s s tt (unlocked-free s free)
          (stops refuse_failed _ s f.code (refuse_failed-Dies s f stands))
        ∙ ap (λ (c : ErrorCode). thrown c) (sym (if_false _ _ free))
  ]

  pause-stays : s.status ≡ failed → pause ports code s ≡ s
  unfolding pause is_running
  pause-stays over = ap (λ (x : Status). record s { pausing = is_running x || s.pausing }) over

  enter_by-refuses :
      (entry : Entry W) → s.status ≡ failed → enter_by ports code entry s ≡ (refusal s f entry, s)
  unfolding enter_by step lock run create_operation create_checked complete complete_checked abandon
      setup_observe port_call fail_task register_handler
  enter_by-refuses steps over =
      stops (step ports code) _ s _ (stops (lock ports code) _ s _ (control-refuses _))
  enter_by-refuses pauses over = ap (λ (t : Simulation W). (ok tt, t)) (pause-stays over)
  enter_by-refuses (runs options) over = stops (run ports code options) _ s _ (control-refuses _)
  enter_by-refuses (creates generation) over =
      stops (create_operation ports code generation) _ s _ (capability-refuses generation _)
  enter_by-refuses (completes generation id outcome) over =
      guard-refuses generation _ stale_capability λ old.
        stops (complete_checked generation id outcome) _ s stale_capability (
          stops (check generation) _ s stale_capability
            (check-refuses generation ∙ ap (λ (c : ErrorCode). thrown c) (if_false _ _ old)))
  enter_by-refuses (abandons generation owner process) over = capability-refuses generation _
  enter_by-refuses (observes generation input) over = capability-refuses generation _
  enter_by-refuses (calls generation m) over = capability-refuses generation _
  enter_by-refuses (guards generation m) over = capability-refuses generation m
  enter_by-refuses (asks generation m) over =
      stops (check generation) _ s _ (check-refuses generation)
  enter_by-refuses (fails_task generation e) over = guard-refuses generation _ e λ old. refl
  enter_by-refuses (registers generation type owner) over =
      stops (check generation) _ s _ (check-refuses generation)

  after_all-stays :
      (entries : List (Entry W)) → s.status ≡ failed → after_all ports code entries s ≡ s
  unfolding after_all
  after_all-stays [] over = refl
  after_all-stays (entry ∷ entries) over =
      ap (λ (x : Result (Unit {0}) × Simulation W). after_all ports code entries x.1)
        (enter_by-refuses entry over)
      ∙ after_all-stays entries over

  -- A failed run stays exactly as it is through every sequence of calls of `step`, `run`, `pause`, and
  -- of the capabilities of any attempt, which are `failTask` and those that begin with `#check`. In it
  -- `pause` returns; `step` and `run` throw the standing failure, or CONTROL_BUSY while another control is
  -- under way; a capability of the present attempt throws the standing failure, and one of another attempt
  -- STALE_CAPABILITY, or for `failTask` the code that it is given.
  pub failed_run-Refuses :
      (entries : List (Entry W)) (entry : Entry W)
      → s.status ≡ failed
      → (after_all ports code entries s ≡ s)
        × (enter_by ports code entry (after_all ports code entries s) ≡ (refusal s f entry, s))
  failed_run-Refuses entries entry over = (
    after_all-stays entries over,
    ap (λ (t : Simulation W). enter_by ports code entry t) (after_all-stays entries over)
        ∙ enter_by-refuses entry over,
  )

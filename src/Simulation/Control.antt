-- ===== src/Simulation/Control.antt =====
-- packages/kernel/src/simulation.ts: `step`, `run`, `pause`, `reset` and `#compose`.
use distlab.Base.{
  ℕ, zero, suc, ◌%◌, Bool, true, false, not, ◌&&◌, ◌||◌, Option, none, some, List, [], ◌∷◌, ◌++◌,
  Text, units, Result, ok, throw, bind, fail_if, ◌==◌, if◌then◌else◌,
}
use distlab.Base.Actions.{◌>>=◌, ◌>>◌, pure, get, put, lift}
use distlab.Contracts.Errors.{control_busy, invalid_run_options, initialization_failed}
use distlab.Values.{
  negative_zero, Value, num, str, obj, Fields, field, end, whole, max_safe, is_safe, get_field,
  keys_within,
}
use distlab.Simulation.{
  Status, ready, running, paused, completed, Simulation, Call, Ports, Code, Thrown, caught,
  throw_of, on_world, refuse_failed, note, die,
}
use distlab.Simulation.Events.{Step, boundary, dispatch, wake_type}

pub data Reason : Type 0 where
  empty pause_requested event_limit : Reason

pub record RunResult : Type 0 where
  pub status : Status
  pub reason : Reason
  pub time : ℕ
  pub processed_events : ℕ
  pub total_events : ℕ

unfoldable pub is_running : Status → Bool
is_running running = true
is_running _ = false

unfoldable pub is_completed : Status → Bool
is_completed completed = true
is_completed _ = false

run_keys : List Text
run_keys = units "maxEvents" ∷ units "maxEventsPerYield" ∷ []

-- An option of a run: null is refused, and what is absent has its default.
unfoldable pub limit_of : Option Value → ℕ → Result ℕ
limit_of none default = ok default
limit_of (some (num (whole n))) default = if is_safe n then ok n else throw invalid_run_options
limit_of (some (num negative_zero)) default = ok 0
limit_of (some _) default = throw invalid_run_options

unfoldable pub limits : Fields → Result (ℕ × ℕ)
limits fs = bind (limit_of (get_field (units "maxEvents") fs) max_safe) λ most.
    bind (limit_of (get_field (units "maxEventsPerYield") fs) 1000)
      λ every. if every == 0 then throw invalid_run_options else ok (most, every)

-- The options of `run`.
unfoldable pub read_options : Option Value → Result (ℕ × ℕ)
unfolding run_keys
read_options none = limits end
read_options (some (obj fs)) =
    if keys_within run_keys fs then limits fs else throw invalid_run_options
read_options (some _) = throw invalid_run_options

module _ {W : Type 0} (ports : Ports W) (code : Code W) where
  -- `#lock()`
  unfoldable pub lock : Call W (Unit {0})
  lock = do
    s ← get
    lift (fail_if s.locked control_busy)
    refuse_failed
    put (record s { locked = true })

  -- The finally block of the three controls.
  unfoldable pub unlock : Call W (Unit {0})
  unlock s = (ok tt, record s { locked = false; world = ports.flush s.world })

  unfoldable pub then_unlock : {A : Type 0} → Call W A → Call W A
  then_unlock m = caught m (λ a. unlock >> pure a) (λ error. unlock >> lift (throw_of error))

  unfoldable pub step_once : Call W (Option Step)
  step_once s =
      if is_completed s.status
      then (ok none, s)
      else dispatch ports code (record s { status = paused })

  -- `step()`
  unfoldable pub step : Call W (Option Step)
  step = lock >> then_unlock step_once

  -- `if (processed % yieldEvery === 0 && status === RUNNING) await yieldToHost()`
  unfoldable pub maybe_yield : ℕ → ℕ → Call W (Unit {0})
  maybe_yield processed every s =
      if processed % every == 0 && is_running s.status then (ok tt, code.turn s) else (ok tt, s)

  -- The loop of `run`, which has `left` rounds left; it returns how many events it dispatched.
  unfoldable pub run_loop : ℕ → ℕ → ℕ → Call W ℕ
  run_loop zero processed every s = (ok processed, s)
  run_loop (suc left) processed every s =
      if is_running s.status && not s.pausing
      then (dispatch ports code >>= λ _.
            maybe_yield (suc processed) every >> run_loop left (suc processed) every)
          s
      else (ok processed, s)

  unfoldable pub result_of : ℕ → Call W RunResult
  result_of processed = do
    s ← get
    put (record s { status = if is_running s.status then paused else s.status })
    t ← get
    pure (record {
      status = t.status;
      reason =
          if is_completed t.status
          then empty
          else if t.pausing
          then pause_requested
          else event_limit;
      time = ports.now t.world;
      processed_events = processed;
      total_events = t.total;
    })

  unfoldable pub run_events : ℕ → ℕ → Call W RunResult
  run_events most every = do
    boundary ports code
    processed ← run_loop most 0 every
    result_of processed

  unfoldable pub run_for : ℕ → ℕ → Call W RunResult
  run_for most every s =
      if is_completed s.status
      then (
        ok (record {
          status = completed;
          reason = empty;
          time = ports.now s.world;
          processed_events = 0;
          total_events = s.total;
        }),
        s,
      )
      else run_events most every (record s { status = running; pausing = false })

  -- `run(options)`
  unfoldable pub run : Option Value → Call W RunResult
  run options = do
    s ← get
    lift (fail_if s.locked control_busy)
    refuse_failed
    (most, every) ← lift (read_options options)
    lock
    then_unlock (run_for most every)

  -- `pause()`
  unfoldable pub pause : Simulation W → Simulation W
  pause s = record s { pausing = is_running s.status || s.pausing }

  -- A fresh attempt of the run; constructing the ports may be refused.
  unfoldable pub renew : Call W (Unit {0})
  renew = do
    s ← get
    put (record s {
      generation = suc s.generation;
      failure = none;
      status = ready;
      total = 0;
      processed = 0;
      tasks = [];
      live = [];
      operations = [];
      process_generations = [];
      handlers = (wake_type, units "simulation") ∷ [];
      task_ids = record { prefix = units "task"; run_id = s.run_id; next = 0 };
      operation_ids = record { prefix = units "operation"; run_id = s.run_id; next = 0 };
    })
    owners ← on_world ports.renew
    t ← get
    put (record t { handlers = t.handlers ++ owners; sealed = false; initializing = true })

  -- The setup's capabilities end.
  unfoldable pub end_setup : Call W (Unit {0})
  end_setup s = (ok tt, record s { sealed = true; initializing = false })

  unfoldable pub set_up : Call W (Unit {0})
  set_up = do
    s ← get
    note ports (units "simulation.created") none (
        some (
          obj (
            field (units "runId") (str s.run_id)
              (field (units "inputFingerprint") (str s.run_id) end))))
    code.initialize
    end_setup
    code.after_initialization
    t ← get
    put (record t { status = ready })

  -- The error of a setup: the first attempt shows its own.
  unfoldable pub setup_error : ℕ → Thrown → Thrown
  setup_error generation none = some initialization_failed
  setup_error generation (some e) = if generation == 1 then some e else some initialization_failed

  unfoldable pub set_up_at : ℕ → Call W (Unit {0})
  set_up_at generation =
      caught set_up (λ _. pure tt)
        λ error. end_setup >> die ports code (setup_error generation error) none

  -- `#compose()`
  unfoldable pub compose : Call W (Unit {0})
  compose = do renew; s ← get; set_up_at s.generation

  -- `reset()`
  unfoldable pub reset : Call W (Unit {0})
  reset = do
    s ← get
    lift (fail_if s.locked control_busy)
    put (record s { locked = true })
    then_unlock (do compose; t ← get; put (record t { pausing = false }))

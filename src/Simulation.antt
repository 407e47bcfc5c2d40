-- ===== src/Simulation.antt =====
-- packages/kernel/src/simulation.ts: `HeadlessSimulation`. The state of its ports (scheduler,
-- clock, history) is `world`; the bodies of handlers, of tasks and of the boundary hook are `Code`,
-- calls on the simulation. A task is an object that operations keep when it has left `#tasks`:
-- `tasks` has all, `live` those in the map.
pub mod Operations
pub mod Events
pub mod Control
pub mod Ends
pub mod Latch
pub mod Runs
pub mod Boundary
pub mod Refusals
pub mod Settled
use distlab.Base.{
  ℕ, suc, Bool, true, false, not, ◌&&◌, ◌||◌, Option, none, some, List, [], ◌∷◌, ◌++◌, Text, units,
  text_eq, Result, ok, throw, type_error, ◌==◌, if◌then◌else◌,
}
use distlab.Base.Actions.{Action, ◌>>=◌, ◌>>◌, pure, get, put, lift, raise}
use distlab.Base.Dicts.{Dict, find, enter, is_some}
use distlab.Contracts.Errors.{
  ErrorCode, stale_capability, handler_failed, simulation_deadlock, invalid_operation,
}
use distlab.Contracts.Codes.{code_name}
use distlab.Contracts.Events.{ScheduledEvent}
use distlab.Contracts.Observation.{ObservationInput, ObservationSink, observation}
use distlab.Values.{Value, num, str, obj, Fields, field, end, whole}
use distlab.Canonical.{Raw}
use distlab.Identity.{Allocator}
use distlab.Scheduler.{ScheduledHandle}

pub data Status : Type 0 where
  ready running paused completed failed : Status

-- `isError(error) ? error.code : fallback`; none stands for a value that is not a SimulationError.
abbrev pub Thrown : Type 0
Thrown = Option ErrorCode

-- The failure that ends a run. `event_id` and `dispatched_id` stand in its context.
pub record Failure : Type 0 where
  pub code : ErrorCode
  pub event_id : Option Text
  pub dispatched_id : Option Text
  pub rejected : Option Text

-- What `sealFailure` is given.
pub record Seal : Type 0 where
  pub time : ℕ
  pub failure : Failure
  pub history_complete : Bool
  pub last : Option Text

pub record Task : Type 0 where
  pub id : Text
  pub owner : Text
  pub event : ScheduledEvent
  pub waiting : Option Text
  pub created : Option Text
  pub process_generation : Option ℕ

pub record Operation : Type 0 where
  pub task : Text
  pub settled : Bool
  pub wake : Option ScheduledHandle

pub record Simulation (W : Type 0) : Type 0 where
  pub run_id : Text
  pub status : Status
  pub locked : Bool
  pub pausing : Bool
  pub failure : Option Failure
  pub generation : ℕ
  pub total : ℕ
  pub processed : ℕ
  pub active : Option Text
  pub dispatching : Bool
  pub event : Option ScheduledEvent
  pub origin_event : Option ScheduledEvent
  pub tasks : Dict Task
  pub live : List Text
  pub operations : Dict Operation
  pub process_generations : Dict ℕ
  pub handlers : Dict Text
  pub sealed : Bool
  pub initializing : Bool
  pub task_ids : Allocator
  pub operation_ids : Allocator
  pub world : W

abbrev pub Call : Type 0 → Type 0 → Type 0
Call W A = Action (Simulation W) A

-- What a task is resumed with, and what its generator answers: a handle is an object of its attempt.
pub data Resumption : Type 0 where
  starts : Resumption
  succeeds : Value → Resumption
  fails : ErrorCode → Value → Resumption

pub data Yielded : Type 0 where
  finishes promises : Yielded
  yields : ℕ → Text → Yielded
  yields_other : Yielded

-- What a handler returns.
pub data Returned : Type 0 where
  nothing promise task other : Returned

-- The ports. A hook that is absent does nothing.
pub record Ports (W : Type 0) : Type 0 where
  pub take_next : Action W (Option ScheduledEvent)
  pub peek : W → Option ScheduledEvent
  pub size : W → ℕ
  pub now : W → ℕ
  pub advance_to : ℕ → Text → Action W (Unit {0})
  pub resume_sleep : Text → Text → Action W (Unit {0})
  pub cancel : ScheduledHandle → Action W Bool
  pub sink : ObservationSink W
  pub last : W → Option Text
  pub seal_failure : Seal → W → W
  pub flush : W → W
  pub renew : Action W (Dict Text)

-- What is not the simulation's own code; `turn` is what the host does while a run yields to it.
pub record Code (W : Type 0) : Type 0 where
  pub handle : ScheduledEvent → Text → Call W Returned
  pub resume : Task → Resumption → Call W Yielded
  pub initialize : Call W (Unit {0})
  pub after_initialization : Call W (Unit {0})
  pub after_event : ScheduledEvent → Call W (Unit {0})
  pub on_completion : Call W (Unit {0})
  pub on_failure : Failure → Call W (Unit {0})
  pub turn : Simulation W → Simulation W

abbrev pub throw_of : {A : Type 0} → Thrown → Result A
throw_of none = type_error
throw_of (some e) = throw e

-- `try { m } catch`, with what follows either end.
abbrev pub caught :
    {S A B : Type 0} → Action S A → (A → Action S B) → (Thrown → Action S B) → Action S B
caught m f g s = elim (m s).0 [
  | ok a ↦ f a (m s).1
  | throw e ↦ g (some e) (m s).1
  | type_error ↦ g none (m s).1
]

unfoldable pub code_of : Thrown → ErrorCode → ErrorCode
code_of none fallback = fallback
code_of (some e) fallback = e

abbrev pub id_of : Option ScheduledEvent → Option Text
id_of none = none
id_of (some e) = some e.id

abbrev pub first_of : {A : Type 0} → Option A → Option A → Option A
first_of none o = o
first_of (some a) o = some a

-- The failure that `#terminal` makes.
unfoldable pub failure_of :
    Thrown
    → ErrorCode
    → Option Text
    → Option ScheduledEvent
    → Option ScheduledEvent
    → Option ScheduledEvent
    → Failure
failure_of error fallback rejected none origin current = record {
  code = code_of error fallback;
  event_id = none;
  dispatched_id = none;
  rejected = rejected;
}
failure_of error fallback rejected (some e) origin current = record {
  code = code_of error fallback;
  event_id = id_of (first_of origin (some e));
  dispatched_id = id_of (first_of current (some e));
  rejected = rejected;
}

abbrev code_field : Failure → Fields → Fields
code_field f more = field (units "code") (str (code_name f.code)) more

abbrev text_field : Text → Option Text → Fields → Fields
text_field name none more = more
text_field name (some s) more = field name (str s) more

-- The data of `simulation.failed`: the code and the context, whose `cause` stands for every cause.
unfoldable pub failed_data : Failure → Value
failed_data f = obj (
    code_field f (
      field (units "context")
        (obj (
          text_field (units "eventId") f.event_id (
            text_field (units "dispatchedEventId") f.dispatched_id (
              text_field (units "rejectedObservationType") f.rejected
                (field (units "cause") Value.null end)))))
        end))

module _ {W : Type 0} where
  unfoldable pub on_world : {A : Type 0} → Action W A → Call W A
  on_world m s = let (result, w) = m s.world in (result, record s { world = w })

  -- `throw this.#failure`
  unfoldable pub rethrow : {A : Type 0} → Call W A
  rethrow s = elim s.failure [ none ↦ (type_error, s) | some f ↦ (throw f.code, s) ]

  -- `if (this.#failure) throw this.#failure`
  unfoldable pub refuse_failed : Call W (Unit {0})
  refuse_failed s = elim s.failure [ none ↦ (ok tt, s) | some f ↦ (throw f.code, s) ]

  -- `#check(generation)`
  unfoldable pub check : ℕ → Call W (Unit {0})
  check generation s =
      if not (generation == s.generation) then (throw stale_capability, s) else refuse_failed s

module _ {W : Type 0} (ports : Ports W) where
  -- `#record(type, event, data)`
  unfoldable pub note : Text → Option ScheduledEvent → Option Value → Call W (Unit {0})
  note type event content = do
    let bare = observation type (units "simulation") content
    _ ← on_world (ports.sink.observe (record bare { event_id = id_of event }))
    pure tt

  -- The two records of a failure, the first one only with an event.
  unfoldable pub note_failure : Option ScheduledEvent → Failure → Call W (Unit {0})
  note_failure none f = note (units "simulation.failed") none (some (failed_data f))
  note_failure (some e) f = do
    note (units "simulation.event.failed") (some e) (some (obj (code_field f end)))
    note (units "simulation.failed") none (some (failed_data f))

module _ {W : Type 0} (ports : Ports W) (code : Code W) where
  -- `sealFailure` and the hook, whose own failure is dropped.
  unfoldable pub close_history : Failure → Bool → Call W (Unit {0})
  close_history f complete = do
    s ← get
    put (record s {
      world =
          ports.seal_failure
            (record {
              time = ports.now s.world;
              failure = f;
              history_complete = complete;
              last = ports.last s.world;
            })
            s.world;
    })
    caught (code.on_failure f) (λ _. pure tt) (λ _. pure tt)

  -- The rest of `#terminal`, once the failure stands; a rejected observation leaves the history
  -- incomplete.
  unfoldable pub conclude : Option ScheduledEvent → Failure → Call W (Unit {0})
  conclude event f =
      if is_some f.rejected
      then close_history f false
      else caught (note_failure ports event f) (λ _. close_history f true)
          (λ _. close_history f false)

  -- `#terminal(error, event, fallback, rejectedObservationType)`.
  unfoldable pub terminal :
      Thrown → Option ScheduledEvent → ErrorCode → Option Text → Call W (Unit {0})
  terminal error event fallback rejected s = elim s.failure [
    | some f ↦ (ok tt, s)
    | none ↦
        let f = failure_of error fallback rejected event s.origin_event s.event in
        conclude event f (record s { failure = some f; status = failed })
  ]

  -- `#terminal(error, event)`, and then `throw this.#failure`
  unfoldable pub die : {A : Type 0} → Thrown → Option ScheduledEvent → Call W A
  die error event = terminal error event handler_failed none >> rethrow

  -- The catch clause of `#guard(generation, action)`.
  unfoldable pub guard_failed : {A : Type 0} → ℕ → Thrown → Call W A
  guard_failed generation error = do
    s ← get
    (if s.dispatching || generation == s.generation
        then terminal error s.event handler_failed none
        else pure tt)
    t ← get
    if generation == t.generation && is_some t.failure then rethrow else lift (throw_of error)

  -- `#guard(generation, action)`
  unfoldable pub guard : {A : Type 0} → ℕ → Call W A → Call W A
  guard generation action s =
      if generation == s.generation && is_some s.failure
      then rethrow s
      else caught action (λ a. pure a) (guard_failed generation) s

  -- A call of a port through a capability of an attempt, such as the clock and the scheduler of a
  -- handler.
  unfoldable pub port_call : {A : Type 0} → ℕ → Action W A → Call W A
  port_call generation m = guard generation (check generation >> on_world m)

  -- `setup.failTask(code)`
  unfoldable pub fail_task : {A : Type 0} → ℕ → ErrorCode → Call W A
  fail_task generation e = guard generation (raise e)

  -- A sink of the setup: a refused record ends the run.
  unfoldable pub setup_observe : ℕ → ObservationInput → Call W (Unit {0})
  setup_observe generation input = guard generation (
      check generation
      >> caught (on_world (ports.sink.observe input)) (λ _. pure tt)
          λ error. do s ← get; terminal error s.event handler_failed (some input.type); rethrow)

-- ===== src/Simulation/Events.antt =====
-- packages/kernel/src/simulation.ts: the registration of handlers, `#boundary` and `#dispatch`.
use distlab.Base.{
  ℕ, suc, Bool, true, false, not, ◌&&◌, ◌||◌, Option, none, some, List, [], ◌∷◌, ◌++◌, Text, units,
  text_eq, ok, type_error, fail_if, ◌==◌, if◌then◌else◌,
}
use distlab.Base.Actions.{◌>>=◌, ◌>>◌, pure, get, put, lift, raise}
use distlab.Base.Dicts.{find, enter, is_some}
use distlab.Contracts.Errors.{
  invalid_operation, stale_capability, invalid_registration, uncontrolled_async,
  simulation_deadlock,
}
use distlab.Contracts.Events.{ScheduledEvent}
use distlab.Values.{Value, null, num, str, obj, field, end, whole, get_field}
use distlab.Canonical.{embed}
use distlab.Simulation.{
  completed, Call, starts, Returned, nothing, promise, task, other, Ports, Code, caught, throw_of,
  on_world, refuse_failed, check, note, die,
}
use distlab.Simulation.Operations
use distlab.Simulation.Operations.{
  Progress, suspended, success, task_of, write_task, next_task, advance, is_live, complete,
  completed_data,
}

pub record Step : Type 0 where
  pub event_id : Text
  pub time : ℕ
  pub sequence : ℕ
  pub outcome : Progress

abbrev pub wake_type : Text
wake_type = units "kernel.sleep.wake"

unfoldable pub has_prefix : Text → Text → Bool
has_prefix [] s = true
has_prefix (c ∷ cs) [] = false
has_prefix (c ∷ cs) (d ∷ s) = c == d && has_prefix cs s

-- The types that only the kernel's own events have.
unfoldable pub is_reserved : Text → Bool
is_reserved type =
    has_prefix (units "simulation.") type
    || has_prefix (units "scheduler.") type
    || has_prefix (units "clock.") type
    || has_prefix (units "kernel.") type

unfoldable pub operation_of : Value → Option Text
operation_of (obj fs) = elim (get_field (units "operationId") fs) [
  | some (str id) ↦ some id
  | _ ↦ none
]
operation_of _ = none

module _ {W : Type 0} where
  -- `setup.registerHandler(type, owner, handler)`
  unfoldable pub register_handler : ℕ → Text → Text → Call W (Unit {0})
  register_handler generation type owner = do
    check generation
    s ← get
    lift (fail_if (not s.initializing) stale_capability)
    lift (
        fail_if
          (s.sealed
            || text_eq type []
            || text_eq owner []
            || is_reserved type
            || is_some (find type s.handlers))
          invalid_registration)
    put (record s {
      handlers = enter type owner s.handlers;
      process_generations =
          if is_some (find owner s.process_generations)
          then s.process_generations
          else enter owner 0 s.process_generations;
    })

module _ {W : Type 0} (ports : Ports W) (code : Code W) where
  -- The handler of `kernel.sleep.wake`.
  unfoldable pub wake : ScheduledEvent → Text → Call W (Unit {0})
  wake e id = do
    s ← get
    elim (find id s.operations) [
      | none ↦ pure tt
      | some op ↦
          if op.settled || not (is_live op.task s.live)
          then pure tt
          else (on_world (ports.resume_sleep e.id op.task)
              >> complete ports code s.generation id (success (embed null)))
    ]

  -- `entry.handler(event, context)`
  unfoldable pub handle : ScheduledEvent → Text → Call W Returned
  handle e owner =
      if text_eq e.type wake_type
      then elim (operation_of e.payload) [
        | none ↦ pure nothing
        | some id ↦ wake e id >> pure nothing
      ]
      else code.handle e owner

  -- The end of a run, when nothing is pending.
  unfoldable pub complete_run : Call W (Unit {0})
  complete_run = do
    code.on_completion
    s ← get
    note ports (units "simulation.completed") none (
        some (
          obj (
            field (units "time") (num (whole (ports.now s.world)))
              (field (units "eventCount") (num (whole s.total)) end))))
    t ← get
    put (record t { status = completed })

  -- With nothing pending, live tasks are a deadlock, and otherwise the run is complete.
  unfoldable pub close_run : List Text → Call W (Unit {0})
  close_run [] = caught complete_run (λ _. pure tt) (λ error. die ports code error none)
  close_run (_ ∷ _) = die ports code (some simulation_deadlock) none

  -- What `#boundary` does of a run that has not failed.
  unfoldable pub close_at : Call W (Unit {0})
  close_at s = if not (ports.size s.world == 0) then (ok tt, s) else close_run s.live s

  -- `#boundary()`
  unfoldable pub boundary : Call W (Unit {0})
  boundary = refuse_failed >> close_at

  -- A task for the generator that a handler returned; it starts at once.
  unfoldable pub start_task : ScheduledEvent → Text → Call W Progress
  start_task e owner = do
    id ← next_task
    s ← get
    write_task (record {
      id = id;
      owner = owner;
      event = e;
      waiting = none;
      created = none;
      process_generation = find owner s.process_generations;
    })
    t ← get
    put (record t { live = t.live ++ id ∷ [] })
    advance ports code id starts

  -- What the handler returned decides how the event ends.
  unfoldable pub finish_event : ScheduledEvent → Text → Returned → Call W Progress
  finish_event e owner nothing = do
    note ports (units "simulation.event.completed") (some e) (some (completed_data e none))
    pure Operations.completed
  finish_event e owner promise = raise uncontrolled_async
  finish_event e owner task = start_task e owner
  finish_event e owner other = raise invalid_operation

  unfoldable pub owner_of : Text → Call W Text
  owner_of type s = elim (find type s.handlers) [ none ↦ (type_error, s) | some o ↦ (ok o, s) ]

  -- The try block of `#dispatch`.
  unfoldable pub run_event : ScheduledEvent → Call W Step
  run_event e = do
    on_world (ports.advance_to e.time e.id)
    note ports (units "simulation.event.started") (some e) (some (completed_data e none))
    owner ← owner_of e.type
    returned ← handle e owner
    refuse_failed
    outcome ← finish_event e owner returned
    s ← get
    put (record s { total = suc s.total })
    code.after_event e
    boundary
    pure (record { event_id = e.id; time = e.time; sequence = e.sequence; outcome = outcome })

  -- The finally block of `#dispatch`.
  unfoldable pub leave_event : Call W (Unit {0})
  leave_event s = (ok tt, record s { event = none; dispatching = false })

  -- With its catch block.
  unfoldable pub try_event : ScheduledEvent → Call W (Option Step)
  try_event e = caught (run_event e) (λ x. pure (some x)) (λ error. die ports code error (some e))

  unfoldable pub dispatch_event : ScheduledEvent → Call W (Option Step)
  dispatch_event e s =
      caught (try_event e) (λ x. leave_event >> pure x)
        (λ error. leave_event >> lift (throw_of error))
        (record s { processed = suc s.processed; event = some e; dispatching = true })

  unfoldable pub dispatch_found : Option ScheduledEvent → Call W (Option Step)
  dispatch_found none = boundary >> pure none
  dispatch_found (some e) = dispatch_event e

  -- `#dispatch()`
  unfoldable pub dispatch : Call W (Option Step)
  dispatch = do
    s ← get
    caught (on_world ports.take_next) dispatch_found
        (λ error. die ports code error (ports.peek s.world))

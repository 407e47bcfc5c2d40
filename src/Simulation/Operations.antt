-- ===== src/Simulation/Operations.antt =====
-- packages/kernel/src/simulation.ts: `#advance`, the controller of operations and the life cycle of
-- tasks.
use distlab.Base.{
  ℕ, suc, Bool, true, false, not, ◌&&◌, ◌||◌, Option, none, some, List, [], ◌∷◌, Text, units,
  text_eq, Result, ok, throw, type_error, or_fail, bind, fail_if, ◌==◌, if◌then◌else◌,
}
use distlab.Base.Actions.{◌>>=◌, ◌>>◌, pure, get, put, lift, raise}
use distlab.Base.Dicts.{find, enter, is_some}
use distlab.Contracts.Errors.{
  ErrorCode, invalid_operation, identity_overflow, uncontrolled_async, unawaited_operation,
}
use distlab.Contracts.Events.{ScheduledEvent}
use distlab.Values.{Value, num, str, obj, field, end, whole, max_safe, is_safe}
use distlab.Canonical.{Raw, canonical_copy}
use distlab.Identity.{allocate}
use distlab.Simulation.{
  throw_of, Task, Operation, Call, Resumption, succeeds, fails, Yielded, finishes, promises, yields,
  yields_other, Ports, Code, caught, on_world, refuse_failed, check, note, die, guard,
}

-- What an operation is completed with; other is a value of neither kind or without a code.
pub data Outcome : Type 0 where
  success : Raw → Outcome
  failure : ErrorCode → Raw → Outcome
  unknown : Outcome

pub data Progress : Type 0 where
  completed suspended : Progress

-- `task.waiting === id`
unfoldable pub is_text : Text → Option Text → Bool
is_text id none = false
is_text id (some other) = text_eq other id

-- The copy of an outcome, with which its task goes on.
unfoldable pub read_outcome : Outcome → Result Resumption
read_outcome (success v) = or_fail (bind (canonical_copy v) λ c. ok (succeeds c)) invalid_operation
read_outcome (failure e v) = or_fail (bind (canonical_copy v) λ c. ok (fails e c)) invalid_operation
read_outcome unknown = throw invalid_operation

unfoldable pub keep_live : Text → List Text → List Text
keep_live id [] = []
keep_live id (t ∷ ts) = let rest = keep_live id ts in if text_eq t id then rest else t ∷ rest

unfoldable pub is_live : Text → List Text → Bool
is_live id [] = false
is_live id (t ∷ ts) = text_eq t id || is_live id ts

-- Whether the value is the open handle of the operation that the task created.
unfoldable pub is_handle : Yielded → ℕ → Text → Operation → Bool
is_handle (yields made id) generation created op =
    made == generation && text_eq id created && not op.settled
is_handle _ generation created op = false

-- Whether a process generation is the present one of its owner.
unfoldable pub is_present : ℕ → Option ℕ → Bool
is_present generation none = false
is_present generation (some g) = g == generation

unfoldable pub completed_data : ScheduledEvent → Option Text → Value
completed_data e task = obj (
    field (units "type") (str e.type) (
      field (units "time") (num (whole e.time)) (
        field (units "sequence") (num (whole e.sequence))
          (elim task [ none ↦ end | some id ↦ field (units "taskId") (str id) end ]))))

unfoldable pub operation_or_fail : Option Operation → Result Operation
operation_or_fail none = throw invalid_operation
operation_or_fail (some op) = ok op

module _ {W : Type 0} where
  -- A task, read through its object.
  unfoldable pub task_of : Text → Call W Task
  task_of id s = elim (find id s.tasks) [ none ↦ (type_error, s) | some t ↦ (ok t, s) ]

  unfoldable pub write_task : Task → Call W (Unit {0})
  write_task t s = (ok tt, record s { tasks = enter t.id t s.tasks })

  unfoldable pub next_operation : Call W Text
  next_operation s = let (r, a) = allocate s.operation_ids in (r, record s { operation_ids = a })

  unfoldable pub next_task : Call W Text
  next_task s = let (r, a) = allocate s.task_ids in (r, record s { task_ids = a })

  -- `operation.settled = true`, of an operation that stands
  unfoldable pub settle : Text → Call W (Unit {0})
  settle id s = elim (find id s.operations) [
    | none ↦ (ok tt, s)
    | some op ↦
        (ok tt, record s { operations = enter id (record op { settled = true }) s.operations })
  ]

  -- The task that may create an operation: the active one, with none that it did not await.
  unfoldable pub creator : Call W Task
  creator = do
    s ← get
    id ← lift (elim s.active [ none ↦ throw invalid_operation | some id ↦ ok id ])
    t ← task_of id
    lift (fail_if (is_some t.created || is_some t.waiting) invalid_operation)
    pure t

  -- `operations.create()`, below the guard
  unfoldable pub create_checked : ℕ → Call W Text
  create_checked generation = do
    check generation
    t ← creator
    id ← next_operation
    write_task (record t { created = some id })
    s ← get
    put (record s {
      operations = enter id (record { task = t.id; settled = false; wake = none }) s.operations;
    })
    pure id

  -- The rest of `complete`, of a task that waits for the operation.
  unfoldable pub settle_for :
      Text → Operation → Task → Outcome → Call W (Option (Text × Resumption))
  settle_for id op t outcome = do
    lift (fail_if (not (is_text id t.waiting)) invalid_operation)
    r ← lift (read_outcome outcome)
    settle id
    write_task (record t { waiting = none })
    pure (some (op.task, r))

  -- An operation that is settled, or whose task has left, is let be.
  unfoldable pub resume_for : Text → Operation → Outcome → Call W (Option (Text × Resumption))
  resume_for id op outcome s =
      if op.settled || not (is_live op.task s.live)
      then (ok none, s)
      else (task_of op.task >>= λ t. settle_for id op t outcome) s

  -- `operations.complete(id, outcome)` below the guard, up to the task that goes on, if one does
  unfoldable pub complete_checked : ℕ → Text → Outcome → Call W (Option (Text × Resumption))
  complete_checked generation id outcome = do
    check generation
    s ← get
    lift (fail_if (not s.dispatching) invalid_operation)
    op ← lift (operation_or_fail (find id s.operations))
    resume_for id op outcome

module _ {W : Type 0} (ports : Ports W) (code : Code W) where
  -- What the generator of a task answered, when it has finished.
  unfoldable pub finish : Text → Call W Progress
  finish id = do
    t ← task_of id
    lift (fail_if (is_some t.created) unawaited_operation)
    s ← get
    put (record s { live = keep_live id s.live })
    note ports (units "simulation.event.completed") (some t.event)
        (some (completed_data t.event (some id)))
    pure completed

  -- The operation that the task created, and its handle.
  unfoldable pub awaited : Yielded → Option Text → Call W Text
  awaited y none = raise invalid_operation
  awaited y (some id) = λ s. elim (find id s.operations) [
    | none ↦ (throw invalid_operation, s)
    | some op ↦ if is_handle y s.generation id op then (ok id, s) else (throw invalid_operation, s)
  ]

  unfoldable pub suspend : Text → Yielded → Call W Progress
  suspend id y = do
    t ← task_of id
    operation ← awaited y t.created
    write_task (record t { waiting = some operation; created = none })
    note ports (units "simulation.event.suspended") (some t.event)
        (some (obj (field (units "taskId") (str id) end)))
    pure suspended

  unfoldable pub answer : Text → Yielded → Call W Progress
  answer id finishes = finish id
  answer id promises = raise uncontrolled_async
  answer id (yields generation operation) = suspend id (yields generation operation)
  answer id yields_other = suspend id yields_other

  -- The try block of `#advance`.
  unfoldable pub run_task : Text → Resumption → Call W Progress
  run_task id r = do
    t ← task_of id
    s ← get
    put (record s { active = some id; origin_event = some t.event })
    y ← code.resume t r
    refuse_failed
    answer id y

  -- Its finally block.
  unfoldable pub rest : Call W (Unit {0})
  rest s = (ok tt, record s { active = none; origin_event = none })

  -- `#advance(task, value, failure)`
  unfoldable pub advance : Text → Resumption → Call W Progress
  advance id r =
      caught
        (caught (run_task id r) (λ p. pure p) (λ error. get >>= λ s. die ports code error s.event))
        (λ p. rest >> pure p) (λ error. rest >> lift (throw_of error))

  -- `operations.create()`
  unfoldable pub create_operation : ℕ → Call W Text
  create_operation generation = guard ports code generation (create_checked generation)

  -- The task that an outcome wakes, if there is one, goes on.
  unfoldable pub go_on : Option (Text × Resumption) → Call W (Unit {0})
  go_on none = pure tt
  go_on (some (id, r)) = advance id r >>= λ _. pure tt

  -- `operations.complete(id, outcome)`
  unfoldable pub complete : ℕ → Text → Outcome → Call W (Unit {0})
  complete generation id outcome =
      guard ports code generation (complete_checked generation id outcome >>= go_on)

  -- `operation.settled = true; operation.wake?.cancel()`
  unfoldable pub drop_operation : Option Text → Call W (Unit {0})
  drop_operation none = pure tt
  drop_operation (some id) = do
    s ← get
    settle id
    elim (find id s.operations) [
      | none ↦ pure tt
      | some op ↦ elim op.wake [
        | none ↦ pure tt
        | some h ↦ on_world (ports.cancel h) >>= λ _. pure tt
      ]
    ]

  unfoldable pub drop_task : Task → Call W (Unit {0})
  drop_task t = do
    s ← get
    put (record s { live = keep_live t.id s.live })
    drop_operation t.created
    drop_operation t.waiting

  unfoldable pub abandon_task : Text → ℕ → Text → Call W (Unit {0})
  abandon_task owner generation id = do
    t ← task_of id
    if text_eq t.owner owner && is_present generation t.process_generation
        then drop_task t
        else pure tt

  unfoldable pub abandon_all : Text → ℕ → List Text → Call W (Unit {0})
  abandon_all owner generation [] = pure tt
  abandon_all owner generation (id ∷ ids) =
      abandon_task owner generation id >> abandon_all owner generation ids

  -- `taskLifecycle.abandon(owner, processGeneration)`
  unfoldable pub abandon : ℕ → Text → ℕ → Call W (Unit {0})
  abandon generation owner process = guard ports code generation (do
    check generation
    s ← get
    lift (
        fail_if
          (not s.dispatching
            || text_eq owner []
            || not (is_safe process)
            || not (is_present process (find owner s.process_generations)))
          invalid_operation)
    lift (fail_if (process == max_safe) identity_overflow)
    abandon_all owner process s.live
    t ← get
    put (record t { process_generations = enter owner (suc process) t.process_generations }))

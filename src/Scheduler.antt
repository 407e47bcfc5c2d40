-- ===== src/Scheduler.antt =====
-- packages/kernel/src/scheduler.ts: `DeterministicScheduler`. The calls take the time that the clock
-- shows, and the state of the observation sink stands in `log`.
pub mod Heap
pub mod Validate
pub mod Capability
pub mod Restore
pub mod Restored
pub mod Reach
pub mod Confined
pub mod Sound
pub mod Calls
pub mod Invariant
pub mod Sorting
pub mod Dispatch
pub mod Drain
use distlab.Base.{
  ℕ, suc, ◌+◌, Bool, true, false, not, ◌&&◌, ◌||◌, Option, none, some, List, [], ◌∷◌, ◌++◌, length,
  get_elem?, Text, units, text_eq, decimal, Result, ok, throw, bind, or_fail, ltb, leb, ◌==◌,
  if◌then◌else◌,
}
use distlab.Base.Actions.{Action, and_then, ◌>>=◌, ◌>>◌, pure, get, put, lift, raise}
use distlab.Contracts.Errors.{
  ErrorCode, sequence_overflow, stale_capability, invalid_event_type, invalid_run_input,
}
use distlab.Contracts.Events.{ScheduleMetadata, EventDraft, ScheduledEvent}
use distlab.Contracts.Observation.{ObservationInput, ObservationSink, Observation, observation}
use distlab.Values.{
  Number, whole, Value, str, num, obj, arr, Items, nil, cons, Fields, field, end, get_field,
  is_safe, max_safe, keys_within, includes,
}
use distlab.Canonical.{Raw, canonical_copy, embed}
use Heap.{EventHeap, empty_heap, insert, remove, at_most}
use Validate.{Handlers, validate, draft_keys}

pub record Scheduler (Log : Type 0) : Type 0 where
  pub run_id : Text
  pub heap : EventHeap
  pub next : ℕ
  pub generation : ℕ
  pub pristine : Bool
  pub log : Log

-- `event:${runId}:${sequence}`
unfoldable pub event_id : Text → ℕ → Text
event_id run sequence = units "event:" ++ (run ++ (units ":" ++ decimal sequence))

pub record ScheduledHandle : Type 0 where
  pub event_id : Text
  pub due_time : ℕ
  pub generation : ℕ

abbrev pub event_data : ScheduledEvent → Value
event_data event = obj (
    field (units "type") (str event.type) (
      field (units "dueTime") (num (whole event.time))
        (field (units "sequence") (num (whole event.sequence)) end)))

-- `scheduler.event.cancelled` and `scheduler.event.dispatched`
abbrev pub plain_observation : Text → ScheduledEvent → ObservationInput
plain_observation type event =
    let bare = observation type (units "simulation") (some (event_data event)) in
    record bare { event_id = some event.id }

abbrev pub scheduled_observation : ScheduledEvent → ObservationInput
scheduled_observation event =
    let bare = plain_observation (units "scheduler.event.scheduled") event in
    record bare {
      trace_id = event.trace_id;
      span_id = event.span_id;
      parent_span_id = event.parent_span_id;
      causation_id = event.causation_id;
    }

-- `[...heap].sort(compare)`
unfoldable pub insert_sorted : ScheduledEvent → List ScheduledEvent → List ScheduledEvent
insert_sorted event [] = event ∷ []
insert_sorted event (e ∷ es) =
    let later = e ∷ insert_sorted event es in if at_most event e then event ∷ e ∷ es else later

unfoldable pub sort : List ScheduledEvent → List ScheduledEvent
unfolding insert_sorted
sort [] = []
sort (e ∷ es) = insert_sorted e (sort es)

module _ {Log : Type 0} (sink : ObservationSink Log) where
  -- `observations.record(input)`
  unfoldable pub observe : ObservationInput → Action (Scheduler Log) (Unit {0})
  observe input s =
      let (result, log) = sink.observe input s.log in
      (bind result (λ _. ok tt), record s { log = log })

  -- What a draft that passed its checks becomes.
  unfoldable pub enqueue : EventDraft → Action (Scheduler Log) ScheduledHandle
  unfolding observe
  enqueue draft = do
    s ← get
    if leb max_safe s.next then raise sequence_overflow else pure tt
    put (record s { next = suc s.next })
    let event : ScheduledEvent = record {
      draft = draft;
      id = event_id s.run_id s.next;
      sequence = s.next;
    }
    heap ← lift (insert event s.heap)
    put (record s { next = suc s.next; heap = heap; pristine = false })
    observe (scheduled_observation event)
    pure (record { event_id = event.id; due_time = event.time; generation = s.generation })

  unfoldable pub schedule : Handlers → ℕ → Raw → Action (Scheduler Log) ScheduledHandle
  unfolding enqueue
  schedule handlers now draft = lift (validate handlers now draft) >>= enqueue

  -- `#remove(position)` and the record of it.
  unfoldable pub take_at : Text → ℕ → Action (Scheduler Log) ScheduledEvent
  unfolding observe
  take_at type index = do
    s ← get
    (event, heap) ← lift (remove index s.heap)
    put (record s { heap = heap })
    observe (plain_observation type event)
    pure event

  unfoldable pub cancel : Text → Action (Scheduler Log) Bool
  unfolding take_at
  cancel id s = elim (s.heap.positions id) [
    | none ↦ (ok false, s)
    | some index ↦ (take_at (units "scheduler.event.cancelled") index >>= λ _. pure true) s
  ]

  -- `handle.cancel()`
  unfoldable pub cancel_handle : ScheduledHandle → Action (Scheduler Log) Bool
  unfolding cancel
  cancel_handle handle s =
      if handle.generation == s.generation
      then cancel handle.event_id s
      else (throw stale_capability, s)

  unfoldable pub take_next : Action (Scheduler Log) (Option ScheduledEvent)
  unfolding take_at
  take_next s =
      if length s.heap.items == 0
      then (ok none, s)
      else (take_at (units "scheduler.event.dispatched") 0 >>= λ event. pure (some event)) s

module _ {Log : Type 0} where
  unfoldable pub peek : Scheduler Log → Option ScheduledEvent
  peek s = get_elem? s.heap.items 0

  -- `pending()` shows these events without their payloads.
  unfoldable pub pending : Scheduler Log → List ScheduledEvent
  pending s = sort s.heap.items

  unfoldable pub size : Scheduler Log → ℕ
  size s = length s.heap.items

  unfoldable pub reset : Scheduler Log → Scheduler Log
  reset s = record s { heap = empty_heap; next = 0; generation = suc s.generation; pristine = true }

-- The constructor.
unfoldable pub create : {Log : Type 0} → Text → Log → Result (Scheduler Log)
create [] log = throw invalid_run_input
create (c ∷ run) log = ok (record {
  run_id = c ∷ run;
  heap = empty_heap;
  next = 0;
  generation = 0;
  pristine = true;
  log = log;
})

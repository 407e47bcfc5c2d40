-- ===== src/Scheduler/Restore.antt =====
-- packages/kernel/src/scheduler.ts: `exportState` and `restore`.
use distlab.Base.{
  ℕ, suc, Bool, true, false, not, ◌||◌, Option, some, List, [], ◌∷◌, Text, units, text_eq, Result,
  ok, throw, type_error, fail_if, or_fail, ◌>>=◌, ◌>>◌, ltb, ◌==◌, if◌then◌else◌,
}
use distlab.Contracts.Errors.{invalid_scheduler_state}
use distlab.Contracts.Events.{ScheduledEvent}
use distlab.Values.{
  Value, num, str, arr, obj, whole, Items, nil, cons, get_field, without, is_safe, keys_within,
  includes,
}
use distlab.Canonical.{Raw, canonical_copy, embed}
use distlab.Scheduler.{Scheduler, event_id, sort}
use distlab.Scheduler.Validate.{Handlers, validate, draft_keys}
use distlab.Scheduler.Heap.{EventHeap, empty_heap, insert}

pub record SchedulerState : Type 0 where
  pub run_id : Text
  pub next_sequence : ℕ
  pub pending : List ScheduledEvent

unfoldable pub export_state : {Log : Type 0} → Scheduler Log → SchedulerState
export_state s = record { run_id = s.run_id; next_sequence = s.next; pending = sort s.heap.items }

-- `sequences.has(n)`
unfoldable pub has_number : List ℕ → ℕ → Bool
has_number [] n = false
has_number (m ∷ ms) n = if m == n then true else has_number ms n

-- A number that passes `Number.isSafeInteger(n) && n >= 0`.
unfoldable pub sequence_of : Option Value → Result ℕ
sequence_of (some (num (whole n))) = if is_safe n then ok n else throw invalid_scheduler_state
sequence_of _ = throw invalid_scheduler_state

unfoldable pub text_of : Option Value → Result Text
text_of (some (str t)) = ok t
text_of _ = throw invalid_scheduler_state

abbrev pub event_keys : List Text
event_keys = units "id" ∷ units "sequence" ∷ draft_keys

-- What the loop of `restore` has seen.
pub record Seen : Type 0 where
  pub ids : List Text
  pub sequences : List ℕ

module _ (handlers : Handlers) (now : ℕ) (run : Text) (next : ℕ) where
  -- One round of the loop: the event, if it may stand behind those that were seen.
  unfoldable pub restore_event : Seen → Value → Result ScheduledEvent
  unfolding sequence_of text_of
  restore_event seen (obj fs) = do
    draft ←
        or_fail
          (validate handlers now
            (embed (obj (without (units "id") (without (units "sequence") fs)))))
          invalid_scheduler_state
    sequence ← sequence_of (get_field (units "sequence") fs)
    fail_if (not (ltb sequence next)) invalid_scheduler_state
    id ← text_of (get_field (units "id") fs)
    fail_if (not (text_eq id (event_id run sequence))) invalid_scheduler_state
    fail_if (includes seen.ids id || has_number seen.sequences sequence) invalid_scheduler_state
    fail_if (not (keys_within event_keys fs)) invalid_scheduler_state
    ok (record { draft = draft; id = id; sequence = sequence })
  restore_event seen _ = throw invalid_scheduler_state

  unfoldable pub restore_events : Seen → Items → Result (List ScheduledEvent)
  restore_events seen nil = ok []
  restore_events seen (cons v items) = restore_event seen v >>= λ event.
      restore_events
        (record { ids = event.id ∷ seen.ids; sequences = event.sequence ∷ seen.sequences }) items
      >>= λ events. ok (event ∷ events)

unfoldable pub insert_all : List ScheduledEvent → EventHeap → Result EventHeap
insert_all [] heap = ok heap
insert_all (event ∷ events) heap = insert event heap >>= insert_all events

unfoldable pub read_pending : Handlers → ℕ → Text → ℕ → Option Value → Result (List ScheduledEvent)
unfolding restore_events restore_event
read_pending handlers now run next (some (arr items)) =
    restore_events handlers now run next (record { ids = []; sequences = [] }) items
read_pending handlers now run next _ = throw invalid_scheduler_state

-- The checked contents of a state: the next number and the events.
unfoldable pub read_state : Handlers → ℕ → Text → Value → Result (ℕ × List ScheduledEvent)
unfolding read_pending
read_state handlers now run (obj fs) = do
  owner ← text_of (get_field (units "runId") fs)
  fail_if (not (text_eq owner run)) invalid_scheduler_state
  next ← sequence_of (get_field (units "nextSequence") fs)
  events ← read_pending handlers now run next (get_field (units "pending") fs)
  ok (next, events)
read_state handlers now run _ = throw invalid_scheduler_state

unfoldable pub read_raw : Handlers → ℕ → Text → Raw → Result (ℕ × List ScheduledEvent)
unfolding read_state
read_raw handlers now run state =
    or_fail (canonical_copy state) invalid_scheduler_state >>= read_state handlers now run

module _ {Log : Type 0} where
  -- The checked state takes the place of the old one.
  unfoldable pub replace :
      ℕ → List ScheduledEvent → Scheduler Log → Result (Unit {0}) × Scheduler Log
  unfolding insert_all
  replace next events s = elim (insert_all events empty_heap) [
    | ok heap ↦ (
      ok tt,
      record s { heap = heap; next = next; generation = suc s.generation; pristine = false },
    )
    | throw e ↦ (throw e, record s { heap = empty_heap; next = next })
    | type_error ↦ (type_error, record s { heap = empty_heap; next = next })
  ]

  unfoldable pub restore : Handlers → ℕ → Raw → Scheduler Log → Result (Unit {0}) × Scheduler Log
  unfolding read_raw replace
  restore handlers now state s =
      if s.pristine
      then elim (read_raw handlers now s.run_id state) [
        | ok (next, events) ↦ replace next events s
        | throw e ↦ (throw e, s)
        | type_error ↦ (type_error, s)
      ]
      else (throw invalid_scheduler_state, s)

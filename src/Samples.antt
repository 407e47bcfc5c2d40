-- ===== src/Samples.antt =====
-- Concrete inputs: a history that keeps every record, one registered handler and a few drafts.
use distlab.Base.{
  ℕ, refl, true, none, some, List, [], ◌∷◌, length, Text, units, text_eq, ok, if◌then◌else◌, arith,
}
use distlab.Contracts.Observation.{ObservationInput, Observation, ObservationSink}
use distlab.Contracts.Events.{EventDraft}
use distlab.Values.{Value, str, num, obj, whole, Fields, field, end}
use distlab.Canonical.{Raw, embed}
use distlab.Scheduler.{Scheduler, enqueue}
use distlab.Scheduler.Heap.{empty_heap}
use distlab.Scheduler.Validate.{Handlers}
use distlab.Scheduler.Sound.{IsSound}
use distlab.Scheduler.Drain.{Accepts}
use distlab.Scheduler.Invariant.{enqueue-IsSound, empty-IsSound}
use mathlib.Core.List.{not-mem-nil}
use distlab.Clock.{Timeline}
use distlab.Clock.Timely.{IsTimely, enqueue-IsTimely}

abbrev pub Records : Type 0
Records = List ObservationInput

abbrev pub recorded : ObservationInput → Records → Observation
recorded input log = record { input = input; id = units "o"; time = 0; sequence = length log }

abbrev pub keeping : ObservationSink Records
keeping = record { observe = λ input log. (ok (recorded input log), input ∷ log) }

pub keeping-Accepts : Accepts keeping
keeping-Accepts input log = (recorded input log, refl)

abbrev pub shop : Text
shop = units "shop"

-- The one type of event that has a handler.
abbrev pub order_placed : Text
order_placed = units "placed"

abbrev pub handlers : Handlers
handlers type = if text_eq type order_placed then some shop else none

abbrev pub fresh : Scheduler Records
fresh = record {
  run_id = units "r1";
  heap = empty_heap;
  next = 0;
  generation = 0;
  pristine = true;
  log = [];
}

abbrev pub draft_fields : ℕ → Fields
draft_fields time =
    field (units "time") (num (whole time))
      (field (units "type") (str order_placed) (field (units "payload") Value.null end))

abbrev pub raw_draft : ℕ → Raw
raw_draft time = embed (obj (draft_fields time))

abbrev pub draft : ℕ → EventDraft
draft time = record {
  metadata = record {
    source = none;
    target = none;
    trace_id = none;
    span_id = none;
    parent_span_id = none;
    causation_id = none;
  };
  time = time;
  type = order_placed;
  payload = Value.null;
}

-- Three events that were queued out of order.
unfoldable pub queued : Scheduler Records
queued =
    (enqueue keeping (draft 5) (enqueue keeping (draft 3) (enqueue keeping (draft 7) fresh).1).1).1

pub queued-IsSound : IsSound queued
unfolding queued
queued-IsSound = enqueue-IsSound keeping (draft 5) _ (
    enqueue-IsSound keeping (draft 3) _
      (enqueue-IsSound keeping (draft 7) fresh (empty-IsSound fresh refl (omega arith))))

abbrev pub timeline : Timeline Records
timeline = record {
  clock = record { time = 2; generation = 0; start_time = whole 0 };
  scheduler = queued;
}

fresh-IsTimely : IsTimely (record timeline { scheduler = fresh })
fresh-IsTimely = record {
  sound = empty-IsSound fresh refl (omega arith);
  bounded = omega arith;
  punctual = λ e m. absurd (not-mem-nil m);
}

pub timeline-IsTimely : IsTimely timeline
unfolding queued
timeline-IsTimely =
    enqueue-IsTimely keeping handlers (draft 5) _
      (enqueue-IsTimely keeping handlers (draft 3) _
        (enqueue-IsTimely keeping handlers (draft 7) _ fresh-IsTimely (omega arith) (omega arith))
        (omega arith) (omega arith))
      (omega arith) (omega arith)

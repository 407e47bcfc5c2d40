-- ===== src/Examples/Drafts.antt =====
-- Drafts, restored states and moves of the clock on small inputs.
use distlab.Base.{
  ℕ, ◌≤◌, ◌<◌, ◌≡◌, refl, false, ◌⊎◌, ◌+◌, inl, inr, none, some, [], ◌∷◌, Text, units, text_eq,
  Result, ok, throw, arith, Option,
}
use distlab.Contracts.Errors.{time_overflow, invalid_duration}
use distlab.Contracts.Events.{EventDraft}
use distlab.Values.{
  Value, num, str, arr, obj, Items, nil, cons, Number, whole, Fields, field, end, max_safe,
  is_nonnegative, is_safe, get_field, keys_within, includes, simulation_time, put_field,
}
use distlab.Values
use distlab.Canonical.{Raw, embed, canonical_copy}
use distlab.Canonical.RoundTrip.{is_canonical, canonical_copy-embed}
use distlab.Base
use distlab.Scheduler
use distlab.Scheduler.{Scheduler, ScheduledHandle, enqueue, event_id, size}
use distlab.Scheduler.Heap
use distlab.Scheduler.Validate
use distlab.Scheduler.Validate.{validate_copy, validate}
use distlab.Scheduler.Restore
use distlab.Scheduler.Capability
use distlab.Scheduler.Capability.{OwnerScheduler, owner_schedule}
use distlab.Scheduler.Confined.{
  IsValid, IsConfined, validate_copy-IsValid, owner_schedule-IsConfined,
}
use distlab.Clock.{add_duration}
use distlab.Clock.Bounds.{add_duration_lem}
use distlab.Clock.Timely.{next_event, IsTimely, Moves, next_event-IsTimely, next_event-Moves}
use distlab.Samples.{
  keeping, keeping-Accepts, handlers, shop, order_placed, fresh, queued, timeline,
  timeline-IsTimely, draft, draft_fields, raw_draft,
}

valid : validate_copy handlers 2 (obj (draft_fields 3)) ≡ ok (draft 3)
unfolding validate_copy Validate.metadata_of Validate.time_of Validate.type_of Validate.or_throw
    Values.keys_within includes text_eq get_field simulation_time Validate.metadata_field
valid = refl

validate_copy-IsValid_example : IsValid handlers 2 (draft_fields 3) (draft 3)
validate_copy-IsValid_example = validate_copy-IsValid handlers 2 (draft_fields 3) (draft 3) valid

canonical_copy-embed_example :
    canonical_copy (embed (obj (draft_fields 3))) ≡ ok (obj (draft_fields 3))
unfolding is_canonical
canonical_copy-embed_example = canonical_copy-embed (obj (draft_fields 3)) refl

abbrev capability : OwnerScheduler
capability = record { owner = shop; allowed = text_eq order_placed; generation = 0 }

abbrev issued : ScheduledHandle
issued = record { event_id = event_id (units "r1") 0; due_time = 3; generation = 0 }

owned : (owner_schedule keeping capability handlers 2 (raw_draft 3) fresh).0 ≡ ok issued
unfolding owner_schedule enqueue Capability.own_draft Scheduler.schedule Validate.validate_copy
    canonical_copy embed get_field text_eq validate put_field keys_within includes simulation_time
    Heap.insert
owned = refl

owner_schedule-IsConfined_example :
    (◌≡◌ {A = ℕ} 0 0)
    × (d : EventDraft) × IsConfined capability 2 d
    × (owner_schedule keeping capability handlers 2 (raw_draft 3) fresh ≡ enqueue keeping d fresh)
owner_schedule-IsConfined_example =
    owner_schedule-IsConfined handlers 2 capability (λ e. cc) keeping (raw_draft 3) fresh issued
      owned

abbrev saved_event : Value
saved_event = obj (
    field (units "id") (str (event_id (units "r1") 1))
      (field (units "sequence") (num (whole 1)) (draft_fields 3)))

abbrev saved : Raw
saved = embed (
    obj (
      field (units "runId") (str (units "r1")) (
        field (units "nextSequence") (num (whole 4))
          (field (units "pending") (arr (cons saved_event nil)) end))))

add_duration_lem_example :
    ((d : ℕ) × (whole 3 ≡ whole d) × (5 + d ≤ max_safe) × (add_duration 5 (whole 3) ≡ ok (5 + d)))
    ⊎ (((d : ℕ) × (whole 3 ≡ whole d)
          × (d ≤ max_safe)
          × (max_safe < 5 + d)
          × (add_duration 5 (whole 3) ≡ throw time_overflow))
        ⊎ ((is_nonnegative (whole 3) ≡ false)
            × (add_duration 5 (whole 3) ≡ throw invalid_duration)))
add_duration_lem_example = add_duration_lem 5 (whole 3) (omega arith)

some_queued : size timeline.scheduler ≡ 3
unfolding size queued enqueue Heap.insert Heap.up Heap.up_loop Heap.swap Scheduler.observe
some_queued = refl

next_event-IsTimely_example : IsTimely (next_event keeping handlers timeline).1
next_event-IsTimely_example = next_event-IsTimely keeping handlers timeline timeline-IsTimely

next_event-Moves_example : Moves keeping handlers timeline (next_event keeping handlers timeline)
next_event-Moves_example =
    next_event-Moves keeping handlers keeping-Accepts timeline timeline-IsTimely
      (omega (arith, some_queued))

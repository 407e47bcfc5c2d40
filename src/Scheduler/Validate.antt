-- ===== src/Scheduler/Validate.antt =====
-- packages/kernel/src/scheduler.ts: `#validate`, the checks on a draft before it is queued.
use distlab.Base.{
  ℕ, Bool, true, false, not, ◌&&◌, ◌||◌, Option, none, some, List, [], ◌∷◌, Text, units, text_eq,
  Result, ok, throw, ◌>>=◌, ◌>>◌, fail_if, or_fail, ltb,
}
use distlab.Contracts.Errors.{
  ErrorCode, invalid_event_payload, invalid_simulation_time, event_in_past, invalid_event_type,
}
use distlab.Contracts.Events.{ScheduleMetadata, EventDraft}
use distlab.Values.{Value, num, obj, Fields, get_field, keys_within, identifier, simulation_time}
use distlab.Canonical.{Raw, canonical_copy}

-- The sealed registry: the component that may handle a type of event.
abbrev pub Handlers : Type 0
Handlers = Text → Option Text

abbrev pub metadata_keys : List Text
metadata_keys =
    units "source"
    ∷ units "target"
    ∷ units "traceId"
    ∷ units "spanId"
    ∷ units "parentSpanId"
    ∷ units "causationId"
    ∷ []

abbrev pub draft_keys : List Text
draft_keys = units "time" ∷ units "type" ∷ units "payload" ∷ metadata_keys

-- An optional field holds an identifier.
unfoldable pub metadata_field : Fields → Text → Result (Option Text)
metadata_field fs key = elim (get_field key fs) [
  | none ↦ ok none
  | some v ↦ elim (identifier v) [ none ↦ throw invalid_event_payload | some t ↦ ok (some t) ]
]

unfoldable pub metadata_of : Fields → Result ScheduleMetadata
unfolding metadata_field
metadata_of fs = do
  source ← metadata_field fs (units "source")
  target ← metadata_field fs (units "target")
  trace_id ← metadata_field fs (units "traceId")
  span_id ← metadata_field fs (units "spanId")
  parent_span_id ← metadata_field fs (units "parentSpanId")
  causation_id ← metadata_field fs (units "causationId")
  ok (record {
    source = source;
    target = target;
    trace_id = trace_id;
    span_id = span_id;
    parent_span_id = parent_span_id;
    causation_id = causation_id;
  })

abbrev pub is_some {ℓ} : {A : Type ℓ} → Option A → Bool
is_some none = false
is_some (some _) = true

-- A span without its trace, or a parent span without its span.
abbrev pub is_uncorrelated : ScheduleMetadata → Bool
is_uncorrelated m =
    (is_some m.span_id && not (is_some m.trace_id))
    || (is_some m.parent_span_id && (not (is_some m.span_id) || not (is_some m.trace_id)))

-- `simulationTime(copy.time)`
unfoldable pub time_of : Option Value → Result ℕ
time_of (some (num n)) = simulation_time n
time_of _ = throw invalid_simulation_time

-- The type, if it is an identifier that has a handler, and the handler's owner.
unfoldable pub type_of : Handlers → Option Value → Option (Text × Text)
type_of handlers none = none
type_of handlers (some v) = elim (identifier v) [
  | none ↦ none
  | some type ↦ elim (handlers type) [ none ↦ none | some owner ↦ some (type, owner) ]
]

unfoldable pub or_throw {ℓ} : {A : Type ℓ} → Option A → ErrorCode → Result A
or_throw none e = throw e
or_throw (some a) e = ok a

-- `copy.target !== undefined && copy.target !== owner`
abbrev pub is_other : Option Text → Text → Bool
is_other none owner = false
is_other (some target) owner = not (text_eq target owner)

module _ (handlers : Handlers) (now : ℕ) where
  unfoldable pub validate_copy : Value → Result EventDraft
  unfolding metadata_of time_of type_of or_throw
  validate_copy (obj fs) = do
    fail_if (not (keys_within draft_keys fs)) invalid_event_payload
    payload ← or_throw (get_field (units "payload") fs) invalid_event_payload
    time ← or_fail (time_of (get_field (units "time") fs)) invalid_simulation_time
    fail_if (ltb time now) event_in_past
    (type, owner) ← or_throw (type_of handlers (get_field (units "type") fs)) invalid_event_type
    metadata ← metadata_of fs
    fail_if (is_uncorrelated metadata) invalid_event_payload
    fail_if (is_other metadata.target owner) invalid_event_type
    ok (record { metadata = metadata; time = time; type = type; payload = payload })
  validate_copy _ = throw invalid_event_payload

  unfoldable pub validate : Raw → Result EventDraft
  unfolding validate_copy
  validate draft = or_fail (canonical_copy draft) invalid_event_payload >>= validate_copy

-- ===== src/KeyValue.antt =====
-- packages/kernel/src/key-value-store.ts: `DeterministicKeyValueStore`. Keys and options are taken at
-- their declared types; values are any values of the host.
pub mod Map
pub mod Operations
pub mod View
pub mod Refinement
pub mod Writes
pub mod Deletion
pub mod Counting
pub mod Expiry
use distlab.Base.{
  ℕ, zero, suc, ◌+◌, ◌-◌, Bool, true, false, not, ◌&&◌, ◌||◌, Option, none, some, List, [], ◌∷◌,
  ◌++◌, Text, units, text_eq, Result, ok, throw, bind, or_fail, ltb, leb, ◌==◌, if◌then◌else◌,
}
use distlab.Base.Actions.{Action, and_then, ◌>>=◌, ◌>>◌, pure, get, put, lift, raise}
use distlab.Contracts.Errors.{ErrorCode, invalid_kv_operation, kv_not_integer, kv_counter_overflow}
use distlab.Contracts.Events.{ScheduledEvent}
use distlab.Contracts.Observation.{ObservationInput, ObservationSink, observation}
use distlab.Values.{
  Number, whole, negative, negative_zero, Value, null, bool, num, str, obj, Fields, field, end,
  with_field, with_text, truthy, is_safe, is_safe_integer, max_safe,
}
use distlab.Canonical.{Raw, canonical_copy, embed}
use distlab.Scheduler.{Scheduler, ScheduledHandle, schedule, cancel_handle, observe}
use distlab.Scheduler.Validate.{Handlers}
use distlab.Clock.{add_duration}
use Map.{Link, no_link, Entry, link_of, Entries, find_entry, put_entry, drop_entry, has_expired}

pub record Store (Log : Type 0) : Type 0 where
  pub entries : Entries
  pub generations : Text → Option ℕ
  pub initial_expiries_scheduled : Bool
  pub scheduler : Scheduler Log

-- The options of a store, and what the simulation shows to it during a call.
pub record Host (Log : Type 0) : Type 0 where
  pub sink : ObservationSink Log
  pub handlers : Handlers
  pub owner : Text
  pub number_text : Number → Text
  pub now : ℕ
  pub check : Result (Unit {0})
  pub dispatching : Bool
  pub active_owner : Option Text
  pub active_event : Option ScheduledEvent

pub record SetOptions : Type 0 where
  pub ttl : Option Number
  pub if_absent : Option Bool

abbrev pub no_options : SetOptions
no_options = record { ttl = none; if_absent = none }

pub data ExpectedValue : Type 0 where
  absent : ExpectedValue
  present : Raw → ExpectedValue

-- `data(value)`
unfoldable pub copied : Raw → Result Value
copied v = or_fail (canonical_copy v) invalid_kv_operation

-- `ttlOf(value)`
unfoldable pub ttl_of : Option Number → Result (Option ℕ)
ttl_of none = ok none
ttl_of (some (whole n)) = if is_safe n && ltb 0 n then ok (some n) else throw invalid_kv_operation
ttl_of (some _) = throw invalid_kv_operation

-- `tag(value)`
unfoldable pub tag : Option Value → Value
tag none = obj (field (units "present") (bool false) end)
tag (some v) = obj (field (units "present") (bool true) (field (units "value") v end))

-- A safe integer, plus one.
unfoldable pub successor : Number → Number
successor (whole n) = whole (suc n)
successor (negative zero) = whole 0
successor (negative (suc n)) = negative n
successor negative_zero = whole 1
successor n = n

-- `activeOwner() !== owner`
unfoldable pub is_owner : Option Text → Text → Bool
is_owner none owner = false
is_owner (some o) owner = text_eq o owner

-- `entry?.value`
abbrev pub value_of : Option Entry → Option Value
value_of none = none
value_of (some entry) = some entry.value

module _ {Log : Type 0} (host : Host Log) where
  abbrev Call : Type 0 → Type 0
  Call A = Action (Store Log) A

  unfoldable pub on_scheduler : {A : Type 0} → Action (Scheduler Log) A → Call A
  on_scheduler m s = let (result, t) = m s.scheduler in (result, record s { scheduler = t })

  -- `#active()` and `keyOf(key)`
  unfoldable pub active : Text → Result (Unit {0})
  unfolding is_owner
  active key = bind host.check λ _.
      if not host.dispatching || not (is_owner host.active_owner host.owner)
      then throw invalid_kv_operation
      else elim key [ [] ↦ throw invalid_kv_operation | _ ↦ ok tt ]

  -- `#due(ttl)`, of an optional ttl
  unfoldable pub due : Option ℕ → Result (Option ℕ)
  due none = ok none
  due (some ttl) =
      bind (or_fail (add_duration host.now (whole ttl)) invalid_kv_operation) (λ at. ok (some at))

  -- `#next(key)`
  unfoldable pub next : Text → Store Log → Result ℕ
  next key s =
      let n : ℕ = elim (s.generations key) [ none ↦ 1 | some g ↦ suc g ] in
      if is_safe n then ok n else throw invalid_kv_operation

  -- The draft of an expiry event.
  unfoldable pub expiry_draft : Text → ℕ → ℕ → Link → Value
  expiry_draft key generation time trace = obj (
      field (units "time") (num (whole time)) (
        field (units "type") (str (units "kv.expiry." ++ host.owner)) (
          field (units "payload")
            (obj (
              field (units "key") (str key)
                (field (units "generation") (num (whole generation)) end)))
            (field (units "source") (str host.owner) (
              field (units "target") (str host.owner) (
                with_text (units "traceId") trace.trace_id (
                  with_text (units "spanId") trace.span_id (
                    with_text (units "parentSpanId") trace.parent_span_id
                      (with_text (units "causationId") trace.causation_id end)))))))))

  pub record Armed : Type 0 where
    pub handle : Option ScheduledHandle
    pub expires_at : Option ℕ
    pub cause : Option Link

  unfoldable pub arm : Text → ℕ → Option ℕ → Link → Call Armed
  unfolding on_scheduler expiry_draft
  arm key generation none trace = pure (record { handle = none; expires_at = none; cause = none })
  arm key generation (some at) trace = do
    handle ←
        on_scheduler
          (schedule host.sink host.handlers host.now (embed (expiry_draft key generation at trace)))
    pure (record {
      handle = some handle;
      expires_at = some at;
      cause = some (record trace { event_id = some handle.event_id });
    })

  -- The correlation of a record: that of a cause, or of the event that is being handled.
  unfoldable pub source_of : Option Link → Link
  source_of (some link) = link
  source_of none = elim host.active_event [
    | none ↦ no_link
    | some event ↦ record (link_of (some event)) { event_id = some event.id }
  ]

  unfoldable pub record_of : Text → Value → Option Link → ObservationInput
  unfolding source_of truthy
  record_of type payload link =
      let source = source_of link in
      let bare = observation type host.owner (some payload) in
      record bare {
        event_id = truthy source.event_id;
        trace_id = truthy source.trace_id;
        span_id = truthy source.span_id;
        parent_span_id = truthy source.parent_span_id;
        causation_id = truthy source.causation_id;
        entity_refs = some (record { kind = units "service"; id = host.owner } ∷ []);
      }

  -- `#observe(type, payload, link)`
  unfoldable pub note : Text → Value → Option Link → Call (Unit {0})
  unfolding on_scheduler record_of
  note type payload link = on_scheduler (observe host.sink (record_of type payload link))

  -- `entry?.handle?.cancel()`
  unfoldable pub cancel_expiry : Option Entry → Call (Unit {0})
  unfolding on_scheduler
  cancel_expiry none = pure tt
  cancel_expiry (some entry) = elim entry.handle [
    | none ↦ pure tt
    | some handle ↦ on_scheduler (cancel_handle host.sink handle) >>= λ _. pure tt
  ]

  expired_data : Text → Entry → Value
  expired_data key entry = obj (
      field (units "key") (str key) (
        field (units "value") entry.value (
          with_field (units "expiresAt")
            (elim entry.expires_at [ none ↦ none | some at ↦ some (num (whole at)) ])
            (field (units "generation") (num (whole entry.generation)) end))))

  -- `#expire(key, entry)`
  unfoldable pub drop_expired : Text → Entry → Call (Unit {0})
  unfolding cancel_expiry note expired_data
  drop_expired key entry = do
    s ← get
    put (record s { entries = drop_entry key s.entries })
    cancel_expiry (some entry)
    note (units "kv.expired") (expired_data key entry) entry.cause

  -- `#live(key)`
  unfoldable pub live : Text → Call (Option Entry)
  unfolding drop_expired
  live key s = elim (find_entry key s.entries) [
    | none ↦ (ok none, s)
    | some entry ↦
        if has_expired host.now entry
        then (drop_expired key entry >>= λ _. pure none) s
        else (ok (some entry), s)
  ]

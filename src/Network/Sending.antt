-- ===== src/Network/Sending.antt =====
-- packages/kernel/src/network.ts: `request`, and the legs of a flight.
use distlab.Base.{
  ℕ, suc, ◌+◌, Bool, false, not, ◌&&◌, ◌||◌, Option, none, some, List, [], ◌∷◌, ◌++◌, Text, units,
  text_eq, Result, ok, throw, bind, or_fail, fail_if, ltb, ◌==◌, if◌then◌else◌,
}
use distlab.Base.Actions.{Action, ◌>>=◌, ◌>>◌, pure, get, put, lift}
use distlab.Base.Dicts.{Dict, find, enter}
use distlab.Contracts.Errors.{
  invalid_network_request, invalid_fault, invalid_registration, time_overflow,
}
use distlab.Contracts.Observation.{ObservationInput, observation}
use distlab.Values.{
  Number, whole, negative_zero, Value, str, num, obj, Fields, field, end, get_field, keys_within,
  includes, is_safe, is_name, identifier, truthy, duration,
}
use distlab.Canonical.{Raw, canonical_copy, embed}
use distlab.Clock.{add_duration}
use distlab.Scheduler.{ScheduledHandle}
use distlab.Faults.{FaultProbe, FaultDecision, network_request, network_response, undecided}
use distlab.Network.{
  NetworkPolicy, Flight, sent, Network, Correlated, Leg, request, response, Host, link_key, Call,
  on_world, next_trace, next_span, observe,
}

-- `network.${leg}`, with a suffix
unfoldable pub leg_text : Leg → Text → Text
leg_text request suffix = units "network.request" ++ suffix
leg_text response suffix = units "network.response" ++ suffix

pub record Decision : Type 0 where
  pub delay : ℕ
  pub dropped : Bool
  pub reason : Text

-- `activeOwner() === source`
unfoldable pub is_active : Option Text → Text → Bool
is_active none source = false
is_active (some owner) source = text_eq owner source

request_keys : List Text
request_keys = units "target" ∷ units "endpoint" ∷ units "body" ∷ []

-- A request that passed its checks.
pub record Request : Type 0 where
  pub target : Text
  pub endpoint : Text
  pub body : Value
  pub fields : Fields

unfoldable pub endpoint_of : Option Value → Option Text
endpoint_of (some (str s)) = if is_name s then some s else none
endpoint_of _ = none

unfoldable pub target_of : Option Value → Option Text
target_of none = none
target_of (some v) = identifier v

unfoldable pub request_of : Option Text → Option Text → Option Value → Fields → Result Request
request_of (some target) (some endpoint) (some body) fs =
    ok (record { target = target; endpoint = endpoint; body = body; fields = fs })
request_of _ _ _ fs = throw invalid_network_request

unfoldable pub read_fields : List Text → Value → Result Request
unfolding request_keys
read_fields targets (obj fs) =
    bind
      (request_of (target_of (get_field (units "target") fs))
        (endpoint_of (get_field (units "endpoint") fs)) (get_field (units "body") fs) fs)
      λ r.
        if includes targets r.target && keys_within request_keys fs
        then ok r
        else throw invalid_network_request
read_fields targets _ = throw invalid_network_request

-- A request as it is handed in, checked.
unfoldable pub read_request : List Text → Raw → Result Request
read_request targets input =
    bind (or_fail (canonical_copy input) invalid_network_request) (read_fields targets)

-- The policy of the link, or a refusal.
unfoldable pub selected : Option NetworkPolicy → Result NetworkPolicy
selected none = throw invalid_network_request
selected (some p) = ok p

-- The deadline; the delay of the request itself must be within the clock too.
unfoldable pub deadline_of : ℕ → NetworkPolicy → Result ℕ
deadline_of now p =
    or_fail
      (bind (add_duration now (whole p.timeout)) λ deadline.
        bind (duration (whole (p.request_latency + p.jitter)))
          λ d. bind (add_duration now (whole d)) λ _. ok deadline)
      invalid_network_request

-- `value?.key`
abbrev pub shown : Option Correlated → (Correlated → Option Text) → Option Text
shown none field_of = none
shown (some c) field_of = field_of c

-- The draft of one of the network's own events.
unfoldable pub own_draft : ℕ → Text → Value → Text → Text → Text → Value
own_draft time type payload trace_id span_id cause = obj (
    field (units "time") (num (whole time)) (
      field (units "type") (str type) (
        field (units "payload") payload (
          field (units "source") (str (units "simulation")) (
            field (units "target") (str (units "simulation")) (
              field (units "traceId") (str trace_id) (
                field (units "spanId") (str span_id)
                  (field (units "causationId") (str cause) end))))))))

unfoldable pub with_id : Text → Fields → Value
with_id id more = obj (field (units "requestId") (str id) more)

unfoldable pub probe_of : Leg → Flight → FaultProbe
probe_of request f = record {
  point = network_request;
  subject_id = f.request_id;
  source = f.source;
  target = f.target;
  name = f.endpoint;
}
probe_of response f = record {
  point = network_response;
  subject_id = f.request_id;
  source = f.target;
  target = f.source;
  name = f.endpoint;
}

-- An effect that a leg cannot have.
unfoldable pub is_foreign : FaultDecision → Bool
is_foreign d = d.fail || ltb 0 d.additional_copies || ltb 0 d.copy_spacing

unfoldable pub latency : Leg → NetworkPolicy → ℕ
latency request p = p.request_latency
latency response p = p.response_latency

unfoldable pub leg_event : Leg → Text
leg_event request = units "kernel.network.delivery"
leg_event response = units "kernel.network.response"

module _ {W : Type 0} where
  -- `parent?.traceId ?? this.#traces.allocate()`
  unfoldable pub trace_for : Option Text → Call W Text
  trace_for none = next_trace
  trace_for (some id) = pure id

module _ {W : Type 0} (host : Host W) where
  abbrev pub parent_trace : Option Text
  parent_trace = shown host.correlation (λ c. c.trace_id)

  abbrev pub parent_span : Option Text
  parent_span = truthy (shown host.correlation (λ c. c.span_id))

  abbrev pub parent_event : Option Text
  parent_event = truthy (shown host.correlation (λ c. c.event_id))

  unfoldable pub sent_record : Text → Request → Text → ℕ → Text → Text → ObservationInput
  sent_record source r operation deadline trace_id span_id =
      let bare = observation (units "network.request.sent") source (
        some (
          obj (
            field (units "requestId") (str operation) (
              field (units "endpoint") (str r.endpoint) (
                field (units "body") r.body
                  (field (units "deadline") (num (whole deadline)) end)))))) in
      record bare {
        target = some r.target;
        trace_id = some trace_id;
        span_id = some span_id;
        parent_span_id = parent_span;
        event_id = parent_event;
      }

  -- `random.draw(...)`, only where there is jitter
  unfoldable pub jitter_of : Leg → ℕ → Call W ℕ
  jitter_of leg n =
      if n == 0
      then pure 0
      else on_world (host.draw (leg_text leg (units ".jitter"))) >>= λ bits.
          pure (host.scaled bits (suc n))

  -- `rate === 1 || (rate > 0 && random.draw(...).unit < rate)`
  unfoldable pub lost_by : Leg → Number → Call W Bool
  lost_by leg (whole n) = pure (n == 1)
  lost_by leg negative_zero = pure false
  lost_by leg rate = on_world (host.draw (leg_text leg (units ".loss"))) >>= λ bits.
      pure (host.unit_below bits rate)

  -- `faults?.evaluate(...) ?? neutral()`
  unfoldable pub effect_by :
      Option (FaultProbe → Action W FaultDecision) → Leg → Flight → Call W FaultDecision
  effect_by none leg f = pure undecided
  effect_by (some evaluate) leg f = on_world (evaluate (probe_of leg f))

  -- `#decision(flight, leg)`
  unfoldable pub decision : Flight → Leg → Call W Decision
  decision f leg = do
    jitter ← jitter_of leg f.policy.jitter
    lost ← lost_by leg f.policy.failure_rate
    effect ← effect_by host.faults leg f
    lift (fail_if (not (is_safe effect.extra_delay) || is_foreign effect) invalid_fault)
    lift (fail_if (not (is_safe (jitter + effect.extra_delay))) time_overflow)
    pure (record {
      delay = jitter + effect.extra_delay;
      dropped = lost || effect.drop;
      reason = if effect.drop then units "fault" else units "loss";
    })

  -- The rest of `#sendLeg`, of a leg that is not dropped; `more` is the reply of a response.
  unfoldable pub launch : Flight → Leg → Fields → ℕ → Call W (Unit {0})
  launch f leg more delay = do
    lift (fail_if (not (is_safe (latency leg f.policy + delay))) time_overflow)
    d ← lift (duration (whole (latency leg f.policy + delay)))
    due ← lift (add_duration host.now (whole d))
    payload ← lift (canonical_copy (embed (with_id f.request_id more)))
    _ ←
        on_world
          (host.schedule (own_draft due (leg_event leg) payload f.trace_id f.span_id f.sent_id))
    pure tt

  -- `#sendLeg(flight, leg, reply)`
  unfoldable pub send_leg : Flight → Leg → Fields → Call W (Unit {0})
  send_leg f leg more = do
    d ← decision f leg
    if d.dropped
        then observe host leg (leg_text leg (units ".dropped")) f
            (with_id f.request_id (field (units "reason") (str d.reason) end)) none
        else launch f leg more d.delay

  -- The flight of a request, when its deadline is scheduled.
  unfoldable pub new_flight :
      Text → Request → Text → ℕ → NetworkPolicy → Text → Text → Text → ScheduledHandle → Flight
  new_flight source r operation deadline p sent_id trace_id span_id handle = record {
    request_id = operation;
    source = source;
    target = r.target;
    endpoint = r.endpoint;
    deadline = deadline;
    state = sent;
    request = r.fields;
    policy = p;
    sent_id = sent_id;
    trace_id = trace_id;
    span_id = span_id;
    parent_span_id = parent_span;
    deadline_handle = handle;
    replied = false;
    settled = false;
  }

  -- What `request` checks before it has any effect: the request, its policy and its deadline.
  unfoldable pub accepted : Text → Raw → Network W → Result (Request × NetworkPolicy × ℕ)
  accepted source input n =
      if not (is_active host.active_owner source)
      then throw invalid_network_request
      else bind (read_request n.targets input) λ r.
        bind (selected (find (link_key source r.target) n.links))
          λ p. bind (deadline_of host.now p) λ deadline. ok (r, p, deadline)

  -- The rest of `request`: the operation, the record, the deadline's event, the flight and its
  -- first leg.
  unfoldable pub depart : Text → Request → NetworkPolicy → ℕ → Call W Text
  depart source r p deadline = do
    operation ← on_world host.create
    trace_id ← trace_for parent_trace
    span_id ← next_span
    record_sent ←
        on_world (host.sink.observe (sent_record source r operation deadline trace_id span_id))
    handle ← on_world (
        host.schedule (
          own_draft deadline (units "kernel.network.deadline") (with_id operation end) trace_id
            span_id record_sent.id))
    let flight = new_flight source r operation deadline p record_sent.id trace_id span_id handle
    n ← get
    put (record n { flights = enter operation flight n.flights })
    send_leg flight request end
    pure operation

  -- `request(source, input)`
  unfoldable pub request_call : Text → Raw → Call W Text
  request_call source input = do
    n ← get
    (r, p, deadline) ← lift (accepted source input n)
    depart source r p deadline

  -- `forOwner(owner)`, of a target, and a request through what it returns
  unfoldable pub for_owner : Text → Network W → Result (Unit {0})
  for_owner owner n =
      bind host.check λ _. fail_if (not (includes n.targets owner)) invalid_registration

  unfoldable pub owner_request : Text → Raw → Call W Text
  owner_request owner input = do lift host.check; request_call owner input

-- `inFlight()`: the flights that nothing has settled
unfoldable pub unsettled : Dict Flight → List Flight
unsettled [] = []
unsettled ((_, f) ∷ rest) = let more = unsettled rest in if f.settled then more else f ∷ more

module _ {W : Type 0} where
  unfoldable pub in_flight : Network W → List Flight
  in_flight n = unsettled n.flights

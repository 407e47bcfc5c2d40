-- ===== src/Network.antt =====
-- packages/kernel/src/network.ts: `DeterministicVirtualNetwork`. A flight is an object that only
-- the map of flights holds, so the calls read it from there and write it back. The state of the
-- ports, which are the simulation's, is `world`.
pub mod Policies
pub mod Sending
pub mod Settling
pub mod Lives
pub mod Legs
pub mod Moves
pub mod Once
pub mod Departures
use distlab.Base.{
  ℕ, suc, ◌+◌, Bool, true, false, not, ◌&&◌, ◌||◌, Option, none, some, List, [], ◌∷◌, ◌++◌, Text,
  units, text_eq, Result, ok, throw, type_error, bind, if◌then◌else◌,
}
use distlab.Base.Actions.{Action, and_then, ◌>>=◌, ◌>>◌, pure, get, put, lift, raise}
use distlab.Base.Dicts.{Dict, find, enter, is_some}
use distlab.Contracts.Errors.{ErrorCode}
use distlab.Contracts.Observation.{ObservationInput, ObservationSink, Observation, observation}
use distlab.Values.{Number, Value, Fields, truthy, includes}
use distlab.Identity.{Allocator, allocate}
use distlab.Scheduler.{ScheduledHandle}
use distlab.Faults.{FaultProbe, FaultDecision}

pub record NetworkPolicy : Type 0 where
  pub request_latency : ℕ
  pub response_latency : ℕ
  pub jitter : ℕ
  pub timeout : ℕ
  pub failure_rate : Number

pub data FlightState : Type 0 where
  sent admitted replied timed_out : FlightState

pub record Flight : Type 0 where
  pub request_id : Text
  pub source : Text
  pub target : Text
  pub endpoint : Text
  pub deadline : ℕ
  pub state : FlightState
  pub request : Fields
  pub policy : NetworkPolicy
  pub sent_id : Text
  pub trace_id : Text
  pub span_id : Text
  pub parent_span_id : Option Text
  pub deadline_handle : ScheduledHandle
  pub replied : Bool
  pub settled : Bool

pub record Network (W : Type 0) : Type 0 where
  pub targets : List Text
  pub links : Dict NetworkPolicy
  pub receivers : List Text
  pub flights : Dict Flight
  pub traces : Allocator
  pub spans : Allocator
  pub sealed : Bool
  pub world : W

pub data Outcome : Type 0 where
  success : Value → Outcome
  failure : ErrorCode → Value → Outcome

pub record Correlated : Type 0 where
  pub trace_id : Option Text
  pub span_id : Option Text
  pub event_id : Option Text

-- `request` or `response`
pub data Leg : Type 0 where
  request response : Leg

-- The options of a network, and what the simulation shows to it during a call. `scaled bits n` is
-- the host's `Math.floor(unit * n)`, and `unit_below` its `unit < rate`, of the unit of a draw.
-- `accept` is a receiver's, with the replies that it makes during the call; `admit` is none where a
-- receiver has no such method or it returns nothing.
pub record Host (W : Type 0) : Type 0 where
  pub sink : ObservationSink W
  pub create : Action W Text
  pub complete : Text → Outcome → Action W (Unit {0})
  pub schedule : Value → Action W ScheduledHandle
  pub cancel : ScheduledHandle → Action W Bool
  pub draw : Text → Action W ℕ
  pub scaled : ℕ → ℕ → ℕ
  pub unit_below : ℕ → Number → Bool
  pub faults : Option (FaultProbe → Action W FaultDecision)
  pub admit : Text → Fields → Action W (Option ErrorCode)
  pub accept : Text → Text → Fields → Action W (List (Text × Value))
  pub now : ℕ
  pub check : Result (Unit {0})
  pub dispatching : Bool
  pub active_owner : Option Text
  pub correlation : Option Correlated

-- `#key(source, target)`
unfoldable pub link_key : Text → Text → Text
link_key source target = source ++ 0 ∷ target

abbrev pub Call : Type 0 → Type 0 → Type 0
Call W A = Action (Network W) A

module _ {W : Type 0} where
  -- A call of a port.
  unfoldable pub on_world : {A : Type 0} → Action W A → Call W A
  on_world m n = let (result, w) = m n.world in (result, record n { world = w })

  unfoldable pub next_trace : Call W Text
  next_trace n = let (result, a) = allocate n.traces in (result, record n { traces = a })

  unfoldable pub next_span : Call W Text
  next_span n = let (result, a) = allocate n.spans in (result, record n { spans = a })

  -- `this.#flights.get(id)!`, which is read through.
  unfoldable pub flight_of : Text → Call W Flight
  flight_of id n = elim (find id n.flights) [
    | none ↦ (type_error, n)
    | some flight ↦ (ok flight, n)
  ]

  -- A write to the object under an identity.
  unfoldable pub write : Text → Flight → Call W (Unit {0})
  write id flight n = (ok tt, record n { flights = enter id flight n.flights })

  -- `hasLink(source, target)`, after the check
  unfoldable pub has_link : Text → Text → Network W → Bool
  has_link source target n =
      includes n.targets target && is_some (find (link_key source target) n.links)

module _ {W : Type 0} (host : Host W) where
  -- `#observe(type, flight, data, eventId)`; the leg tells the types of a response.
  unfoldable pub observed : Leg → Text → Flight → Value → Option Text → ObservationInput
  observed leg type flight payload event_id =
      let from : Text = elim leg [ request ↦ flight.source | response ↦ flight.target ] in
      let to : Text = elim leg [ request ↦ flight.target | response ↦ flight.source ] in
      let bare = observation type from (some payload) in
      record bare {
        target = some to;
        trace_id = some flight.trace_id;
        span_id = some flight.span_id;
        parent_span_id = truthy flight.parent_span_id;
        causation_id = some flight.sent_id;
        event_id = truthy event_id;
      }

  unfoldable pub observe : Leg → Text → Flight → Value → Option Text → Call W (Unit {0})
  observe leg type flight payload event_id = do
    _ ← on_world (host.sink.observe (observed leg type flight payload event_id))
    pure tt

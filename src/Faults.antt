-- ===== src/Faults.antt =====
-- packages/kernel/src/fault-engine.ts: `DeterministicFaultEngine`. Rules, probes and scheduled
-- faults are taken at their declared types; the generator of random numbers and the effects are
-- ports.
pub mod Evaluation
pub mod Applications
pub mod Probes
use distlab.Base.{
  ℕ, zero, suc, ◌+◌, Bool, true, false, not, ◌&&◌, ◌||◌, Option, none, some, List, [], ◌∷◌, ◌++◌,
  map, length, get_elem?, set, Text, units, text_eq, Result, ok, throw, bind, fail_if, ltb, leb,
  ◌==◌, if◌then◌else◌,
}
use distlab.Base.Actions.{Action, and_then, ◌>>=◌, ◌>>◌, pure, get, put, lift, raise}
use distlab.Contracts.Errors.{
  ErrorCode, invalid_fault, fault_probe_reused, identity_overflow, time_overflow, stale_capability,
}
use distlab.Contracts.Events.{ScheduledEvent}
use distlab.Contracts.Observation.{ObservationInput, Observation, ObservationSink, observation}
use distlab.Values.{
  Number, whole, Value, bool, num, str, obj, Fields, field, end, is_safe, includes, truthy,
}

pub data FaultPoint : Type 0 where
  network_request network_response message_delivery database_commit : FaultPoint

unfoldable pub point_text : FaultPoint → Text
point_text network_request = units "network.request"
point_text network_response = units "network.response"
point_text message_delivery = units "message.delivery"
point_text database_commit = units "database.commit"

-- `a === b` of points
unfoldable pub same_point : FaultPoint → FaultPoint → Bool
same_point network_request network_request = true
same_point network_response network_response = true
same_point message_delivery message_delivery = true
same_point database_commit database_commit = true
same_point _ _ = false

pub record FaultProbe : Type 0 where
  pub point : FaultPoint
  pub subject_id : Text
  pub source : Text
  pub target : Text
  pub name : Text

pub data FaultEffect : Type 0 where
  delay : (duration : ℕ) → FaultEffect
  drop fails disconnect : FaultEffect
  duplicate : (additional_copies spacing : ℕ) → FaultEffect

pub record FaultRule : Type 0 where
  pub id : Text
  pub point : FaultPoint
  pub source : Option Text
  pub target : Option Text
  pub name : Option Text
  pub from : ℕ
  pub until : Option ℕ
  pub occurrence : Option ℕ
  pub probability : Number
  pub max_applications : ℕ
  pub effect : FaultEffect

pub record FaultDecision : Type 0 where
  pub rule_ids : List Text
  pub extra_delay : ℕ
  pub drop : Bool
  pub additional_copies : ℕ
  pub copy_spacing : ℕ
  pub fail : Bool

pub record RuleState : Type 0 where
  pub rule : FaultRule
  pub candidates : ℕ
  pub applications : ℕ

-- `SeededRandomPort`: a draw gives the 32 bits that its `unit` is made of.
pub record RandomPort (R : Type 0) : Type 0 where
  pub draw : Text → Action R ℕ

pub record Engine (R Log : Type 0) : Type 0 where
  pub states : List RuleState
  pub generation : ℕ
  pub probes : List Text
  pub applied : List Text
  pub random : R
  pub log : Log

-- The options of an engine, and what the simulation shows to it during a call. `unit_below` is the
-- host's `uint32 / 2 ** 32 < probability`.
pub record Ports (R Log : Type 0) : Type 0 where
  pub sink : ObservationSink Log
  pub random : RandomPort R
  pub unit_below : ℕ → Number → Bool
  pub components : List Text
  pub now : ℕ
  pub dispatching : Option Bool
  pub active_event : Option (Option ScheduledEvent)

-- `wanted === undefined || wanted === given`
unfoldable pub admits : Option Text → Text → Bool
admits none given = true
admits (some wanted) given = text_eq wanted given

-- `until !== undefined && now >= until`
unfoldable pub is_over : Option ℕ → ℕ → Bool
is_over none now = false
is_over (some until) now = leb until now

-- The rule is a candidate for the probe.
unfoldable pub is_candidate : FaultRule → FaultProbe → ℕ → Bool
unfolding same_point admits is_over
is_candidate rule probe now =
    same_point rule.point probe.point
    && admits rule.source probe.source
    && admits rule.target probe.target
    && admits rule.name probe.name
    && not (ltb now rule.from)
    && not (is_over rule.until now)

-- `occurrence !== undefined && ordinal !== occurrence`
unfoldable pub misses : Option ℕ → ℕ → Bool
misses none ordinal = false
misses (some occurrence) ordinal = not (ordinal == occurrence)

-- `point + "\u0000" + subjectId`
unfoldable pub probe_identity : FaultProbe → Text
unfolding point_text
probe_identity probe = point_text probe.point ++ 0 ∷ probe.subject_id

-- What the loop of `evaluate` has gathered.
abbrev pub undecided : FaultDecision
undecided = record {
  rule_ids = [];
  extra_delay = 0;
  drop = false;
  additional_copies = 0;
  copy_spacing = 0;
  fail = false;
}

unfoldable pub combine : FaultDecision → FaultEffect → Result FaultDecision
combine d (delay duration) =
    if is_safe (d.extra_delay + duration)
    then ok (record d { extra_delay = d.extra_delay + duration })
    else throw time_overflow
combine d FaultEffect.drop = ok (record d { drop = true })
combine d disconnect = ok (record d { drop = true })
combine d fails = ok (record d { fail = true })
combine d (duplicate copies spacing) =
    ok (record d { additional_copies = copies; copy_spacing = spacing })

unfoldable pub probe_data : FaultProbe → Value
unfolding point_text
probe_data probe = obj (
    field (units "point") (str (point_text probe.point)) (
      field (units "subjectId") (str probe.subject_id) (
        field (units "source") (str probe.source)
          (field (units "target") (str probe.target) (field (units "name") (str probe.name) end)))))

unfoldable pub effect_data : FaultEffect → Value
effect_data (delay duration) = obj (
    field (units "kind") (str (units "delay"))
      (field (units "duration") (num (whole duration)) end))
effect_data FaultEffect.drop = obj (field (units "kind") (str (units "drop")) end)
effect_data disconnect = obj (field (units "kind") (str (units "disconnect")) end)
effect_data fails = obj (field (units "kind") (str (units "fail")) end)
effect_data (duplicate copies spacing) = obj (
    field (units "kind") (str (units "duplicate")) (
      field (units "additionalCopies") (num (whole copies))
        (field (units "spacing") (num (whole spacing)) end)))

-- A capability of the simulation says that nothing is being dispatched, or no event.
unfoldable pub is_missing : Option Bool → Option (Option ScheduledEvent) → Bool
is_missing (some false) event = true
is_missing dispatching (some none) = true
is_missing dispatching event = false

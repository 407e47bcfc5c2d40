-- ===== src/Examples/Flights.antt =====
-- A network of two components on small inputs: a request, its delivery, its reply and its deadline.
use distlab.Base.{◌≡◌, refl, true, false, none, some, List, [], ◌∷◌, Text, units, text_eq, ok}
use distlab.Base.Actions.{pure}
use distlab.Base.Dicts
use distlab.Base.Dicts.{find}
use distlab.Values
use distlab.Values.{Number, whole, Value, str, num, obj, Fields, field, end}
use distlab.Canonical
use distlab.Canonical.{Raw, embed}
use distlab.Clock
use distlab.Identity
use distlab.Scheduler.{ScheduledHandle}
use distlab.Network
use distlab.Network.{Network, Host, Flight, NetworkPolicy, timed_out}
use distlab.Network.Policies
use distlab.Network.Policies.{Link, create}
use distlab.Network.Sending
use distlab.Network.Sending.{request_call}
use distlab.Network.Settling
use distlab.Network.Settling.{Reply, reply, read_reply, expire, receive, note_received}
use distlab.Network.Once.{
  Keeps, IsCoherent, Reach, here, next, after, requests, delivers, expires, Reach-IsCoherent,
  settled_once, replied_once,
}
use distlab.Network.Departures.{Departs, request_call-Departs}
use distlab.Samples.{Records, keeping, shop}

abbrev web : Text
web = units "web"

abbrev op : Text
op = units "op"

abbrev timer : ScheduledHandle
timer = record { event_id = units "t"; due_time = 1003; generation = 0 }

abbrev host : Host Records
host = record {
  sink = keeping;
  create = pure op;
  complete = λ _ _. pure tt;
  schedule = λ _. pure timer;
  cancel = λ _. pure true;
  draw = λ _. pure 0;
  scaled = λ _ _. 0;
  unit_below = λ _ _. false;
  faults = none;
  admit = λ _ _. pure none;
  accept = λ _ _ _. pure [];
  now = 3;
  check = ok tt;
  dispatching = true;
  active_owner = some web;
  correlation = none;
}

abbrev links : List Link
links = record { source = web; target = shop; policy = none } ∷ []

abbrev default_policy : NetworkPolicy
default_policy = record {
  request_latency = 0;
  response_latency = 0;
  jitter = 0;
  timeout = 1000;
  failure_rate = whole 0;
}

abbrev quiet : Network Records
quiet = record {
  targets = web ∷ shop ∷ [];
  links = (Network.link_key web shop, default_policy) ∷ [];
  receivers = [];
  flights = [];
  traces = record { prefix = units "trace"; run_id = units "r1"; next = 0 };
  spans = record { prefix = units "span"; run_id = units "r1"; next = 0 };
  sealed = false;
  world = [];
}

created : create (web ∷ shop ∷ []) links (units "r1") [] ≡ ok quiet
unfolding create Policies.has_repeat Values.includes text_eq Policies.has_empty Policies.read_links
    find Policies.policy Policies.policy_of Policies.natural Policies.or_default Values.get_field
    Policies.rate_of Policies.start Dicts.enter
created = refl

order : Raw
order = embed (
    obj (
      field (units "target") (str shop)
        (field (units "endpoint") (str (units "order")) (field (units "body") Value.null end))))

abbrev flying : Network Records
flying = after host (requests web order) quiet

departed : request_call host web order quiet ≡ (ok op, flying)
unfolding request_call order after Sending.accepted Sending.is_active text_eq Sending.read_request
    Canonical.canonical_copy embed Sending.read_fields Sending.request_of Sending.target_of
    Values.get_field Sending.endpoint_of Values.is_name Values.includes Values.keys_within
    Sending.selected find Network.link_key Dicts.enter Clock.add_duration Identity.allocate
    Identity.can_allocate Identity.identity Sending.deadline_of Sending.decision Sending.depart
    Sending.effect_by Sending.is_foreign Sending.jitter_of Sending.latency Sending.launch
    Sending.leg_event Sending.leg_text Sending.lost_by Sending.new_flight Sending.own_draft
    Sending.probe_of Sending.send_leg Sending.sent_record Sending.trace_for Sending.with_id
    Network.next_span Network.next_trace Network.observe Network.observed Network.on_world
    Network.write Values.duration Values.is_space Values.simulation_time Values.truthy
departed = refl

request_call-Departs_example : Departs host web op order quiet flying
request_call-Departs_example = request_call-Departs host web order quiet departed

sent_off : Reach quiet flying
unfolding find
sent_off = next here host (requests web order) (λ id e. refl)

-- No receiver stands for the target, so the delivery is the network's own reply.
abbrev refused : Network Records
refused = after host (delivers op (units "d")) flying

abbrev late : Network Records
late = after host (expires op (units "x")) refused

calls : Reach flying late
calls = next (next here host (delivers op (units "d")) tt) host (expires op (units "x")) tt

to_refused : Reach quiet refused
to_refused = next sent_off host (delivers op (units "d")) tt

to_late : Reach quiet late
to_late = next to_refused host (expires op (units "x")) tt

one_late : (f : Flight) × (find op late.flights ≡ some f) × (f.settled ≡ true)
unfolding request_call order after Sending.accepted Sending.is_active text_eq Sending.read_request
    Canonical.canonical_copy embed Sending.read_fields Sending.request_of Sending.target_of
    Values.get_field Sending.endpoint_of Values.is_name Values.includes Values.keys_within
    Sending.selected find Network.link_key Dicts.enter Clock.add_duration Identity.allocate
    Identity.can_allocate Identity.identity Sending.deadline_of Sending.decision Sending.depart
    Sending.effect_by Sending.is_foreign Sending.jitter_of Sending.latency Sending.launch
    Sending.leg_event Sending.leg_text Sending.lost_by Sending.new_flight Sending.own_draft
    Sending.probe_of Sending.send_leg Sending.sent_record Sending.trace_for Sending.with_id
    Network.next_span Network.next_trace Network.observe Network.observed Network.on_world
    Network.write Values.duration Values.is_space Values.simulation_time Values.truthy
    Settling.admit_as Settling.answered Settling.deliver Settling.error_body Settling.error_reply
    expire Settling.is_refusal Settling.is_status Settling.may_reply note_received
    Settling.read_copy read_reply reply Settling.reply_of Settling.replying Settling.send_reply
    Settling.time_out Network.flight_of
one_late = (_, refl, refl)

one_refused : (f : Flight) × (find op refused.flights ≡ some f) × (f.replied ≡ true)
unfolding request_call order after Sending.accepted Sending.is_active text_eq Sending.read_request
    Canonical.canonical_copy embed Sending.read_fields Sending.request_of Sending.target_of
    Values.get_field Sending.endpoint_of Values.is_name Values.includes Values.keys_within
    Sending.selected find Network.link_key Dicts.enter Clock.add_duration Identity.allocate
    Identity.can_allocate Identity.identity Sending.deadline_of Sending.decision Sending.depart
    Sending.effect_by Sending.is_foreign Sending.jitter_of Sending.latency Sending.launch
    Sending.leg_event Sending.leg_text Sending.lost_by Sending.new_flight Sending.own_draft
    Sending.probe_of Sending.send_leg Sending.sent_record Sending.trace_for Sending.with_id
    Network.next_span Network.next_trace Network.observe Network.observed Network.on_world
    Network.write Values.duration Values.is_space Values.simulation_time Values.truthy
    Settling.admit_as Settling.answered Settling.deliver Settling.error_body Settling.error_reply
    expire Settling.is_refusal Settling.is_status Settling.may_reply note_received
    Settling.read_copy read_reply reply Settling.reply_of Settling.replying Settling.send_reply
    Settling.time_out Network.flight_of
one_refused = (_, refl, refl)

Reach-IsCoherent_example : IsCoherent one_late.0
Reach-IsCoherent_example =
    Reach-IsCoherent (web ∷ shop ∷ []) links (units "r1") [] created to_late op one_late.0
      one_late.1

answer : Raw
answer =
    embed (obj (field (units "status") (str (units "ok")) (field (units "body") Value.null end)))

read : (r : Reply) × (read_reply answer ≡ ok r)
unfolding answer embed read_reply Canonical.canonical_copy Settling.read_copy Settling.reply_of
    Settling.is_status text_eq Values.get_field Values.keys_within Values.includes
read = (_, refl)

settled_once_example :
    (g : Flight) × (find op late.flights ≡ some g)
    × Keeps one_late.0 g
    × (expire host op (units "y") late ≡ (ok tt, late))
    × (receive host op read.0 (units "y") late
        ≡ note_received host op g read.0 true (units "y") late)
settled_once_example =
    settled_once host late late op (units "y") one_late.0 read.0 one_late.1 one_late.2 here

replied_once_example : reply host op answer late ≡ (ok tt, late)
replied_once_example =
    replied_once host (web ∷ shop ∷ []) links (units "r1") [] op one_refused.0 answer read.0 created
      to_refused one_refused.1 one_refused.2 (next here host (expires op (units "x")) tt) refl refl
      read.1

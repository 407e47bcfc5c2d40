-- ===== src/Network/Settling.antt =====
-- packages/kernel/src/network.ts: the delivery of a request, its reply, the reply's arrival and the
-- deadline.
use distlab.Base.{
  Bool, true, false, not, ◌&&◌, ◌||◌, Option, none, some, List, [], ◌∷◌, Text, units, text_eq,
  Result, ok, throw, bind, or_fail, fail_if, if◌then◌else◌,
}
use distlab.Base.Actions.{◌>>=◌, ◌>>◌, pure, get, lift, raise}
use distlab.Base.Dicts.{find}
use distlab.Contracts.Errors.{
  ErrorCode, invalid_network_reply, network_timeout, target_unavailable, endpoint_not_found,
}
use distlab.Values.{
  whole, Value, bool, str, num, obj, Fields, field, end, get_field, keys_within, includes,
}
use distlab.Canonical.{Raw, canonical_copy, embed}
use distlab.Network.{
  Flight, FlightState, sent, admitted, replied, timed_out, success, failure, request, response,
  Host, Call, on_world, flight_of, write, observe,
}
use distlab.Network.Sending.{send_leg, with_id}

pub record Reply : Type 0 where
  pub status : Text
  pub body : Value
  pub fields : Fields

reply_keys : List Text
reply_keys = units "status" ∷ units "body" ∷ []

unfoldable pub is_status : Text → Bool
is_status s = text_eq s (units "ok") || text_eq s (units "error")

unfoldable pub reply_of : Option Value → Option Value → Fields → Result Reply
unfolding reply_keys
reply_of (some (str status)) (some body) fs =
    if is_status status && keys_within reply_keys fs
    then ok (record { status = status; body = body; fields = fs })
    else throw invalid_network_reply
reply_of _ _ fs = throw invalid_network_reply

unfoldable pub read_copy : Value → Result Reply
read_copy (obj fs) = reply_of (get_field (units "status") fs) (get_field (units "body") fs) fs
read_copy _ = throw invalid_network_reply

-- A reply as it is handed in, checked.
unfoldable pub read_reply : Raw → Result Reply
read_reply input = bind (or_fail (canonical_copy input) invalid_network_reply) read_copy

-- A flight that may be replied to: one that was delivered.
unfoldable pub may_reply : FlightState → Bool
may_reply sent = false
may_reply _ = true

unfoldable pub replying : Option Flight → Result Flight
replying none = throw invalid_network_reply
replying (some f) = if may_reply f.state then ok f else throw invalid_network_reply

-- A flight with its reply: a settled one keeps its state.
unfoldable pub answered : Flight → Flight
answered f = record f { replied = true; state = if f.settled then f.state else replied }

-- `{ code }`, of the codes that the network replies with
unfoldable pub error_body : ErrorCode → Value
error_body target_unavailable = obj (field (units "code") (str (units "TARGET_UNAVAILABLE")) end)
error_body _ = obj (field (units "code") (str (units "ENDPOINT_NOT_FOUND")) end)

unfoldable pub error_reply : ErrorCode → Value
error_reply code =
    obj (field (units "status") (str (units "error")) (field (units "body") (error_body code) end))

-- The two codes with which a receiver may refuse a request.
unfoldable pub is_refusal : ErrorCode → Bool
is_refusal target_unavailable = true
is_refusal endpoint_not_found = true
is_refusal _ = false

module _ {W : Type 0} (host : Host W) where
  -- The rest of `reply`, of a flight that has none.
  unfoldable pub send_reply : Text → Flight → Reply → Call W (Unit {0})
  send_reply id f r = do
    write id (answered f)
    observe host response (units "network.response.sent") (answered f)
        (with_id id (field (units "status") (str r.status) (field (units "body") r.body end))) none
    send_leg host (answered f) response (field (units "reply") (obj r.fields) end)

  -- `reply(requestId, input)`
  unfoldable pub reply : Text → Raw → Call W (Unit {0})
  reply id input = do
    lift host.check
    lift (fail_if (not host.dispatching) invalid_network_reply)
    n ← get
    f ← lift (replying (find id n.flights))
    r ← lift (read_reply input)
    if f.replied then pure tt else send_reply id f r

  -- The replies that a receiver makes while it accepts a request.
  unfoldable pub reply_all : List (Text × Value) → Call W (Unit {0})
  reply_all [] = pure tt
  reply_all ((id, v) ∷ more) = reply id (embed v) >> reply_all more

  -- What `#deliver` does of the answer of `admit`.
  unfoldable pub admit_as : Text → Flight → Option ErrorCode → Call W (Unit {0})
  admit_as id f none = on_world (host.accept f.target id f.request) >>= reply_all
  admit_as id f (some code) =
      if is_refusal code
      then reply f.request_id (embed (error_reply code))
      else raise invalid_network_reply

  -- `#deliver(id, eventId)`
  unfoldable pub deliver : Text → Text → Call W (Unit {0})
  deliver id event_id = do
    f ← flight_of id
    observe host request (units "network.request.delivered") f
        (with_id id (field (units "target") (str f.target) end)) (some event_id)
    write id (record f { state = admitted })
    n ← get
    if includes n.receivers f.target
        then on_world (host.admit f.target f.request) >>= admit_as id f
        else reply f.request_id (embed (error_reply target_unavailable))

  -- `#receive(id, reply, eventId)`, of a reply that comes too late, and of one in time
  unfoldable pub note_received : Text → Flight → Reply → Bool → Text → Call W (Unit {0})
  note_received id f r late event_id =
      observe host response (units "network.response.received") f
        (with_id id (
          field (units "status") (str r.status)
            (field (units "body") r.body (field (units "late") (bool late) end))))
        (some event_id)

  unfoldable pub receive_as : Text → Flight → Reply → Text → Call W (Unit {0})
  receive_as id f r event_id = if f.settled then note_received id f r true event_id else do
    write id (record f { settled = true })
    _ ← on_world (host.cancel f.deadline_handle)
    note_received id (record f { settled = true }) r false event_id
    on_world (host.complete id (success (obj r.fields)))

  unfoldable pub receive : Text → Reply → Text → Call W (Unit {0})
  receive id r event_id = do f ← flight_of id; receive_as id f r event_id

  unfoldable pub time_out : Text → Flight → Text → Call W (Unit {0})
  time_out id f event_id = do
    write id (record f { settled = true; state = timed_out })
    observe host request (units "network.request.timedout")
        (record f { settled = true; state = timed_out })
        (with_id id (field (units "deadline") (num (whole f.deadline)) end)) (some event_id)
    on_world (host.complete id (failure network_timeout (with_id id end)))

  -- `#deadline(id, eventId)`
  unfoldable pub expire : Text → Text → Call W (Unit {0})
  expire id event_id = do f ← flight_of id; if f.settled then pure tt else time_out id f event_id

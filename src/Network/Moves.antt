-- ===== src/Network/Moves.antt =====
-- Every call of a network moves its flights along their lives, however it ends.
use mathlib.Core.Path.{subst}
use distlab.Base.{
  ℕ, ◌≡◌, refl, sym, ◌∙◌, ap, ◌⊎◌, inl, inr, if_true, if_false, true, false, not, ◌||◌, Option,
  none, some, List, [], ◌∷◌, Text, units, Result, ok, throw, fail_if, Bool-cases, Option-cases,
  if◌then◌else◌, arith,
}
use distlab.Base.Actions.{Action, and_then, ◌>>=◌, ◌>>◌, pure, chain-keeps, chain-keeps_eq}
use distlab.Base.Dicts.{find}
use distlab.Contracts.Errors.{
  ErrorCode, invalid_network_reply, invalid_registration, target_unavailable,
}
use distlab.Values.{Value, end, includes}
use distlab.Canonical.{Raw, embed}
use distlab.Network.{
  NetworkPolicy, Flight, admitted, timed_out, Network, Leg, request, response, Host, Call, on_world,
  next_trace, next_span, flight_of, write, observed, observe,
}
use distlab.Scheduler.{ScheduledHandle}
use distlab.Network.Policies.{register}
use distlab.Network.Sending.{
  Request, send_leg, trace_for, new_flight, accepted, depart, request_call, parent_trace,
}
use distlab.Network.Settling.{
  Reply, may_reply, replying, answered, read_reply, send_reply, reply, reply_all, admit_as, deliver,
  note_received, receive_as, receive, time_out, expire, is_refusal, error_reply,
}
use distlab.Network.Lives.{
  Moves, admits, answers, settles, times_out, IsNew, Evolves, Evolves-same, Evolves-moves,
  Evolves-departs,
}
use distlab.Network.Legs.{branch-keeps, then-keeps, lift-keeps, observe-keeps, send_leg-keeps}

module _ {W : Type 0} (host : Host W) (n : Network W) where
  abbrev P : Network W → Type 0
  P = Evolves n

  kept_by_world : (A : Type 0) (m : Action W A) (t : Network W) → P t → P (on_world m t).1
  unfolding on_world
  kept_by_world A m t p = Evolves-same n t _ refl refl refl p

  flight_of-keeps : (id : Text) (t : Network W) → P t → P (flight_of id t).1
  unfolding flight_of
  flight_of-keeps id t p = elim (Option-cases (find id t.flights)) [
    | inl e ↦ rw (e, flight_of) p
    | inr (f, e) ↦ rw (e, flight_of) p
  ]

  flight_of-Shows :
      (id : Text) (t : Network W) {f : Flight} {u : Network W}
      → flight_of id t ≡ (ok f, u)
      → (t ≡ u) × (find id t.flights ≡ some f)
  unfolding flight_of
  flight_of-Shows id t {f} {u} h = ground arith

  -- A call that begins by reading a flight.
  read-keeps :
      {A : Type 0} (id : Text) (k : Flight → Call W A) (t : Network W)
      → P t
      → ((f : Flight) (u : Network W) → find id u.flights ≡ some f → P u → P (k f u).1)
      → P ((flight_of id >>= k) t).1
  read-keeps id k t p rest = chain-keeps_eq P (flight_of id) k t (flight_of-keeps id t p) λ f u e q.
      let (same, here) = flight_of-Shows id t e in
      rest f u (ap (λ (x : Network W). find id x.flights) (sym same) ∙ here) q

  write-keeps :
      (id : Text) (f g : Flight) (t : Network W)
      → find id t.flights ≡ some f
      → Moves f g
      → P t
      → P (write id g t).1
  unfolding write
  write-keeps id f g t here m p = Evolves-moves n t id f g here m p

  send_reply-keeps :
      (id : Text) (f : Flight) (r : Reply) (t : Network W)
      → find id t.flights ≡ some f
      → f.replied ≡ false
      → may_reply f.state ≡ true
      → P t
      → P (send_reply host id f r t).1
  unfolding send_reply
  send_reply-keeps id f r t here new may p =
      then-keeps P (write id (answered f)) _ t
        (write-keeps id f (answered f) t here (answers new may) p)
        λ u q.
          then-keeps P (observe host response _ _ _ none) _ u
            (observe-keeps host P kept_by_world response _ _ _ none u q)
            λ v s. send_leg-keeps host P kept_by_world (answered f) response _ v s

  replying-ok :
      (o : Option Flight) {f : Flight}
      → replying o ≡ ok f
      → (o ≡ some f) × (may_reply f.state ≡ true)
  unfolding replying
  replying-ok none h = cc
  replying-ok (some g) {f} h = elim (Bool-cases (may_reply g.state)) [
    | inl may ↦
        let e : g ≡ f = (let k = rw may at h in cc) in
        (ap some e, ap (λ (x : Flight). may_reply x.state) (sym e) ∙ may)
    | inr not_yet ↦ absurd (let k = rw not_yet at h in cc)
  ]

  pub reply-keeps : (id : Text) (input : Raw) (t : Network W) → P t → P (reply host id input t).1
  unfolding reply
  reply-keeps id input t p = lift-keeps P host.check _ t p λ _ _.
      lift-keeps P (fail_if (not host.dispatching) invalid_network_reply) _ t p λ _ _.
        lift-keeps P (replying (find id t.flights)) _ t p λ f found.
          lift-keeps P (read_reply input) _ t p λ r _.
            let (here, may) = replying-ok (find id t.flights) found in
            choice f r here may (Bool-cases f.replied)
    where
      choice :
          (f : Flight) (r : Reply)
          → find id t.flights ≡ some f
          → may_reply f.state ≡ true
          → (f.replied ≡ true) ⊎ (f.replied ≡ false)
          → P ((if f.replied then pure tt else send_reply host id f r) t).1
      choice f r here may (inl old) =
          subst (λ (m : Call W (Unit {0})). P (m t).1) (sym (if_true _ _ old)) p
      choice f r here may (inr new) =
          subst (λ (m : Call W (Unit {0})). P (m t).1)
            (sym (if_false (pure tt) (send_reply host id f r) new))
            (send_reply-keeps id f r t here new may p)

  reply_all-keeps : (rs : List (Text × Value)) (t : Network W) → P t → P (reply_all host rs t).1
  unfolding reply_all
  reply_all-keeps [] t p = p
  reply_all-keeps ((id, v) ∷ more) t p =
      then-keeps P (reply host id (embed v)) _ t (reply-keeps id (embed v) t p)
        λ u q. reply_all-keeps more u q

  admit_as-keeps :
      (id : Text) (f : Flight) (o : Option ErrorCode) (t : Network W)
      → P t
      → P (admit_as host id f o t).1
  unfolding admit_as
  admit_as-keeps id f none t p =
      chain-keeps P (on_world (host.accept f.target id f.request)) _ t
        (kept_by_world _ (host.accept f.target id f.request) t p) λ rs u q. reply_all-keeps rs u q
  admit_as-keeps id f (some code) t p =
      branch-keeps P (is_refusal code) _ _ t
        (reply-keeps f.request_id (embed (error_reply code)) t p) p

  observe-flights :
      (leg : Leg) (type : Text) (f : Flight) (payload : Value) (event_id : Option Text)
      (t : Network W)
      → (observe host leg type f payload event_id t).1.flights ≡ t.flights
  unfolding observe on_world
  observe-flights leg type f payload event_id t =
      chain-keeps (λ (x : Network W). x.flights ≡ t.flights)
        (on_world (host.sink.observe (observed host leg type f payload event_id))) _ t refl
        λ _ u q. q

  -- A record of a flight that is there.
  observed-keeps :
      {A : Type 0} (id : Text) (g : Flight) (leg : Leg) (type : Text) (f : Flight) (payload : Value)
      (event_id : Option Text) (k : Call W A) (t : Network W)
      → find id t.flights ≡ some g
      → P t
      → ((u : Network W) → find id u.flights ≡ some g → P u → P (k u).1)
      → P ((observe host leg type f payload event_id >> k) t).1
  observed-keeps id g leg type f payload event_id k t here p rest =
      chain-keeps_eq P (observe host leg type f payload event_id) (λ _. k) t
        (observe-keeps host P kept_by_world leg type f payload event_id t p)
        λ _ u e q.
          let last = ap (λ (r : Result (Unit {0}) × Network W). r.1.flights) e in
          rest u (ap (find id) (sym last ∙ observe-flights leg type f payload event_id t) ∙ here) q

  pub deliver-keeps : (id event_id : Text) (t : Network W) → P t → P (deliver host id event_id t).1
  unfolding deliver
  deliver-keeps id event_id t p = read-keeps id _ t p λ f u here q.
      observed-keeps id f request (units "network.request.delivered") f _ (some event_id) _ u here q
        λ v there r.
          then-keeps P (write id (record f { state = admitted })) _ v
            (write-keeps id f (record f { state = admitted }) v there admits r)
            λ w s.
              branch-keeps P (includes w.receivers f.target) _ _ w
                (chain-keeps P (on_world (host.admit f.target f.request)) _ w
                  (kept_by_world _ (host.admit f.target f.request) w s)
                  λ o x y. admit_as-keeps id f o x y)
                (reply-keeps f.request_id (embed (error_reply target_unavailable)) w s)

  receive_as-keeps :
      (id : Text) (f : Flight) (r : Reply) (event_id : Text) (t : Network W)
      → find id t.flights ≡ some f
      → P t
      → P (receive_as host id f r event_id t).1
  unfolding receive_as note_received
  receive_as-keeps id f r event_id t here p = settled_or (Bool-cases f.settled)
    where
      settled_or :
          (f.settled ≡ true) ⊎ (f.settled ≡ false) → P (receive_as host id f r event_id t).1
      settled_or (inl late) =
          subst (λ (m : Call W (Unit {0})). P (m t).1) (sym (if_true {b = f.settled} _ _ late))
            (observe-keeps host P kept_by_world response _ f _ (some event_id) t p)
      settled_or (inr in_time) =
          subst (λ (m : Call W (Unit {0})). P (m t).1)
            (sym (if_false {b = f.settled} (note_received host id f r true event_id) _ in_time))
            (then-keeps P (write id (record f { settled = true })) _ t
              (write-keeps id f (record f { settled = true }) t here (settles in_time) p)
              λ u q.
                chain-keeps P (on_world (host.cancel f.deadline_handle)) _ u
                  (kept_by_world _ (host.cancel f.deadline_handle) u q)
                  λ _ v s.
                    then-keeps P
                      (note_received host id (record f { settled = true }) r false event_id) _ v
                      (observe-keeps host P kept_by_world response _ _ _ (some event_id) v s)
                      λ w x. kept_by_world _ (host.complete id _) w x)

  pub receive-keeps :
      (id : Text) (r : Reply) (event_id : Text) (t : Network W)
      → P t
      → P (receive host id r event_id t).1
  unfolding receive
  receive-keeps id r event_id t p =
      read-keeps id _ t p λ f u here q. receive_as-keeps id f r event_id u here q

  time_out-keeps :
      (id : Text) (f : Flight) (event_id : Text) (t : Network W)
      → find id t.flights ≡ some f
      → f.settled ≡ false
      → P t
      → P (time_out host id f event_id t).1
  unfolding time_out
  time_out-keeps id f event_id t here in_time p =
      then-keeps P (write id (record f { settled = true; state = timed_out })) _ t
        (write-keeps id f _ t here (times_out in_time) p)
        λ u q.
          then-keeps P (observe host request _ _ _ (some event_id)) _ u
            (observe-keeps host P kept_by_world request _ _ _ (some event_id) u q)
            λ v s. kept_by_world _ (host.complete id _) v s

  pub expire-keeps : (id event_id : Text) (t : Network W) → P t → P (expire host id event_id t).1
  unfolding expire
  expire-keeps id event_id t p =
      read-keeps id _ t p λ f u here q. choice f u here q (Bool-cases f.settled)
    where
      choice :
          (f : Flight) (u : Network W)
          → find id u.flights ≡ some f
          → P u
          → (f.settled ≡ true) ⊎ (f.settled ≡ false)
          → P ((if f.settled then pure tt else time_out host id f event_id) u).1
      choice f u here q (inl late) =
          subst (λ (m : Call W (Unit {0})). P (m u).1) (sym (if_true _ _ late)) q
      choice f u here q (inr in_time) =
          subst (λ (m : Call W (Unit {0})). P (m u).1)
            (sym (if_false (pure tt) (time_out host id f event_id) in_time))
            (time_out-keeps id f event_id u here in_time q)

  pub register-keeps : (target : Text) (t : Network W) → P t → P (register host target t).1
  unfolding register
  register-keeps target t p = lift-keeps P host.check _ t p λ _ _.
      lift-keeps P
        (fail_if (t.sealed || not (includes t.targets target) || includes t.receivers target)
          invalid_registration)
        _ t p λ _ _. Evolves-same n t _ refl refl refl p

  -- No flight stands under an identity yet.
  record IsFree (id : Text) (t : Network W) : Type 0 where
    kept : P t
    free : find id t.flights ≡ none

  free-chain :
      {A B : Type 0} (id : Text) (m : Call W A) (f : A → Call W B) (t : Network W)
      → IsFree id (m t).1
      → ((a : A) (u : Network W) → IsFree id u → P (f a u).1)
      → P ((m >>= f) t).1
  free-chain {A} id m f t first rest = continued (m t).0 (m t).1 first
    where
      continued : (r : Result A) (u : Network W) → IsFree id u → P (and_then r f u).1
      continued (ok a) u q = rest a u q
      continued (throw e) u q = q.kept
      continued Result.type_error u q = q.kept

  world-IsFree :
      {A : Type 0} (id : Text) (m : Action W A) (t : Network W)
      → IsFree id t
      → IsFree id (on_world m t).1
  unfolding on_world
  world-IsFree id m t q = record { kept = Evolves-same n t _ refl refl refl q.kept; free = q.free }

  trace_for-IsFree :
      (id : Text) (o : Option Text) (t : Network W) → IsFree id t → IsFree id (trace_for o t).1
  unfolding trace_for next_trace
  trace_for-IsFree id (some trace) t q = q
  trace_for-IsFree id none t q = record {
    kept = Evolves-same n t _ refl refl refl q.kept;
    free = q.free;
  }

  next_span-IsFree : (id : Text) (t : Network W) → IsFree id t → IsFree id (next_span t).1
  unfolding next_span
  next_span-IsFree id t q = record {
    kept = Evolves-same n t _ refl refl refl q.kept;
    free = q.free;
  }

  created-IsFree :
      (t : Network W) {id : Text} {u : Network W}
      → ((op : Text) → (host.create t.world).0 ≡ ok op → find op t.flights ≡ none)
      → on_world host.create t ≡ (ok id, u)
      → P u
      → IsFree id u
  unfolding on_world
  created-IsFree t {id} {u} free e q =
      let last = ap (λ (r : Result Text × Network W). r.1.flights) e in
      record {
        kept = q;
        free = ap (find id) (sym last) ∙ free id (ap (λ (r : Result Text × Network W). r.0) e);
      }

  new_flight-IsNew :
      (source : Text) (r : Request) (id : Text) (deadline : ℕ) (policy : NetworkPolicy)
      (sent_id trace_id span_id : Text) (handle : ScheduledHandle)
      → IsNew (new_flight host source r id deadline policy sent_id trace_id span_id handle)
  unfolding new_flight
  new_flight-IsNew source r id deadline policy sent_id trace_id span_id handle = record {
    is_sent = refl;
    unanswered = refl;
    unsettled = refl;
  }

  depart-keeps :
      (source : Text) (r : Request) (policy : NetworkPolicy) (deadline : ℕ) (t : Network W)
      → ((op : Text) → (host.create t.world).0 ≡ ok op → find op t.flights ≡ none)
      → P t
      → P (depart host source r policy deadline t).1
  unfolding depart
  depart-keeps source r policy deadline t free p =
      chain-keeps_eq P (on_world host.create) _ t (kept_by_world _ host.create t p) λ id u e q.
        free-chain id (trace_for (parent_trace host)) _ u
          (trace_for-IsFree id (parent_trace host) u (created-IsFree t free e q))
          λ trace v a. free-chain id next_span _ v (next_span-IsFree id v a) λ span w b.
            free-chain id (on_world (host.sink.observe _)) _ w
              (world-IsFree id (host.sink.observe _) w b)
              λ o x c.
                free-chain id (on_world (host.schedule _)) _ x
                  (world-IsFree id (host.schedule _) x c)
                  λ handle y d.
                    let flight =
                      new_flight host source r id deadline policy o.id trace span handle in
                    then-keeps P (send_leg host flight request end) _ _
                      (send_leg-keeps host P kept_by_world flight request end _ (
                        Evolves-departs n y id flight d.free
                          (new_flight-IsNew source r id deadline policy o.id trace span handle)
                          d.kept))
                      λ _ z. z

  pub request_call-keeps :
      (source : Text) (input : Raw) (t : Network W)
      → ((op : Text) → (host.create t.world).0 ≡ ok op → find op t.flights ≡ none)
      → P t
      → P (request_call host source input t).1
  unfolding request_call
  request_call-keeps source input t free p =
      lift-keeps P (accepted host source input t) _ t p
        λ (r, policy, deadline) _. depart-keeps source r policy deadline t free p

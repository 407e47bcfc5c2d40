-- ===== src/Network/Departures.antt =====
-- What a request that is accepted leaves.
use mathlib.Core.Path.{subst}
use distlab.Base.{
  units, refl, if_false, ℕ, ◌+◌, ◌≡◌, ◌≢◌, text_eq, text_eq_iff, text_eq_refl, sym, ◌∙◌, ap, inl,
  inr, true, not, Option, none, some, Text, Result, ok, throw, bind-elim, or_fail, if_true, arith,
  Bool-cases,
}
use distlab.Base.Actions.{Action, lift-elim, chain-elim}
use distlab.Base.Dicts.{Dict, find, enter, find-enter}
use distlab.Contracts.Errors.{invalid_network_request}
use distlab.Values.{whole, end, simulation_time, duration}
use distlab.Canonical.{Raw}
use distlab.Clock.{add_duration}
use distlab.Network.{
  NetworkPolicy, Flight, Network, Host, Call, request, link_key, on_world, next_span, next_trace,
}
use distlab.Network.Sending.{
  Request, is_active, read_request, selected, deadline_of, accepted, trace_for, parent_trace,
  new_flight, depart, send_leg, request_call, sent_record, own_draft, with_id,
}
use distlab.Network.Lives.{IsNew}
use distlab.Network.Legs.{send_leg-keeps}
use distlab.Scheduler.{ScheduledHandle}

-- What a request that is accepted leaves: one more flight, as it was sent, and everything else of the network as it was.
pub record Departs {W : Type 0} (host : Host W) (source id : Text) (input : Raw) (n t : Network W)
    : Type 0 where
  pub checked : Request
  pub policy : NetworkPolicy
  pub flight : Flight
  pub active : is_active host.active_owner source ≡ true
  pub reads : read_request n.targets input ≡ ok checked
  pub linked : find (link_key source checked.target) n.links ≡ some policy
  pub flights : t.flights ≡ enter id flight n.flights
  pub entered : find id t.flights ≡ some flight
  pub others : (other : Text) → other ≢ id → find other t.flights ≡ find other n.flights
  pub links : t.links ≡ n.links
  pub targets : t.targets ≡ n.targets
  pub receivers : t.receivers ≡ n.receivers
  pub named : flight.request_id ≡ id
  pub from : flight.source ≡ source
  pub to : flight.target ≡ checked.target
  pub endpoint : flight.endpoint ≡ checked.endpoint
  pub request : flight.request ≡ checked.fields
  pub under : flight.policy ≡ policy
  pub deadline : flight.deadline ≡ host.now + policy.timeout
  pub new : IsNew flight

find-enter_same :
    (id : Text) (flight : Flight) (d : Dict Flight) → find id (enter id flight d) ≡ some flight
find-enter_same id flight d = find-enter id id flight d ∙ if_true _ _ (text_eq_refl id)

find-enter_other :
    (id other : Text) (flight : Flight) (d : Dict Flight)
    → other ≢ id
    → find other (enter id flight d) ≡ find other d
find-enter_other id other flight d apart = elim (Bool-cases (text_eq id other)) [
  | inl same ↦ absurd (apart (sym ((text_eq_iff id other).0 same)))
  | inr differs ↦ find-enter id other flight d ∙ if_false _ _ differs
]

-- The parts of a network that no leg of a flight touches.
record Stays {W : Type 0} (n t : Network W) : Type 0 where
  flights : t.flights ≡ n.flights
  links : t.links ≡ n.links
  targets : t.targets ≡ n.targets
  receivers : t.receivers ≡ n.receivers

add_duration-sum : (now d : ℕ) {sum : ℕ} → add_duration now (whole d) ≡ ok sum → sum ≡ now + d
unfolding add_duration simulation_time duration
add_duration-sum now d h = ground arith

or_fail-ok : {r : Result ℕ} {n : ℕ} → or_fail r invalid_network_request ≡ ok n → r ≡ ok n
or_fail-ok {r = ok m} h = h
or_fail-ok {r = throw x} h = cc
or_fail-ok {r = Result.type_error} h = cc

deadline_of-sum :
    (now : ℕ) (p : NetworkPolicy) {deadline : ℕ}
    → deadline_of now p ≡ ok deadline
    → deadline ≡ now + p.timeout
unfolding deadline_of
deadline_of-sum now p h = bind-elim (add_duration now (whole p.timeout)) _ (or_fail-ok h) λ d e h₁.
    bind-elim (duration (whole (p.request_latency + p.jitter))) _ h₁ λ x _ h₂.
      bind-elim (add_duration now (whole x)) _ h₂
        λ _ _ last. let same : d ≡ _ = cc in sym same ∙ add_duration-sum now p.timeout e

selected-some : (o : Option NetworkPolicy) {p : NetworkPolicy} → selected o ≡ ok p → o ≡ some p
unfolding selected
selected-some none h = cc
selected-some (some q) h = cc

module _ {W : Type 0} where
  Stays-trans : {n t u : Network W} → Stays n t → Stays t u → Stays n u
  Stays-trans a b = record {
    flights = b.flights ∙ a.flights;
    links = b.links ∙ a.links;
    targets = b.targets ∙ a.targets;
    receivers = b.receivers ∙ a.receivers;
  }

  world-Stays :
      (n : Network W) (A : Type 0) (m : Action W A) (t : Network W)
      → Stays n t
      → Stays n (on_world m t).1
  unfolding on_world
  world-Stays n A m t s = record {
    flights = s.flights;
    links = s.links;
    targets = s.targets;
    receivers = s.receivers;
  }

  Stays-refl : (n : Network W) → Stays n n
  Stays-refl n = record { flights = refl; links = refl; targets = refl; receivers = refl }

  trace_for-Stays : (o : Option Text) (t : Network W) → Stays t (trace_for o t).1
  unfolding trace_for next_trace
  trace_for-Stays (some trace) t = Stays-refl t
  trace_for-Stays none t = record { flights = refl; links = refl; targets = refl; receivers = refl }

  next_span-Stays : (t : Network W) → Stays t (next_span t).1
  unfolding next_span
  next_span-Stays t = record { flights = refl; links = refl; targets = refl; receivers = refl }

  -- One more step, whose answer is known.
  then-Stays :
      {A : Type 0} (m : Call W A) {n t u : Network W} {r : Result A}
      → Stays n t
      → Stays t (m t).1
      → m t ≡ (r, u)
      → Stays n u
  then-Stays {A} m {n} s step e =
      subst (Stays n) (ap (λ (x : Result A × Network W). x.1) e) (Stays-trans s step)

module _ {W : Type 0} (host : Host W) where
  -- A departure with the flight as it was sent.
  record Sent (source id : Text) (r : Request) (p : NetworkPolicy) (deadline : ℕ) (n t : Network W)
      : Type 0 where
    sent_id : Text
    trace : Text
    span : Text
    handle : ScheduledHandle
    kept :
        Stays
          (record n {
            flights =
                enter id
                  (new_flight host source r id deadline p sent_id trace span handle)
                  n.flights;
          })
          t

  depart-Sent :
      (source : Text) (r : Request) (p : NetworkPolicy) (deadline : ℕ) (n : Network W) {id : Text}
      {t : Network W}
      → depart host source r p deadline n ≡ (ok id, t)
      → Sent source id r p deadline n t
  unfolding depart
  depart-Sent source r p deadline n {id} {t} h =
      chain-elim (on_world host.create) _ n h λ op u e₁ h₁.
        chain-elim (trace_for (parent_trace host)) _ u h₁ λ trace v e₂ h₂.
          chain-elim next_span _ v h₂ λ span w e₃ h₃.
            let seen = sent_record host source r op deadline trace span in
            chain-elim (on_world (host.sink.observe seen)) _ w h₃ λ o x e₄ h₄.
              let draft =
                own_draft deadline (units "kernel.network.deadline") (with_id op end) trace span
                  o.id in
              chain-elim (on_world (host.schedule draft)) _ x h₄ λ handle y e₅ h₅.
                let flight = new_flight host source r op deadline p o.id trace span handle in
                let left : Network W = record y { flights = enter op flight y.flights } in
                let a =
                  then-Stays (on_world host.create) (Stays-refl n)
                    (world-Stays n _ host.create n (Stays-refl n)) e₁ in
                let b =
                  then-Stays (trace_for (parent_trace host)) a
                    (trace_for-Stays (parent_trace host) u) e₂ in
                let c = then-Stays next_span b (next_span-Stays v) e₃ in
                let d =
                  then-Stays (on_world (host.sink.observe seen)) c
                    (world-Stays w _ (host.sink.observe seen) w (Stays-refl w)) e₄ in
                let f =
                  then-Stays (on_world (host.schedule draft)) d
                    (world-Stays x _ (host.schedule draft) x (Stays-refl x)) e₅ in
                chain-elim (send_leg host flight request end) _ left h₅ λ _ z e₆ last.
                  let g =
                    then-Stays (send_leg host flight request end) (Stays-refl left)
                      (send_leg-keeps host (Stays left) (world-Stays left) flight request end left
                        (Stays-refl left))
                      e₆ in
                  let same : op ≡ id = cc in
                  let end_state : z ≡ t = cc in
                  let all : Stays (record n { flights = enter op flight n.flights }) z = record {
                    flights = g.flights ∙ ap (enter op flight) f.flights;
                    links = g.links ∙ f.links;
                    targets = g.targets ∙ f.targets;
                    receivers = g.receivers ∙ f.receivers;
                  } in
                  record {
                    sent_id = o.id;
                    trace = trace;
                    span = span;
                    handle = handle;
                    kept =
                        subst
                          (λ (k : Text).
                            Stays
                              (record n {
                                flights =
                                    enter k
                                      (new_flight host source r k deadline p o.id trace span handle)
                                      n.flights;
                              })
                              t)
                          same
                          (subst (Stays (record n { flights = enter op flight n.flights }))
                            end_state all);
                  }

  -- A request that succeeds was made by the task's owner, in a well-formed way, over a link that is there. It
  -- enters one flight under the operation that it returns, from the owner to the target and its endpoint, with the
  -- request as it was read, under the policy of the link, due at the present time plus the link's timeout, and
  -- neither delivered, replied to nor settled. Every other flight, the links, the targets and the receivers stay.
  pub request_call-Departs :
      (source : Text) (input : Raw) (n : Network W) {id : Text} {t : Network W}
      → request_call host source input n ≡ (ok id, t)
      → Departs host source id input n t
  unfolding request_call accepted new_flight
  request_call-Departs source input n {id} {t} h =
      elim (Bool-cases (is_active host.active_owner source)) [
        | inl active ↦ lift-elim (accepted host source input n) _ n h λ (r, p, deadline) taken h₁.
            let passed = sym (if_false _ _ (ap not active)) ∙ taken in
            bind-elim (read_request n.targets input) _ passed λ r' reads more.
              bind-elim (selected (find (link_key source r'.target) n.links)) _ more
                λ p' linked rest. bind-elim (deadline_of host.now p') _ rest λ d timed last.
                  departed active r p deadline r' p' d reads linked timed (cc) (cc) (cc) h₁
        | inr idle ↦
            lift-elim (accepted host source input n) _ n h
              λ _ taken _. absurd (let refused = sym (if_true _ _ (ap not idle)) ∙ taken in cc)
      ]
    where
      departed :
          is_active host.active_owner source ≡ true
          → (r : Request) (p : NetworkPolicy) (deadline : ℕ) (r' : Request) (p' : NetworkPolicy)
            (d : ℕ)
          → read_request n.targets input ≡ ok r'
          → selected (find (link_key source r'.target) n.links) ≡ ok p'
          → deadline_of host.now p' ≡ ok d
          → r' ≡ r
          → p' ≡ p
          → d ≡ deadline
          → depart host source r p deadline n ≡ (ok id, t)
          → Departs host source id input n t
      departed active r p deadline r' p' d reads linked timed same_r same_p same_d gone =
          let sailed = depart-Sent source r p deadline n gone in
          record {
            checked = r;
            policy = p;
            flight =
                new_flight host source r id deadline p sailed.sent_id sailed.trace sailed.span
                  sailed.handle;
            active = active;
            reads = reads ∙ ap (λ (x : Request). ok x) same_r;
            linked =
                ap (λ (x : Request). find (link_key source x.target) n.links) (sym same_r)
                ∙ selected-some _ linked
                ∙ ap (λ (x : NetworkPolicy). some x) same_p;
            flights = sailed.kept.flights;
            entered = ap (find id) sailed.kept.flights ∙ find-enter_same id _ n.flights;
            others = λ other apart.
                ap (find other) sailed.kept.flights ∙ find-enter_other id other _ n.flights apart;
            links = sailed.kept.links;
            targets = sailed.kept.targets;
            receivers = sailed.kept.receivers;
            named = refl;
            from = refl;
            to = refl;
            endpoint = refl;
            request = refl;
            under = refl;
            deadline =
                sym same_d
                ∙ deadline_of-sum host.now p' timed
                ∙ ap (λ (x : NetworkPolicy). host.now + x.timeout) same_p;
            new = record { is_sent = refl; unanswered = refl; unsettled = refl };
          }

-- ===== src/Network/Once.antt =====
-- What holds of a flight whatever calls are made: it is settled once and replied to once.
use distlab.Base.{
  ◌≡◌, refl, sym, ◌∙◌, ap, inl, inr, Bool, true, false, not, ◌||◌, none, some, List, [], ◌∷◌, Text,
  Result, ok, throw, bind, bind-elim, fail_if, if_true, if◌then◌else◌, arith, Bool-cases,
}
use distlab.Base.Actions.{and_then, pure, lift, chain-run}
use distlab.Base.Dicts.{find}
use distlab.Contracts.Errors.{invalid_network_reply, invalid_run_input}
use distlab.Canonical.{Raw}
use distlab.Network.{Flight, FlightState, replied, timed_out, Network, Host, Call, flight_of}
use distlab.Network.Policies.{
  Link, create, start, has_repeat, has_empty, read_links, register, seal,
}
use distlab.Network.Sending.{request_call}
use distlab.Network.Settling.{
  Reply, may_reply, replying, answered, read_reply, reply, deliver, note_received, receive_as,
  receive, expire, time_out,
}
use distlab.Network.Lives.{
  Moves, admits, answers, settles, times_out, Lives, stays, moves, IsNew, Evolves, Evolves-refl,
  Evolves-same,
}
use distlab.Network.Moves.{
  request_call-keeps, register-keeps, deliver-keeps, reply-keeps, receive-keeps, expire-keeps,
}

pub data Invocation : Type 0 where
  requests : Text → Raw → Invocation
  registers : Text → Invocation
  delivers : Text → Text → Invocation
  replies : Text → Raw → Invocation
  receives : Text → Reply → Text → Invocation
  expires : Text → Text → Invocation
  seals : Invocation

module _ {W : Type 0} where
  -- What a call leaves, whatever it returns or throws.
  unfoldable pub after : Host W → Invocation → Network W → Network W
  after host (requests source input) n = (request_call host source input n).1
  after host (registers target) n = (register host target n).1
  after host (delivers id event_id) n = (deliver host id event_id n).1
  after host (replies id input) n = (reply host id input n).1
  after host (receives id r event_id) n = (receive host id r event_id n).1
  after host (expires id event_id) n = (expire host id event_id n).1
  after host seals n = seal n

  -- The operation of a request has an identity that no flight has: operations are never given the same.
  abbrev pub IsFresh : Host W → Invocation → Network W → Type 0
  IsFresh host (requests source input) n =
      (id : Text) → (host.create n.world).0 ≡ ok id → find id n.flights ≡ none
  IsFresh host _ n = Unit

  -- Calls in any order; at each the simulation shows a time, an owner and ports of its own.
  pub data Reach (n : Network W) : Network W → Type 0 where
    here : Reach n n
    next :
        {t : Network W}
        → Reach n t
        → (host : Host W) (call : Invocation) → IsFresh host call t
        → Reach n (after host call t)

  after-Evolves :
      (host : Host W) (call : Invocation) (n t : Network W)
      → IsFresh host call t
      → Evolves n t
      → Evolves n (after host call t)
  unfolding after seal
  after-Evolves host (requests source input) n t f v = request_call-keeps host n source input t f v
  after-Evolves host (registers target) n t f v = register-keeps host n target t v
  after-Evolves host (delivers id event_id) n t f v = deliver-keeps host n id event_id t v
  after-Evolves host (replies id input) n t f v = reply-keeps host n id input t v
  after-Evolves host (receives id r event_id) n t f v = receive-keeps host n id r event_id t v
  after-Evolves host (expires id event_id) n t f v = expire-keeps host n id event_id t v
  after-Evolves host seals n t f v = Evolves-same n t _ refl refl refl v

  Reach-Evolves : (n : Network W) {t : Network W} → Reach n t → Evolves n t
  Reach-Evolves n here = Evolves-refl n
  Reach-Evolves n (next {t = t} r host call f) = after-Evolves host call n t f (Reach-Evolves n r)

-- What a flight keeps, and what it never takes back.
pub record Keeps (f g : Flight) : Type 0 where
  pub request_id : g.request_id ≡ f.request_id
  pub source : g.source ≡ f.source
  pub target : g.target ≡ f.target
  pub deadline : g.deadline ≡ f.deadline
  pub policy : g.policy ≡ f.policy
  pub stays_settled : f.settled ≡ true → g.settled ≡ true
  pub stays_replied : f.replied ≡ true → g.replied ≡ true

Moves-Keeps : {f g : Flight} → Moves f g → Keeps f g
unfolding answered
Moves-Keeps admits = record {
  request_id = refl;
  source = refl;
  target = refl;
  deadline = refl;
  policy = refl;
  stays_settled = λ h. h;
  stays_replied = λ h. h;
}
Moves-Keeps (answers new may) = record {
  request_id = refl;
  source = refl;
  target = refl;
  deadline = refl;
  policy = refl;
  stays_settled = λ h. h;
  stays_replied = λ h. refl;
}
Moves-Keeps (settles in_time) = record {
  request_id = refl;
  source = refl;
  target = refl;
  deadline = refl;
  policy = refl;
  stays_settled = λ h. refl;
  stays_replied = λ h. h;
}
Moves-Keeps (times_out in_time) = record {
  request_id = refl;
  source = refl;
  target = refl;
  deadline = refl;
  policy = refl;
  stays_settled = λ h. refl;
  stays_replied = λ h. h;
}

pub Lives-Keeps : {f g : Flight} → Lives f g → Keeps f g
Lives-Keeps stays = record {
  request_id = refl;
  source = refl;
  target = refl;
  deadline = refl;
  policy = refl;
  stays_settled = λ h. h;
  stays_replied = λ h. h;
}
Lives-Keeps (moves l m) =
    let a = Lives-Keeps l in
    let b = Moves-Keeps m in
    record {
      request_id = b.request_id ∙ a.request_id;
      source = b.source ∙ a.source;
      target = b.target ∙ a.target;
      deadline = b.deadline ∙ a.deadline;
      policy = b.policy ∙ a.policy;
      stays_settled = λ h. b.stays_settled (a.stays_settled h);
      stays_replied = λ h. b.stays_replied (a.stays_replied h);
    }

-- The marks of a flight agree with its state.
pub record IsCoherent (f : Flight) : Type 0 where
  pub undelivered : may_reply f.state ≡ false → f.replied ≡ false
  pub timed : f.state ≡ timed_out → f.settled ≡ true
  pub answered : f.state ≡ replied → f.replied ≡ true

IsNew-IsCoherent : (f : Flight) → IsNew f → IsCoherent f
IsNew-IsCoherent f n = record {
  undelivered = λ _. n.unanswered;
  timed = λ h. absurd (let e = n.is_sent in cc);
  answered = λ h. absurd (let e = n.is_sent in cc);
}

answered-timed :
    (settled : Bool) (state : FlightState)
    → (if settled then state else replied) ≡ timed_out
    → settled ≡ true
answered-timed true state h = refl
answered-timed false state h = cc

answered-may :
    (settled : Bool) (state : FlightState)
    → may_reply state ≡ true
    → may_reply (if settled then state else replied) ≡ true
unfolding may_reply
answered-may true state h = h
answered-may false state h = refl

Moves-IsCoherent : {f g : Flight} → Moves f g → IsCoherent f → IsCoherent g
unfolding may_reply answered
Moves-IsCoherent admits s = record {
  undelivered = λ h. absurd (cc);
  timed = λ h. absurd (cc);
  answered = λ h. absurd (cc);
}
Moves-IsCoherent {f} (answers new may) s = record {
  undelivered = λ h. absurd (let e = answered-may f.settled f.state may in cc);
  timed = λ h. answered-timed f.settled f.state h;
  answered = λ _. refl;
}
Moves-IsCoherent (settles in_time) s = record {
  undelivered = s.undelivered;
  timed = λ _. refl;
  answered = s.answered;
}
Moves-IsCoherent (times_out in_time) s = record {
  undelivered = λ h. absurd (cc);
  timed = λ _. refl;
  answered = λ h. absurd (cc);
}

Lives-IsCoherent : {f g : Flight} → Lives f g → IsCoherent f → IsCoherent g
Lives-IsCoherent stays s = s
Lives-IsCoherent (moves l m) s = Moves-IsCoherent m (Lives-IsCoherent l s)

delivered : (g : Flight) → IsCoherent g → g.replied ≡ true → may_reply g.state ≡ true
delivered g s h = elim (Bool-cases (may_reply g.state)) [
  | inl e ↦ e
  | inr e ↦ absurd (let q = s.undelivered e in cc)
]

module _ {W : Type 0} where
  create-flights :
      (targets : List Text) (links : List Link) (run : Text) (w : W) {n : Network W}
      → create targets links run w ≡ ok n
      → n.flights ≡ []
  unfolding create start
  create-flights targets links [] w h = cc
  create-flights targets links (c ∷ run) w {n} h =
      checked (has_repeat targets || has_empty targets) h
    where
      checked :
          (b : Bool)
          → (if b
              then throw invalid_run_input
              else bind (read_links targets links []) (λ read. ok (start targets (c ∷ run) w read)))
            ≡ ok n
          → n.flights ≡ []
      checked true k = cc
      checked false k = bind-elim (read_links targets links []) _ k λ read _ last.
          let e : start targets (c ∷ run) w read ≡ n = cc in
          ap (λ (x : Network W). x.flights) (sym e)

  -- Whatever calls are made on a new network, in any order, with any arguments and whatever the
  -- ports answer, as long as no two operations get the same identity: a flight that was not
  -- delivered has no reply, one in the state TIMED_OUT is settled, and one in the state REPLIED has
  -- its reply.
  pub Reach-IsCoherent :
      (targets : List Text) (links : List Link) (run : Text) (w : W) {n t : Network W}
      → create targets links run w ≡ ok n
      → Reach n t
      → (id : Text) (f : Flight) → find id t.flights ≡ some f
      → IsCoherent f
  unfolding find
  Reach-IsCoherent targets links run w {n} {t} e r id f stands =
      elim ((Reach-Evolves n r).backwards id f stands) [
        | inl (g, old, l) ↦
            absurd (let none_yet = ap (find id) (create-flights targets links run w e) in cc)
        | inr (g, new, l) ↦ Lives-IsCoherent l (IsNew-IsCoherent g new)
      ]

  flight_of-run :
      (id : Text) (n : Network W) {f : Flight}
      → find id n.flights ≡ some f
      → flight_of id n ≡ (ok f, n)
  unfolding flight_of
  flight_of-run id n e = ground arith

  -- A flight that is settled stays settled, whatever calls come between, and nothing settles it
  -- again: its deadline does nothing then, and the arrival of a reply does no more than record that
  -- it is late. Its parties, its deadline and its policy are what they were.
  pub settled_once :
      (host : Host W) (n t : Network W) (id event_id : Text) (f : Flight) (r : Reply)
      → find id n.flights ≡ some f
      → f.settled ≡ true
      → Reach n t
      → (g : Flight) × (find id t.flights ≡ some g)
        × Keeps f g
        × (expire host id event_id t ≡ (ok tt, t))
        × (receive host id r event_id t ≡ note_received host id g r true event_id t)
  unfolding expire receive receive_as
  settled_once host n t id event_id f r stood settled calls =
      let (g, there, l) = (Reach-Evolves n calls).forwards id f stood in
      let k = Lives-Keeps l in
      let late = k.stays_settled settled in
      (
        g,
        there,
        k,
        ap
              (λ (x : Result Flight × Network W).
                and_then x.0 (λ y. if y.settled then pure tt else time_out host id y event_id) x.1)
              (flight_of-run id t there)
            ∙ ap (λ (m : Call W (Unit {0})). m t) (if_true _ _ late),
        ap
              (λ (x : Result Flight × Network W).
                and_then x.0 (λ y. receive_as host id y r event_id) x.1)
              (flight_of-run id t there)
            ∙ ap (λ (m : Call W (Unit {0})). m t) (if_true {b = g.settled} _ _ late),
      )

  -- A flight that has its reply takes no other one: whatever calls come between, a further reply
  -- that is well formed changes nothing. The network is one that calls have led to from a new one.
  pub replied_once :
      (host : Host W) (targets : List Text) (links : List Link) (run : Text) (w : W)
      {n₀ n t : Network W} (id : Text) (f : Flight) (input : Raw) (r : Reply)
      → create targets links run w ≡ ok n₀
      → Reach n₀ n
      → find id n.flights ≡ some f
      → f.replied ≡ true
      → Reach n t
      → host.check ≡ ok tt
      → host.dispatching ≡ true
      → read_reply input ≡ ok r
      → reply host id input t ≡ (ok tt, t)
  unfolding reply replying
  replied_once host targets links run w {n₀} {n} {t} id f input r made start_calls stood has calls
        checks dispatches reads =
      let (g, there, l) = (Reach-Evolves n calls).forwards id f stood in
      let k = Lives-Keeps l in
      let again = k.stays_replied has in
      let sound =
        Lives-IsCoherent l (Reach-IsCoherent targets links run w made start_calls id f stood) in
      let may = delivered g sound again in
      let Post = λ (x : Result (Unit {0}) × Network W). x ≡ (ok tt, t) in
      chain-run Post (lift host.check) _ t tt checks (
        chain-run Post (lift (fail_if (not host.dispatching) invalid_network_reply)) _ t tt
          (ap (λ (b : Bool). fail_if (not b) invalid_network_reply) dispatches)
          (chain-run Post (lift (replying (find id t.flights))) _ t g
            (ap replying there ∙ if_true _ _ may)
            (chain-run Post (lift (read_reply input)) _ t r reads
              (ap (λ (m : Call W (Unit {0})). m t) (if_true _ _ again)))))

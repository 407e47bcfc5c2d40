-- ===== src/Network/Legs.antt =====
-- packages/kernel/src/network.ts: rules for chains of steps, and what the legs of a flight keep. Whatever a call of a
-- port keeps, a leg keeps: it has no other effect.
use distlab.Base.{
  ℕ, ◌+◌, ◌≡◌, refl, Bool, true, false, not, ◌||◌, Option, none, some, Text, Result, ok, throw,
  fail_if, ◌==◌, if◌then◌else◌,
}
use distlab.Base.Actions.{Action, ◌>>=◌, ◌>>◌, pure, lift, chain-keeps}
use distlab.Contracts.Errors.{invalid_fault, time_overflow}
use distlab.Values.{
  is_safe, duration, Number, whole, negative, negative_zero, fraction, non_finite, Value, Fields,
}
use distlab.Canonical.{embed, canonical_copy}
use distlab.Clock.{add_duration}
use distlab.Faults.{FaultProbe, FaultDecision}
use distlab.Network.{Flight, Network, Leg, Host, Call, on_world, observed, observe}
use distlab.Network.Sending.{
  jitter_of, lost_by, effect_by, decision, launch, send_leg, probe_of, is_foreign, latency, with_id,
  own_draft, leg_event,
}

module _ {W : Type 0} (P : Network W → Type 0) where
  pub branch-keeps :
      {A : Type 0} (b : Bool) (m k : Call W A) (t : Network W)
      → P (m t).1
      → P (k t).1
      → P ((if b then m else k) t).1
  branch-keeps true m k t p q = p
  branch-keeps false m k t p q = q

  pub then-keeps :
      {A : Type 0} (m : Call W (Unit {0})) (k : Call W A) (t : Network W)
      → P (m t).1
      → ((u : Network W) → P u → P (k u).1)
      → P ((m >> k) t).1
  then-keeps m k t p rest = chain-keeps P m (λ _. k) t p (λ _ u q. rest u q)

  pub lift-keeps :
      {A B : Type 0} (r : Result A) (f : A → Call W B) (t : Network W)
      → P t
      → ((a : A) → r ≡ ok a → P (f a t).1)
      → P ((lift r >>= f) t).1
  lift-keeps (ok a) f t h rest = rest a refl
  lift-keeps (throw e) f t h rest = h
  lift-keeps Result.type_error f t h rest = h

module _ {W : Type 0} (host : Host W) (P : Network W → Type 0)
    (by_world : (A : Type 0) (m : Action W A) (t : Network W) → P t → P (on_world m t).1) where
  pub observe-keeps :
      (leg : Leg) (type : Text) (f : Flight) (payload : Value) (event_id : Option Text)
      (t : Network W)
      → P t
      → P (observe host leg type f payload event_id t).1
  unfolding observe
  observe-keeps leg type f payload event_id t p =
      chain-keeps P (on_world (host.sink.observe (observed host leg type f payload event_id))) _ t
        (by_world _ (host.sink.observe (observed host leg type f payload event_id)) t p) λ _ u q. q

  pub jitter_of-keeps : (leg : Leg) (j : ℕ) (t : Network W) → P t → P (jitter_of host leg j t).1
  unfolding jitter_of
  jitter_of-keeps leg j t p =
      branch-keeps P (j == 0) _ _ t p
        (chain-keeps P (on_world (host.draw _)) _ t (by_world _ (host.draw _) t p) λ _ u q. q)

  pub drawn-keeps :
      (m : Action W ℕ) (f : ℕ → Bool) (t : Network W)
      → P t
      → P ((on_world m >>= λ b. pure (f b)) t).1
  drawn-keeps m f t p = chain-keeps P (on_world m) _ t (by_world _ m t p) λ _ u q. q

  pub lost_by-keeps :
      (leg : Leg) (rate : Number) (t : Network W) → P t → P (lost_by host leg rate t).1
  unfolding lost_by
  lost_by-keeps leg (whole k) t p = p
  lost_by-keeps leg negative_zero t p = p
  lost_by-keeps leg (negative k) t p = drawn-keeps (host.draw _) _ t p
  lost_by-keeps leg (fraction k) t p = drawn-keeps (host.draw _) _ t p
  lost_by-keeps leg (non_finite k) t p = drawn-keeps (host.draw _) _ t p

  pub effect_by-keeps :
      (port : Option (FaultProbe → Action W FaultDecision)) (leg : Leg) (f : Flight) (t : Network W)
      → P t
      → P (effect_by host port leg f t).1
  unfolding effect_by
  effect_by-keeps none leg f t p = p
  effect_by-keeps (some evaluate) leg f t p = by_world _ (evaluate (probe_of leg f)) t p

  pub decision-keeps : (f : Flight) (leg : Leg) (t : Network W) → P t → P (decision host f leg t).1
  unfolding decision
  decision-keeps f leg t p =
      chain-keeps P (jitter_of host leg f.policy.jitter) _ t
        (jitter_of-keeps leg f.policy.jitter t p)
        λ jitter u q.
          chain-keeps P (lost_by host leg f.policy.failure_rate) _ u
            (lost_by-keeps leg f.policy.failure_rate u q)
            λ lost v r.
              chain-keeps P (effect_by host host.faults leg f) _ v
                (effect_by-keeps host.faults leg f v r)
                λ effect w s.
                  lift-keeps P
                    (fail_if (not (is_safe effect.extra_delay) || is_foreign effect) invalid_fault)
                    _ w s
                    λ _ _.
                      lift-keeps P
                        (fail_if (not (is_safe (jitter + effect.extra_delay))) time_overflow) _ w s
                        λ _ _. s

  pub launch-keeps :
      (f : Flight) (leg : Leg) (more : Fields) (delay : ℕ) (t : Network W)
      → P t
      → P (launch host f leg more delay t).1
  unfolding launch
  launch-keeps f leg more delay t p =
      lift-keeps P (fail_if (not (is_safe (latency leg f.policy + delay))) time_overflow) _ t p
        λ _ _. lift-keeps P (duration (whole (latency leg f.policy + delay))) _ t p λ d _.
          lift-keeps P (add_duration host.now (whole d)) _ t p λ due _.
            lift-keeps P (canonical_copy (embed (with_id f.request_id more))) _ t p λ payload _.
              let post =
                host.schedule
                  (own_draft due (leg_event leg) payload f.trace_id f.span_id f.sent_id) in
              chain-keeps P (on_world post) _ t (by_world _ post t p) λ _ u q. q

  pub send_leg-keeps :
      (f : Flight) (leg : Leg) (more : Fields) (t : Network W)
      → P t
      → P (send_leg host f leg more t).1
  unfolding send_leg
  send_leg-keeps f leg more t p =
      chain-keeps P (decision host f leg) _ t (decision-keeps f leg t p) λ d u q.
        branch-keeps P d.dropped _ _ u (observe-keeps leg _ f _ none u q)
          (launch-keeps f leg more d.delay u q)

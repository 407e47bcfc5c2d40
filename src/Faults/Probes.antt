-- ===== src/Faults/Probes.antt =====
-- packages/kernel/src/fault-engine.ts: the identities of the probes that were evaluated, which `evaluate` refuses.
use mathlib.Core.Path.{subst}
use distlab.Base.{
  ℕ, zero, suc, ◌≡◌, refl, sym, ◌∙◌, inl, inr, true, false, Bool-cases, not, Option-cases, ◌∷◌,
  get_elem?, set, length, Text, text_eq_refl, ok, throw, fail_if, arith, ◌==◌,
}
use distlab.Base.Actions.{◌>>=◌, pure, lift, chain-keeps, chain-elim, lift-elim}
use distlab.Contracts.Errors.{invalid_fault, fault_probe_reused, stale_capability}
use distlab.Values.{Number, is_safe, includes}
use distlab.Faults.{
  FaultProbe, FaultDecision, RuleState, Engine, Ports, is_candidate, probe_identity, undecided,
  is_missing,
}
use distlab.Faults.Evaluation.{
  check, note, draw, chance, choose, put_state, select, consider, count, visit, visit_all, try_rule,
  probe_once, evaluate, is_probe, decide,
}

module _ {R Log : Type 0} where
  -- An identity that is listed.
  record Lists (id : Text) (t : Engine R Log) : Type 0 where
    listed : includes t.probes id ≡ true

module _ {R Log : Type 0} (ports : Ports R Log) where
  select_probes :
      (probe : FaultProbe) (i : ℕ) (st : RuleState) (d : FaultDecision) (s : Engine R Log)
      → ((select ports probe i st d s).1.probes ≡ s.probes)
        × ((select ports probe i st d s).1.generation ≡ s.generation)
  unfolding select note put_state
  select_probes probe i st d s = ground arith

  chance_probes :
      (id : Text) (p : Number) (s : Engine R Log)
      → ((chance ports id p s).1.probes ≡ s.probes)
        × ((chance ports id p s).1.generation ≡ s.generation)
  unfolding chance draw
  chance_probes id p s = ground arith

  consider_probes :
      (probe : FaultProbe) (i : ℕ) (st : RuleState) (d : FaultDecision) (s : Engine R Log)
      → ((consider ports probe i st d s).1.probes ≡ s.probes)
        × ((consider ports probe i st d s).1.generation ≡ s.generation)
  unfolding consider choose note
  consider_probes probe i st d s =
      ground (arith, chance_probes st.rule.id st.rule.probability s, select_probes probe i st d)

  try_rule_probes :
      (probe : FaultProbe) (i : ℕ) (st : RuleState) (d : FaultDecision) (s : Engine R Log)
      → ((try_rule ports probe i st d s).1.probes ≡ s.probes)
        × ((try_rule ports probe i st d s).1.generation ≡ s.generation)
  unfolding try_rule
  try_rule_probes probe i st d s = ground (arith, consider_probes probe i st d s)

  count_probes :
      (probe : FaultProbe) (i : ℕ) (st : RuleState) (d : FaultDecision) (s : Engine R Log)
      → ((count ports probe i st d s).1.probes ≡ s.probes)
        × ((count ports probe i st d s).1.generation ≡ s.generation)
  unfolding count put_state
  count_probes probe i st d s = elim (Bool-cases (is_safe (suc st.candidates))) [
    | inr over ↦ rw (over, count) (refl, refl)
    | inl fits ↦
        rw (fits, count)
          (try_rule_probes probe i (record st { candidates = suc st.candidates }) d
            (record s { states = set s.states i (record st { candidates = suc st.candidates }) }))
  ]

  visit_probes :
      (probe : FaultProbe) (i : ℕ) (d : FaultDecision) (s : Engine R Log)
      → ((visit ports probe i d s).1.probes ≡ s.probes)
        × ((visit ports probe i d s).1.generation ≡ s.generation)
  unfolding visit
  visit_probes probe i d s = elim (Option-cases (get_elem? s.states i)) [
    | inl out ↦ rw (out, visit) (refl, refl)
    | inr (st, found) ↦ elim (Bool-cases (is_candidate st.rule probe ports.now)) [
      | inr other ↦ rw (found, other, visit) (refl, refl)
      | inl candidate ↦ rw (found, candidate, visit) (count_probes probe i st d s)
    ]
  ]

  visit_all_probes :
      (probe : FaultProbe) (rounds i : ℕ) (d : FaultDecision) (s : Engine R Log)
      → ((visit_all ports probe rounds i d s).1.probes ≡ s.probes)
        × ((visit_all ports probe rounds i d s).1.generation ≡ s.generation)
  unfolding visit_all
  visit_all_probes probe zero i d s = (refl, refl)
  visit_all_probes probe (suc rounds) i d s =
      chain-keeps (λ (t : Engine R Log). (t.probes ≡ s.probes) × (t.generation ≡ s.generation))
        (visit ports probe i d) (λ d'. visit_all ports probe rounds (suc i) d') s
        (visit_probes probe i d s)
        (λ d' t (p, g).
          let (p', g') = visit_all_probes probe rounds (suc i) d' t in (p' ∙ p, g' ∙ g))

  probe_once_listed :
      (probe : FaultProbe) (s : Engine R Log) {d : FaultDecision} {t : Engine R Log}
      → probe_once ports probe s ≡ (ok d, t)
      → (includes t.probes (probe_identity probe) ≡ true) × (t.generation ≡ s.generation)
  unfolding probe_once includes
  probe_once_listed probe s {d} {t} h =
      elim (Bool-cases (includes s.probes (probe_identity probe))) [
        | inl reused ↦ absurd (let h' = rw (reused, probe_once) at h in cc)
        | inr new ↦
            let listed : Engine R Log = record s { probes = probe_identity probe ∷ s.probes } in
            let h' : (visit_all ports probe (length s.states) 0 undecided >>= λ d. pure (decide d))
                  listed
                ≡ (ok d, t) =
              rw (new, probe_once) at h in
            chain-elim (visit_all ports probe (length s.states) 0 undecided) (λ d. pure (decide d))
              listed h'
              λ _ u visited end.
                let (p, g) = visit_all_probes probe (length s.states) 0 undecided listed in
                let last : u ≡ t = cc in
                let p' : u.probes ≡ probe_identity probe ∷ s.probes = rw visited at p in
                let g' : u.generation ≡ s.generation = rw visited at g in
                subst
                  (λ (x : Engine R Log).
                    (includes x.probes (probe_identity probe) ≡ true)
                    × (x.generation ≡ s.generation))
                  last (rw (p', text_eq_refl (probe_identity probe)) refl, g')
      ]

  -- A probe of which the identity is listed is refused, by the first check that fails, and nothing changes.
  pub data Refused (generation : ℕ) (probe : FaultProbe) (t : Engine R Log) : Type 0 where
    stale :
        (generation == t.generation) ≡ false
        → evaluate ports generation probe t ≡ (throw stale_capability, t)
        → Refused generation probe t
    outside :
        (generation == t.generation) ≡ true
        → is_missing ports.dispatching ports.active_event ≡ true
        → evaluate ports generation probe t ≡ (throw invalid_fault, t)
        → Refused generation probe t
    malformed :
        (generation == t.generation) ≡ true
        → is_missing ports.dispatching ports.active_event ≡ false
        → is_probe ports probe ≡ false
        → evaluate ports generation probe t ≡ (throw invalid_fault, t)
        → Refused generation probe t
    reused :
        (generation == t.generation) ≡ true
        → is_missing ports.dispatching ports.active_event ≡ false
        → is_probe ports probe ≡ true
        → evaluate ports generation probe t ≡ (throw fault_probe_reused, t)
        → Refused generation probe t

  listed-Refused :
      (generation : ℕ) (probe : FaultProbe) (t : Engine R Log)
      → includes t.probes (probe_identity probe) ≡ true
      → Refused generation probe t
  unfolding evaluate check probe_once
  listed-Refused generation probe t listed = elim (Bool-cases (generation == t.generation)) [
    | inr old ↦ stale old (rw old refl)
    | inl current ↦ elim (Bool-cases (is_missing ports.dispatching ports.active_event)) [
      | inl missing ↦ outside current missing (rw (current, missing) refl)
      | inr there ↦ elim (Bool-cases (is_probe ports probe)) [
        | inr bad ↦ malformed current there bad (rw (current, there, bad) refl)
        | inl good ↦ reused current there good (rw (current, there, good, listed) refl)
      ]
    ]
  ]

  check-state : (generation : ℕ) (s : Engine R Log) → (check ports generation s).1 ≡ s
  unfolding check
  check-state generation s = ground arith

  probe_once-Lists :
      (id : Text) (probe : FaultProbe) (s : Engine R Log)
      → Lists id s
      → Lists id (probe_once ports probe s).1
  unfolding probe_once includes
  probe_once-Lists id probe s h = elim (Bool-cases (includes s.probes (probe_identity probe))) [
    | inl known ↦ rw (known, probe_once) h
    | inr new ↦
        let more : Engine R Log = record s { probes = probe_identity probe ∷ s.probes } in
        let (p, _) = visit_all_probes probe (length s.states) 0 undecided more in
        rw (new, probe_once)
          (chain-keeps (Lists id) (visit_all ports probe (length s.states) 0 undecided)
            (λ d. pure (decide d)) more
            (record { listed = let old = h.listed in rw p (ground arith) }) (λ d t q. q))
  ]

  evaluate-Lists :
      (id : Text) (generation : ℕ) (probe : FaultProbe) (s : Engine R Log)
      → Lists id s
      → Lists id (evaluate ports generation probe s).1
  unfolding evaluate
  evaluate-Lists id generation probe s h =
      chain-keeps (Lists id) (check ports generation) _ s
        (subst (Lists id) (sym (check-state generation s)) h)
        λ _ t p.
          chain-keeps (Lists id) (lift (fail_if (not (is_probe ports probe)) invalid_fault)) _ t p
            λ _ u q. probe_once-Lists id probe u q

  evaluate-listed :
      (generation : ℕ) (probe : FaultProbe) (s : Engine R Log) {d : FaultDecision}
      {t : Engine R Log}
      → evaluate ports generation probe s ≡ (ok d, t)
      → Lists (probe_identity probe) t
  unfolding evaluate
  evaluate-listed generation probe s {d} {t} h =
      chain-elim (check ports generation) _ s h λ _ u checked h₁.
        lift-elim (fail_if (not (is_probe ports probe)) invalid_fault) _ u h₁
          λ _ valid h₂. record { listed = (probe_once_listed probe u h₂).0 }

module _ {R Log : Type 0} where
  -- Evaluations of any probes, through capabilities of any generation and with whatever the ports show and
  -- answer at each.
  pub data Evaluates (s : Engine R Log) : Engine R Log → Type 0 where
    here : Evaluates s s
    next :
        {t : Engine R Log}
        → Evaluates s t
        → (ports : Ports R Log) (generation : ℕ) (probe : FaultProbe)
        → Evaluates s (evaluate ports generation probe t).1

  Evaluates-Lists : (id : Text) {s t : Engine R Log} → Evaluates s t → Lists id s → Lists id t
  Evaluates-Lists id here h = h
  Evaluates-Lists id (next {t = t} r ports generation probe) h =
      evaluate-Lists ports id generation probe t (Evaluates-Lists id r h)

  -- A probe whose evaluation succeeded is not evaluated again before a reset: after any further evaluations, of any
  -- probes, an evaluation of it is refused and changes nothing, whatever the ports show then; where the checks of the
  -- capability and of the probe pass, the refusal is FAULT_PROBE_REUSED.
  pub evaluate_once :
      (ports later : Ports R Log) (generation again : ℕ) (probe : FaultProbe) (s t : Engine R Log)
      {d : FaultDecision} {u : Engine R Log}
      → evaluate ports generation probe s ≡ (ok d, t)
      → Evaluates t u
      → Refused later again probe u
  evaluate_once ports later generation again probe s t {d} {u} h calls =
      listed-Refused later again probe u
        (Evaluates-Lists (probe_identity probe) calls
          (evaluate-listed ports generation probe s h)).listed

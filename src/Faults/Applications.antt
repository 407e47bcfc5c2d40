-- ===== src/Faults/Applications.antt =====
-- No rule is applied more often than it may be.
use mathlib.Core.Path.{subst}
use distlab.Base.{
  ℕ, zero, suc, ◌≤◌, ◌<◌, ◌≡◌, inl, inr, true, false, Bool, Bool-cases, not, ◌||◌, some,
  Option-cases, List, [], ◌∷◌, get_elem?, set, length, ◌++◌, units, Text, Result, fail_if, leb,
  arith, if◌then◌else◌,
}
use distlab.Base.Actions.{Action, ◌>>=◌, pure, lift, chain-keeps}
use distlab.Contracts.Errors.{identity_overflow, invalid_fault}
use distlab.Values.{
  Number, whole, negative, negative_zero, fraction, non_finite, Value, is_safe, includes,
}
use distlab.Faults.{
  FaultProbe, FaultDecision, RuleState, Engine, Ports, is_candidate, misses, probe_identity,
  combine, undecided,
}
use distlab.Faults.Evaluation.{
  check, note, draw, chance, choose, put_state, select, consider, count, visit, visit_all, try_rule,
  probe_once, selected_data, matched_data, evaluate, is_probe, decide,
}

unfoldable pub IsWithin : List RuleState → Type 0
IsWithin [] = Unit
IsWithin (st ∷ sts) = (st.applications ≤ st.rule.max_applications) × IsWithin sts

set-IsWithin :
    (sts : List RuleState) (i : ℕ) (st : RuleState)
    → IsWithin sts
    → st.applications ≤ st.rule.max_applications
    → IsWithin (set sts i st)
unfolding IsWithin
set-IsWithin [] i st w p = w
set-IsWithin (x ∷ sts) zero st w p = (p, w.1)
set-IsWithin (x ∷ sts) (suc i) st w p = (w.0, set-IsWithin sts i st w.1 p)

get-IsWithin :
    (sts : List RuleState) (i : ℕ) {st : RuleState}
    → IsWithin sts
    → get_elem? sts i ≡ some st
    → st.applications ≤ st.rule.max_applications
unfolding IsWithin
get-IsWithin [] i w e = cc
get-IsWithin (x ∷ sts) zero {st} w e =
    let same : x ≡ st = cc in
    subst (λ (y : RuleState). y.applications ≤ y.rule.max_applications) same w.0
get-IsWithin (x ∷ sts) (suc i) w e = get-IsWithin sts i w.1 e

module _ {R Log : Type 0} (ports : Ports R Log) where
  -- The call leaves every rule within its limit, however it ends.
  record Keeps {A : Type 0} (m : Action (Engine R Log) A) : Type 0 where
    at : (s : Engine R Log) → IsWithin s.states → IsWithin (m s).1.states

  kept :
      {A B : Type 0} {m : Action (Engine R Log) A} {f : A → Action (Engine R Log) B}
      → Keeps m
      → ((a : A) → Keeps (f a))
      → Keeps (m >>= f)
  kept {A} {B} {m} {f} first rest = record {
    at = λ s w.
        chain-keeps (λ (t : Engine R Log). IsWithin t.states) m f s (first.at s w)
          (λ a. (rest a).at);
  }

  pure-Keeps : {A : Type 0} (a : A) → Keeps (pure {S = Engine R Log} a)
  pure-Keeps a = record { at = λ s w. w }

  lift-Keeps : {A : Type 0} (r : Result A) → Keeps (lift {S = Engine R Log} r)
  lift-Keeps r = record { at = λ s w. w }

  note-Keeps : (type source : Text) (payload : Value) → Keeps (note ports type source payload)
  unfolding note
  note-Keeps type source payload = record { at = λ s w. w }

  draw-Keeps : (label : Text) → Keeps (draw ports label)
  unfolding draw
  draw-Keeps label = record { at = λ s w. w }

  chance-Keeps : (id : Text) (p : Number) → Keeps (chance ports id p)
  unfolding chance
  chance-Keeps id (whole zero) = pure-Keeps _
  chance-Keeps id (whole (suc zero)) = pure-Keeps _
  chance-Keeps id (whole (suc (suc n))) = kept (draw-Keeps _) λ bits. pure-Keeps _
  chance-Keeps id (negative n) = kept (draw-Keeps _) λ bits. pure-Keeps _
  chance-Keeps id negative_zero = kept (draw-Keeps _) λ bits. pure-Keeps _
  chance-Keeps id (fraction n) = kept (draw-Keeps _) λ bits. pure-Keeps _
  chance-Keeps id (non_finite n) = kept (draw-Keeps _) λ bits. pure-Keeps _

  put_state-Keeps :
      (i : ℕ) (st : RuleState)
      → st.applications ≤ st.rule.max_applications
      → Keeps (put_state ports i st)
  unfolding put_state
  put_state-Keeps i st p = record { at = λ s w. set-IsWithin s.states i st w p }

  select-Keeps :
      (probe : FaultProbe) (i : ℕ) (st : RuleState) (d : FaultDecision)
      → st.applications < st.rule.max_applications
      → Keeps (select ports probe i st d)
  unfolding select
  select-Keeps probe i st d p = kept (lift-Keeps (combine d st.rule.effect)) λ d'.
      kept (lift-Keeps (fail_if (not (is_safe (suc st.applications))) identity_overflow)) λ _.
        kept (put_state-Keeps i (record st { applications = suc st.applications }) (omega arith))
          λ _.
            kept
              (note-Keeps (units "fault.effect.selected") probe.source
                (selected_data ports probe st))
              λ _. pure-Keeps (record d' { rule_ids = d'.rule_ids ++ st.rule.id ∷ [] })

  consider-Keeps :
      (probe : FaultProbe) (i : ℕ) (st : RuleState) (d : FaultDecision)
      → st.applications < st.rule.max_applications
      → Keeps (consider ports probe i st d)
  unfolding consider choose
  consider-Keeps probe i st d p = kept (chance-Keeps st.rule.id st.rule.probability) λ selected.
      kept
        (note-Keeps (units "fault.rule.matched") probe.source
          (matched_data ports probe st selected))
        λ _. chosen selected
    where
      chosen : (selected : Bool) → Keeps (if selected then select ports probe i st d else pure d)
      chosen true = select-Keeps probe i st d p
      chosen false = pure-Keeps d

  try_rule-Keeps :
      (probe : FaultProbe) (i : ℕ) (st : RuleState) (d : FaultDecision)
      → Keeps (try_rule ports probe i st d)
  unfolding try_rule
  try_rule-Keeps probe i st d =
      elim (Bool-cases
        (misses st.rule.occurrence st.candidates || leb st.rule.max_applications st.applications)) [
          | inl over ↦ rw over (pure-Keeps d)
          | inr left ↦ rw left (consider-Keeps probe i st d (ground arith))
        ]

  count-Keeps :
      (probe : FaultProbe) (i : ℕ) (st : RuleState) (d : FaultDecision)
      → st.applications ≤ st.rule.max_applications
      → Keeps (count ports probe i st d)
  unfolding count
  count-Keeps probe i st d p =
      kept (lift-Keeps (fail_if (not (is_safe (suc st.candidates))) identity_overflow)) λ _.
        kept (put_state-Keeps i (record st { candidates = suc st.candidates }) p)
          λ _. try_rule-Keeps probe i (record st { candidates = suc st.candidates }) d

  visit-Keeps : (probe : FaultProbe) (i : ℕ) (d : FaultDecision) → Keeps (visit ports probe i d)
  unfolding visit
  visit-Keeps probe i d = record { at = visited }
    where
      visited : (s : Engine R Log) → IsWithin s.states → IsWithin (visit ports probe i d s).1.states
      visited s w = elim (Option-cases (get_elem? s.states i)) [
        | inl out ↦ rw (out, visit) w
        | inr (st, found) ↦ elim (Bool-cases (is_candidate st.rule probe ports.now)) [
          | inr other ↦ rw (found, other, visit) w
          | inl candidate ↦
              rw (found, candidate, visit)
                ((count-Keeps probe i st d (get-IsWithin s.states i w found)).at s w)
        ]
      ]

  visit_all-Keeps :
      (probe : FaultProbe) (rounds i : ℕ) (d : FaultDecision)
      → Keeps (visit_all ports probe rounds i d)
  unfolding visit_all
  visit_all-Keeps probe zero i d = pure-Keeps d
  visit_all-Keeps probe (suc rounds) i d =
      kept (visit-Keeps probe i d) λ d'. visit_all-Keeps probe rounds (suc i) d'

  check-Keeps : (generation : ℕ) → Keeps (check ports generation)
  unfolding check
  check-Keeps generation = record { at = λ s w. ground arith }

  probe_once-Keeps : (probe : FaultProbe) → Keeps (probe_once ports probe)
  unfolding probe_once
  probe_once-Keeps probe = record {
    at = λ s w. elim (Bool-cases (includes s.probes (probe_identity probe))) [
      | inl reused ↦ rw (reused, probe_once) w
      | inr new ↦
          let all =
            kept (visit_all-Keeps probe (length s.states) 0 undecided)
              (λ d. pure-Keeps (decide d)) in
          rw (new, probe_once) (all.at (record s { probes = probe_identity probe ∷ s.probes }) w)
    ];
  }

  -- An evaluation, however it ends, applies no rule more often than it may be applied in all.
  pub evaluate-IsWithin :
      (generation : ℕ) (probe : FaultProbe) (s : Engine R Log)
      → IsWithin s.states
      → IsWithin (evaluate ports generation probe s).1.states
  unfolding evaluate
  evaluate-IsWithin generation probe s w =
      (kept (check-Keeps generation) (λ _.
          kept (lift-Keeps (fail_if (not (is_probe ports probe)) invalid_fault))
            (λ _. probe_once-Keeps probe))).at
        s w

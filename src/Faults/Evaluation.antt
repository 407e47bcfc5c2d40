-- ===== src/Faults/Evaluation.antt =====
-- packages/kernel/src/fault-engine.ts: `evaluate` and `reset`.
use distlab.Base.{
  ℕ, zero, suc, Bool, true, false, not, ◌&&◌, ◌||◌, none, some, [], ◌∷◌, ◌++◌, map, length,
  get_elem?, set, Text, units, ok, throw, bind, fail_if, ltb, leb, ◌==◌, if◌then◌else◌,
}
use distlab.Base.Actions.{Action, ◌>>=◌, ◌>>◌, pure, lift}
use distlab.Contracts.Errors.{
  invalid_fault, fault_probe_reused, identity_overflow, stale_capability,
}
use distlab.Contracts.Observation.{ObservationInput, observation}
use distlab.Values.{
  Number, whole, Value, bool, num, str, obj, field, end, is_safe, includes, truthy,
}
use distlab.Faults.{
  FaultProbe, FaultRule, FaultDecision, RuleState, Engine, Ports, is_candidate, misses,
  probe_identity, undecided, combine, probe_data, effect_data, is_missing,
}

-- The decision that is handed out: what is dropped is not copied.
unfoldable pub decide : FaultDecision → FaultDecision
decide d = if d.drop then record d { additional_copies = 0; copy_spacing = 0 } else d

module _ {R Log : Type 0} (ports : Ports R Log) where
  abbrev Call : Type 0 → Type 0
  Call A = Action (Engine R Log) A

  -- `#check(generation)`
  unfoldable pub check : ℕ → Call (Unit {0})
  check generation s =
      if not (generation == s.generation)
      then (throw stale_capability, s)
      else if is_missing ports.dispatching ports.active_event
      then (throw invalid_fault, s)
      else (ok tt, s)

  -- `#record(type, source, data)`, with `#link()`
  unfoldable pub note : Text → Text → Value → Call (Unit {0})
  unfolding truthy
  note type source payload s =
      let bare = observation type source (some payload) in
      let input : ObservationInput = elim ports.active_event [
        | none ↦ bare
        | some none ↦ bare
        | some (some event) ↦ record bare {
          event_id = some event.id;
          trace_id = truthy event.trace_id;
          span_id = truthy event.span_id;
          parent_span_id = truthy event.parent_span_id;
          causation_id = truthy event.causation_id;
        }
      ] in
      let (result, log) = ports.sink.observe input s.log in
      (bind result (λ _. ok tt), record s { log = log })

  unfoldable pub draw : Text → Call ℕ
  draw label s =
      let (result, r) = ports.random.draw label s.random in (result, record s { random = r })

  -- A probability of 1 and one of 0 draw no number.
  unfoldable pub chance : Text → Number → Call Bool
  unfolding draw
  chance id (whole (suc zero)) = pure true
  chance id (whole zero) = pure false
  chance id p = draw (units "fault." ++ id) >>= λ bits. pure (ports.unit_below bits p)

  unfoldable pub choose : FaultRule → Call Bool
  unfolding chance
  choose rule = chance rule.id rule.probability

  -- `state.candidates` and `state.applications` of the rule at place `i` are written in place.
  unfoldable pub put_state : ℕ → RuleState → Call (Unit {0})
  put_state i st s = (ok tt, record s { states = set s.states i st })

  unfoldable pub selected_data : FaultProbe → RuleState → Value
  unfolding effect_data
  selected_data probe st = obj (
      field (units "ruleId") (str st.rule.id) (
        field (units "subjectId") (str probe.subject_id) (
          field (units "effect") (effect_data st.rule.effect)
            (field (units "applicationOrdinal") (num (whole (suc st.applications))) end))))

  -- A rule that was selected: its effect is added to the decision, and its application is counted.
  unfoldable pub select : FaultProbe → ℕ → RuleState → FaultDecision → Call FaultDecision
  unfolding combine put_state note selected_data
  select probe i st d = do
    d' ← lift (combine d st.rule.effect)
    lift (fail_if (not (is_safe (suc st.applications))) identity_overflow)
    put_state i (record st { applications = suc st.applications })
    note (units "fault.effect.selected") probe.source (selected_data probe st)
    pure (record d' { rule_ids = d'.rule_ids ++ st.rule.id ∷ [] })

  unfoldable pub matched_data : FaultProbe → RuleState → Bool → Value
  unfolding probe_data
  matched_data probe st selected = obj (
      field (units "ruleId") (str st.rule.id) (
        field (units "probe") (probe_data probe) (
          field (units "candidateOrdinal") (num (whole st.candidates))
            (field (units "selected") (bool selected) end))))

  -- A candidate that may still be applied.
  unfoldable pub consider : FaultProbe → ℕ → RuleState → FaultDecision → Call FaultDecision
  unfolding choose note matched_data select
  consider probe i st d = do
    selected ← choose st.rule
    note (units "fault.rule.matched") probe.source (matched_data probe st selected)
    if selected then select probe i st d else pure d

  -- A candidate that has been counted.
  unfoldable pub try_rule : FaultProbe → ℕ → RuleState → FaultDecision → Call FaultDecision
  unfolding misses consider
  try_rule probe i st d =
      if misses st.rule.occurrence st.candidates || leb st.rule.max_applications st.applications
      then pure d
      else consider probe i st d

  unfoldable pub count : FaultProbe → ℕ → RuleState → FaultDecision → Call FaultDecision
  unfolding put_state try_rule
  count probe i st d = do
    lift (fail_if (not (is_safe (suc st.candidates))) identity_overflow)
    put_state i (record st { candidates = suc st.candidates })
    try_rule probe i (record st { candidates = suc st.candidates }) d

  -- One round of the loop of `evaluate`, at the rule at place `i`.
  unfoldable pub visit : FaultProbe → ℕ → FaultDecision → Call FaultDecision
  unfolding is_candidate count
  visit probe i d s = elim (get_elem? s.states i) [
    | none ↦ (ok d, s)
    | some st ↦ if is_candidate st.rule probe ports.now then count probe i st d s else (ok d, s)
  ]

  -- The rounds from place `i` on.
  unfoldable pub visit_all : FaultProbe → ℕ → ℕ → FaultDecision → Call FaultDecision
  unfolding visit
  visit_all probe zero i d = pure d
  visit_all probe (suc rounds) i d = visit probe i d >>= λ d'. visit_all probe rounds (suc i) d'

  unfoldable pub is_probe : FaultProbe → Bool
  is_probe probe =
      ltb 0 (length probe.subject_id)
      && includes ports.components probe.source
      && includes ports.components probe.target
      && ltb 0 (length probe.name)
      && is_safe ports.now

  -- A probe that is listed is refused, and any other is listed before its evaluation.
  unfoldable pub probe_once : FaultProbe → Call FaultDecision
  unfolding probe_identity visit_all decide
  probe_once probe s =
      if includes s.probes (probe_identity probe)
      then (throw fault_probe_reused, s)
      else (visit_all probe (length s.states) 0 undecided >>= λ d. pure (decide d))
          (record s { probes = probe_identity probe ∷ s.probes })

  -- `evaluate(probe)`, of a port of the generation
  unfoldable pub evaluate : ℕ → FaultProbe → Call FaultDecision
  unfolding check is_probe probe_once
  evaluate generation probe = do
    check generation
    lift (fail_if (not (is_probe probe)) invalid_fault)
    probe_once probe

-- `{ rule, candidates: 0, applications: 0 }`
abbrev unused : RuleState → RuleState
unused st = record st { candidates = 0; applications = 0 }

module _ {R Log : Type 0} where
  -- `reset()`; new ports are new arguments of the calls that follow.
  unfoldable pub reset : Engine R Log → Engine R Log
  reset s = record s {
    states = map unused s.states;
    generation = suc s.generation;
    probes = [];
    applied = [];
  }

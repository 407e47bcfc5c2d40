-- ===== src/Simulation/Settled.antt =====
-- packages/kernel/src/simulation.ts: an operation is completed once, for the task that waits for it.
use mathlib.Core.Path.{subst}
use mathlib.Core.Logic.{inl, inr}
use distlab.Base.{
  ℕ, ◌≡◌, refl, ap, sym, ◌∙◌, Bool, true, false, not, ◌||◌, ◌==◌, Option, none, some, Text, Result,
  ok, throw, type_error, Bool-cases, if_true, if_false, fail_if, fail_if-eq-ok, arith, text_eq_iff,
}
use distlab.Base.Actions.{lift, chain-elim, lift-elim}
use distlab.Base.Dicts.{find, enter, find-enter}
use distlab.Contracts.Errors.{invalid_operation}
use distlab.Simulation.{Task, Operation, Simulation, Failure, Resumption, check, refuse_failed}
use distlab.Simulation.Runs.{go}
use distlab.Simulation.Operations.{
  Outcome, complete_checked, settle_for, settle, operation_or_fail, resume_for, write_task, task_of,
  is_live, is_text, read_outcome,
}

abbrev released : Text × Resumption → Result (Option (Text × Resumption)) → Text × Resumption
released p (ok (some q)) = q
released p _ = p

operation_or_fail-found :
    (o : Option Operation) {op : Operation} → operation_or_fail o ≡ ok op → o ≡ some op
unfolding operation_or_fail
operation_or_fail-found none h = cc
operation_or_fail-found (some x) h = let e : x ≡ _ = cc in ap some e

module _ {W : Type 0} where
  -- The task of an operation is released with the outcome.
  pub record Releases (id : Text) (outcome : Outcome) (task : Text) (r : Resumption)
      (s t : Simulation W) : Type 0 where
    pub op : Operation
    pub waiter : Task
    pub stood : find id s.operations ≡ some op
    pub pending : op.settled ≡ false
    pub of_task : op.task ≡ task
    pub alive : is_live op.task s.live ≡ true
    pub known : find op.task s.tasks ≡ some waiter
    pub waited : is_text id waiter.waiting ≡ true
    pub copied : read_outcome outcome ≡ ok r
    pub after : t ≡ record s {
      operations = enter id (record op { settled = true }) s.operations;
      tasks = enter waiter.id (record waiter { waiting = none }) s.tasks;
    }

  record Passes (generation : ℕ) (s t : Simulation W) : Type 0 where
    same : s ≡ t
    current : (generation == s.generation) ≡ true
    well : s.failure ≡ none

  refuse_failed-Passes :
      (s : Simulation W) {u : Unit {0}} {t : Simulation W}
      → refuse_failed s ≡ (ok u, t)
      → (s ≡ t) × (s.failure ≡ none)
  unfolding refuse_failed
  refuse_failed-Passes s {u} {t} h = looked s.failure refl h
    where
      looked :
          (o : Option Failure)
          → s.failure ≡ o
          → ◌≡◌ {A = Result (Unit {0}) × Simulation W}
              (elim o [ none ↦ (ok tt, s) | some f ↦ (throw f.code, s) ])
              (ok u, t)
          → (s ≡ t) × (s.failure ≡ none)
      looked none e k = (ap (λ (x : Result (Unit {0}) × Simulation W). x.1) k, e)
      looked (some f) e k = cc

  check-Passes :
      (generation : ℕ) (s : Simulation W) {u : Unit {0}} {t : Simulation W}
      → check generation s ≡ (ok u, t)
      → Passes generation s t
  unfolding check
  check-Passes generation s h = elim (Bool-cases (generation == s.generation)) [
    | inl current ↦
        let (same, well) = refuse_failed-Passes s (sym (if_false _ _ (ap not current)) ∙ h) in
        record { same = same; current = current; well = well }
    | inr stale ↦ absurd (let k = sym (if_true _ _ (ap not stale)) ∙ h in cc)
  ]

  check-passes :
      (generation : ℕ) (s : Simulation W)
      → (generation == s.generation) ≡ true
      → s.failure ≡ none
      → check generation s ≡ (ok tt, s)
  unfolding check refuse_failed
  check-passes generation s current well =
      if_false _ _ (ap not current)
      ∙ ap (λ (o : Option Failure). elim o [ none ↦ (ok tt, s) | some f ↦ (throw f.code, s) ]) well

  task_of-Finds :
      (id : Text) (s : Simulation W) {w : Task} {t : Simulation W}
      → task_of id s ≡ (ok w, t)
      → (find id s.tasks ≡ some w) × (s ≡ t)
  unfolding task_of
  task_of-Finds id s {w} {t} h = looked (find id s.tasks) refl h
    where
      looked :
          (o : Option Task)
          → find id s.tasks ≡ o
          → ◌≡◌ {A = Result Task × Simulation W}
              (elim o [ none ↦ (type_error, s) | some x ↦ (ok x, s) ])
              (ok w, t)
          → (find id s.tasks ≡ some w) × (s ≡ t)
      looked none e k = cc
      looked (some x) e k = (
        let alike : x ≡ w = cc in e ∙ ap some alike,
        ap (λ (y : Result Task × Simulation W). y.1) k,
      )

  settle-run :
      (id : Text) (op : Operation) (s : Simulation W)
      → find id s.operations ≡ some op
      → settle id s
        ≡ (ok tt, record s { operations = enter id (record op { settled = true }) s.operations })
  unfolding settle
  settle-run id op s e =
      ap
        (λ (o : Option Operation). elim o [
          | none ↦ (ok tt, s)
          | some x ↦
              (ok tt, record s { operations = enter id (record x { settled = true }) s.operations })
        ])
        e

  settle_for-Releases :
      (id : Text) (op : Operation) (w : Task) (outcome : Outcome) (s t : Simulation W) {task : Text}
      {r : Resumption}
      → find id s.operations ≡ some op
      → op.settled ≡ false
      → is_live op.task s.live ≡ true
      → find op.task s.tasks ≡ some w
      → settle_for id op w outcome s ≡ (ok (some (task, r)), t)
      → Releases id outcome task r s t
  unfolding settle_for write_task
  settle_for-Releases id op w outcome s t {task} {r} stood pending alive known h =
      lift-elim (fail_if (not (is_text id w.waiting)) invalid_operation) _ s h λ x e k.
        lift-elim (read_outcome outcome) _ s k λ resumed reads l.
          chain-elim (settle id) _ s l λ y u d m.
            let at_u : u
                ≡ record s { operations = enter id (record op { settled = true }) s.operations } =
              ap (λ (z : Result (Unit {0}) × Simulation W). z.1)
                (sym d ∙ settle-run id op s stood) in
            let waits = fail_if-eq-ok (not (is_text id w.waiting)) invalid_operation e in
            let gone : (op.task, resumed) ≡ (task, r) =
              ap
                (λ (z : Result (Option (Text × Resumption)) × Simulation W).
                  released (op.task, resumed) z.0)
                m in
            record {
              op = op;
              waiter = w;
              stood = stood;
              pending = pending;
              of_task = ap (λ (p : Text × Resumption). p.0) gone;
              alive = alive;
              known = known;
              waited = ground arith;
              copied = reads ∙ ap (λ (p : Text × Resumption). ok p.1) gone;
              after =
                  sym (ap (λ (z : Result (Option (Text × Resumption)) × Simulation W). z.1) m)
                  ∙ ap
                      (λ (v : Simulation W). record v {
                        tasks = enter w.id (record w { waiting = none }) v.tasks;
                      })
                      at_u;
            }

  resume_for-Releases :
      (id : Text) (op : Operation) (outcome : Outcome) (s t : Simulation W) {task : Text}
      {r : Resumption}
      → find id s.operations ≡ some op
      → resume_for id op outcome s ≡ (ok (some (task, r)), t)
      → Releases id outcome task r s t
  unfolding resume_for
  resume_for-Releases id op outcome s t {task} {r} stood h =
      elim (Bool-cases (op.settled || not (is_live op.task s.live))) [
        | inl idle ↦ absurd (let k = sym (if_true _ _ idle) ∙ h in cc)
        | inr busy ↦ chain-elim (task_of op.task) _ s (sym (if_false _ _ busy) ∙ h) λ w u d k.
            let (known, same) = task_of-Finds op.task s d in
            settle_for-Releases id op w outcome s t stood (ground arith) (ground arith) known
              (ap (λ (v : Simulation W). settle_for id op w outcome v) same ∙ k)
      ]

  complete_checked-Releases :
      (generation : ℕ) (id : Text) (outcome : Outcome) (s t : Simulation W) {task : Text}
      {r : Resumption}
      → complete_checked generation id outcome s ≡ (ok (some (task, r)), t)
      → Passes generation s s × (s.dispatching ≡ true) × Releases id outcome task r s t
  unfolding complete_checked
  complete_checked-Releases generation id outcome s t {task} {r} h =
      chain-elim (check generation) _ s h λ x u d k.
        let p = check-Passes generation s d in
        lift-elim (fail_if (not u.dispatching) invalid_operation) _ u k λ y e l.
          lift-elim (operation_or_fail (find id u.operations)) _ u l λ op f m.
            let on = fail_if-eq-ok (not u.dispatching) invalid_operation e in
            (
              record { same = refl; current = p.current; well = p.well },
              ap (λ (v : Simulation W). v.dispatching) p.same ∙ ground arith,
              subst (λ (v : Simulation W). Releases id outcome task r v t) (sym p.same)
                  (resume_for-Releases id op outcome u t (operation_or_fail-found _ f) m),
            )

  -- A settled operation is completed again without effect.
  complete_settled :
      (generation : ℕ) (id : Text) (outcome : Outcome) (t : Simulation W) (op : Operation)
      → (generation == t.generation) ≡ true
      → t.failure ≡ none
      → t.dispatching ≡ true
      → find id t.operations ≡ some op
      → op.settled ≡ true
      → complete_checked generation id outcome t ≡ (ok none, t)
  unfolding complete_checked resume_for operation_or_fail
  complete_settled generation id outcome t op current well on stands done =
      let Post = λ (x : Result (Option (Text × Resumption)) × Simulation W). x ≡ (ok none, t) in
      go Post (check generation) _ t t tt (check-passes generation t current well) (
        go Post (lift (fail_if (not t.dispatching) invalid_operation)) _ t t tt
          (ap (λ (b : Bool). (fail_if (not b) invalid_operation, t)) on)
          (go Post (lift (operation_or_fail (find id t.operations))) _ t t op
            (ap (λ (o : Option Operation). (operation_or_fail o, t)) stands)
            (if_true _ _ (ap (λ (b : Bool). b || not (is_live op.task t.live)) done))))

  -- A completion that lets a task go on was of an open operation, whose task waits for it; it
  -- settles that operation, releases the task with a copy of the outcome and changes nothing else.
  -- Completing the operation again does nothing then.
  pub complete_checked-once :
      (generation : ℕ) (id : Text) (outcome again : Outcome) (s t : Simulation W) {task : Text}
      {r : Resumption}
      → complete_checked generation id outcome s ≡ (ok (some (task, r)), t)
      → Releases id outcome task r s t × (complete_checked generation id again t ≡ (ok none, t))
  complete_checked-once generation id outcome again s t h =
      let (p, on, l) = complete_checked-Releases generation id outcome s t h in
      (
        l,
        complete_settled generation id again t (record l.op { settled = true })
            (ap (λ (v : Simulation W). generation == v.generation) l.after ∙ p.current)
            (ap (λ (v : Simulation W). v.failure) l.after ∙ p.well)
            (ap (λ (v : Simulation W). v.dispatching) l.after ∙ on)
            (ap (λ (v : Simulation W). find id v.operations) l.after
              ∙ find-enter id id (record l.op { settled = true }) s.operations
              ∙ if_true _ _ ((text_eq_iff id id).1 refl))
            refl,
      )

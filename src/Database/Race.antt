-- ===== src/Database/Race.antt =====
-- packages/kernel/src/database.ts: two transactions that began at the same revision.
use mathlib.Core.Path.{subst}
use distlab.Base.{
  suc, ◌≡◌, refl, sym, ◌∙◌, ap, Bool, true, false, Option, none, some, List, fail_if, throw,
  type_error, ◌&&◌, Bool-cases, inl, inr, get_elem?, Text, text_eq, ◌==◌, ok, Result, if_true,
  if_false, if◌then◌else◌, arith, get_elem?-set,
}
use distlab.Base.Actions.{Action, and_then, chain-keeps}
use distlab.Base.Dicts.{find, find-leave}
use distlab.Contracts.Events.{ScheduledEvent}
use distlab.Contracts.Observation.{ObservationSink}
use distlab.Database.{Database, Host, LocalTransaction, Pending, closed, Call, on_world, observe_in}
use distlab.Database.Cells.{Tables}
use distlab.Values.{max_safe}
use distlab.Contracts.Errors.{identity_overflow, transaction_conflict, commit_failed}
use distlab.Database.Cells.{apply_changes}
use distlab.Database.Constraints.{constraint}
use distlab.Database.Commit.{
  changes, next_revision, fails_by, commit_fails, reject, install, conclude, attempt, decide,
  settle, dispatch,
}
use distlab.Database.Outcomes.{
  IsSame, same, fails_by-IsSame, reject-IsSame, taken, dispatch-taken, dispatch_conflict,
}
use distlab.Database.Successes.{Commits}

module _ {W : Type 0} where
  -- Databases with the same transactions and the same waiting operations.
  pub record Frames (db t : Database W) : Type 0 where
    pub transactions : t.transactions ≡ db.transactions
    pub pending : t.pending ≡ db.pending

  onwards : {db t u : Database W} → Frames db t → IsSame t u → Frames db u
  onwards f s = record {
    transactions = s.transactions ∙ f.transactions;
    pending = s.pending ∙ f.pending;
  }

  world-Frames :
      {A : Type 0} (m : Action W A) (db t : Database W) → Frames db t → Frames db (on_world m t).1
  unfolding on_world
  world-Frames m db t f = record { transactions = f.transactions; pending = f.pending }

module _ {W : Type 0} (host : Host W) (sink : ObservationSink W) (event : ScheduledEvent) where
  lift-Frames :
      {A B : Type 0} (r : Result A) (f : A → Call W B) (db t : Database W)
      → Frames db t
      → ((a : A) → Frames db (f a t).1)
      → Frames db (and_then r f t).1
  lift-Frames (ok a) f db t h rest = rest a
  lift-Frames (throw e) f db t h rest = h
  lift-Frames type_error f db t h rest = h

  install-Frames :
      (tx : LocalTransaction) (id : Text) (candidate : Tables) (db t : Database W)
      → Frames db t
      → Frames db (install host sink event tx id candidate t).1
  unfolding install observe_in
  install-Frames tx id candidate db t h =
      let after : Database W = record t {
        committed = candidate;
        revision = next_revision tx.staged t.revision;
      } in
      lift-Frames (fail_if (tx.staged && t.revision == max_safe) identity_overflow) _ db t h λ _.
        chain-keeps (Frames db) (observe_in host sink (some event) _ tx _) _ after
          (chain-keeps (Frames db) (on_world (sink.observe _)) _ after
            (world-Frames (sink.observe _) db after
              (record { transactions = h.transactions; pending = h.pending }))
            λ _ u q. q)
          λ _ u q. world-Frames (host.complete id _) db u q

  conclude-Frames :
      (tx : LocalTransaction) (id : Text) (candidate : Tables) (violated : Option Text)
      (db t : Database W)
      → Frames db t
      → Frames db (conclude host sink event tx id candidate violated t).1
  unfolding conclude
  conclude-Frames tx id candidate none db t h = install-Frames tx id candidate db t h
  conclude-Frames tx id candidate (some name) db t h =
      onwards h (reject-IsSame host sink event tx id _ (some name) t t (same t))

  attempt-Frames :
      (tx : LocalTransaction) (id : Text) (db t : Database W)
      → Frames db t
      → Frames db (attempt host sink event tx id t).1
  unfolding attempt
  attempt-Frames tx id db t h =
      lift-Frames (apply_changes (changes tx) t.committed) _ db t h λ candidate.
        lift-Frames (constraint host.options t.definitions candidate) _ db t h
          λ violated. conclude-Frames tx id candidate violated db t h

  decide-Frames :
      (tx : LocalTransaction) (id : Text) (db t : Database W)
      → Frames db t
      → Frames db (decide host sink event tx id t).1
  unfolding decide
  decide-Frames tx id db t h = elim (Bool-cases (t.revision == tx.base_revision)) [
    | inl now ↦
        subst (λ (m : Call W (Unit {0})). Frames db (m t).1) (sym (if_true _ _ now))
          (attempt-Frames tx id db t h)
    | inr late ↦
        subst (λ (m : Call W (Unit {0})). Frames db (m t).1) (sym (if_false _ _ late))
          (onwards h (reject-IsSame host sink event tx id transaction_conflict none t t (same t)))
  ]

  settle-Frames :
      (tx : LocalTransaction) (id : Text) (db : Database W)
      → Frames db (settle host sink event tx id db).1
  unfolding settle commit_fails
  settle-Frames tx id db =
      chain-keeps (Frames db) (fails_by host host.faults tx) _ db
        (onwards (record { transactions = refl; pending = refl })
          (fails_by-IsSame host host.faults tx db))
        λ fails t h. choice fails t h
    where
      choice :
          (fails : Bool) (t : Database W)
          → Frames db t
          → Frames db
              ((if fails
                  then reject host sink event tx id commit_failed none
                  else decide host sink event tx id)
                t).1
      choice true t h =
          onwards h (reject-IsSame host sink event tx id commit_failed none t t (same t))
      choice false t h = decide-Frames tx id db t h

  -- However a dispatch ends, the other operations that wait and the other transactions are as they
  -- were.
  dispatch-Frames :
      (id : Text) (p : Pending) (tx : LocalTransaction) (db : Database W)
      → find id db.pending ≡ some p
      → p.cancelled ≡ false
      → get_elem? db.transactions p.tx ≡ some tx
      → Frames (taken id p tx db) (dispatch host sink event id db).1
  dispatch-Frames id p tx db waits kept here =
      subst (λ (r : Result (Unit {0}) × Database W). Frames (taken id p tx db) r.1)
        (sym (dispatch-taken host sink event id p tx db waits kept here))
        (settle-Frames (record tx { status = closed }) id (taken id p tx db))

module _ {W : Type 0} (host next : Host W) (sink later : ObservationSink W)
    (event following : ScheduledEvent) where
  -- Of two transactions that wait and began at the same revision, where the first has written
  -- something, the second one commits nothing once the first has gone through, whatever happens at
  -- its dispatch: the rows and the revision are those that the first left.
  pub first_commit-wins :
      (id other : Text) (p q : Pending) (tx tx' : LocalTransaction) (db : Database W)
      → find id db.pending ≡ some p
      → p.cancelled ≡ false
      → get_elem? db.transactions p.tx ≡ some tx
      → find other db.pending ≡ some q
      → q.cancelled ≡ false
      → get_elem? db.transactions q.tx ≡ some tx'
      → text_eq id other ≡ false
      → (p.tx == q.tx) ≡ false
      → tx.staged ≡ true
      → tx'.base_revision ≡ db.revision
      → Commits tx db (dispatch host sink event id db)
      → let t = (dispatch host sink event id db).1 in
        let u = (dispatch next later following other t).1 in
        (u.committed ≡ t.committed) × (u.revision ≡ t.revision) × (t.revision ≡ suc db.revision)
  first_commit-wins id other p q tx tx' db waits kept here waits' kept' here' differ apart wrote
        based done =
      let t = (dispatch host sink event id db).1 in
      let f = dispatch-Frames host sink event id p tx db waits kept here in
      let stands : find other t.pending ≡ some q =
        ap (find other) f.pending ∙ find-leave id other db.pending ∙ if_false _ _ differ ∙ waits' in
      let there : get_elem? t.transactions q.tx ≡ some tx' =
        ap (λ (l : List LocalTransaction). get_elem? l q.tx) f.transactions
        ∙ get_elem?-set db.transactions p.tx q.tx (record tx { status = closed }) here
        ∙ if_false _ _ apart
        ∙ here' in
      let grown : t.revision ≡ suc db.revision = done.revision ∙ if_true _ _ wrote in
      let s =
        dispatch_conflict next later following other q tx' t stands kept' there (omega arith) in
      (s.committed, s.revision, grown)

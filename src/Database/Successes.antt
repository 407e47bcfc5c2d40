-- ===== src/Database/Successes.antt =====
-- A commit that goes through.
use mathlib.Core.Path.{subst}
use distlab.Base.{
  ℕ, ◌≡◌, refl, sym, ◌∙◌, ap, Bool, true, false, ◌&&◌, none, some, get_elem?, Text, units, ◌==◌, ok,
  Result, if_true, arith, fail_if,
}
use distlab.Base.Actions.{pure, lift, chain-run}
use distlab.Base.Dicts.{Dict, find}
use distlab.Contracts.Errors.{identity_overflow}
use distlab.Contracts.Events.{ScheduledEvent}
use distlab.Contracts.Observation.{ObservationInput, Observation, ObservationSink}
use distlab.Values.{Value, max_safe}
use distlab.Database.{
  TableDefinition, observed, Database, Host, LocalTransaction, Pending, closed, Outcome, Call,
  on_world, observe_in,
}
use distlab.Database.Cells.{Tables, cell, apply_changes}
use distlab.Database.Constraints.{constraint}
use distlab.Database.Commit.{
  committed_data, changes, fails_by, commit_fails, next_revision, install, conclude, attempt,
  decide, settle, dispatch,
}
use distlab.Database.Overlay.{kept, apply_changes_total, sorted-AreDefined}
use distlab.Database.Consistency.{IsConsistent}
use distlab.Database.Outcomes.{
  IsSame, same, world-IsSame, fails_by-IsSame, candidate-cell, taken, dispatch-taken,
}
use distlab.Database.Consistency.Stores.{Waiting-find}

-- What a commit that goes through answers and leaves.
pub record Installed {W : Type 0} (tables : Tables) (next : ℕ) (r : Result (Unit {0}) × Database W)
    : Type 0 where
  pub answered : r.0 ≡ ok tt
  pub committed : r.1.committed ≡ tables
  pub revision : r.1.revision ≡ next

-- The same, in terms of what the transaction saw.
pub record Commits {W : Type 0} (tx : LocalTransaction) (db : Database W)
    (r : Result (Unit {0}) × Database W) : Type 0 where
  pub answered : r.0 ≡ ok tt
  pub cells : (t k : Text) → cell t k r.1.committed ≡ cell t k tx.snapshot
  pub revision : r.1.revision ≡ next_revision tx.staged db.revision

module _ {W : Type 0} (host : Host W) (sink : ObservationSink W) (event : ScheduledEvent)
    (accepts : (input : ObservationInput) (w : W)
      → (o : Observation) × ((sink.observe input w).0 ≡ ok o))
    (completes : (id : Text) (outcome : Outcome) (w : W)
      → (host.complete id outcome w).0 ≡ ok tt) where
  observe_in-run :
      (type : Text) (tx : LocalTransaction) (payload : Value) (db : Database W)
      → ((observe_in host sink (some event) type tx payload db).0 ≡ ok tt)
        × IsSame db (observe_in host sink (some event) type tx payload db).1
  unfolding observe_in on_world
  observe_in-run type tx payload db =
      let seen = observed host type tx payload event in
      let (o, e) = accepts seen db.world in
      chain-run (λ r. (r.0 ≡ ok tt) × IsSame db r.1) (on_world (sink.observe seen)) (λ _. pure tt)
        db o e (refl, unfold on_world in world-IsSame (sink.observe seen) db db (same db))

  completed :
      (id : Text) (outcome : Outcome) (tables : Tables) (n : ℕ) (u : Database W)
      → u.committed ≡ tables
      → u.revision ≡ n
      → Installed tables n (on_world (host.complete id outcome) u)
  unfolding on_world
  completed id outcome tables n u c r = record {
    answered = completes id outcome u.world;
    committed = c;
    revision = r;
  }

  install-Installed :
      (tx : LocalTransaction) (id : Text) (candidate : Tables) (db : Database W)
      → (tx.staged && db.revision == max_safe) ≡ false
      → Installed candidate
          (next_revision tx.staged db.revision)
          (install host sink event tx id candidate db)
  unfolding install
  install-Installed tx id candidate db room =
      let Post = Installed {W = W} candidate (next_revision tx.staged db.revision) in
      let next : Database W = record db {
        committed = candidate;
        revision = next_revision tx.staged db.revision;
      } in
      let (e, s) =
        observe_in-run (units "database.transaction.committed") tx
          (committed_data tx db.revision (next_revision tx.staged db.revision)) next in
      chain-run Post (lift (fail_if (tx.staged && db.revision == max_safe) identity_overflow)) _ db
        tt (ap (λ (b : Bool). fail_if b identity_overflow) room)
        (chain-run Post
          (observe_in host sink (some event) (units "database.transaction.committed") tx
            (committed_data tx db.revision (next_revision tx.staged db.revision)))
          _ next tt e (completed id _ candidate _ _ s.committed s.revision))

  attempt-Installed :
      (tx : LocalTransaction) (id : Text) (candidate : Tables) (db : Database W)
      → apply_changes (changes tx) db.committed ≡ ok candidate
      → constraint host.options db.definitions candidate ≡ ok none
      → (tx.staged && db.revision == max_safe) ≡ false
      → Installed candidate (next_revision tx.staged db.revision) (attempt host sink event tx id db)
  unfolding attempt conclude
  attempt-Installed tx id candidate db applied passes room =
      let Post = Installed {W = W} candidate (next_revision tx.staged db.revision) in
      chain-run Post (lift (apply_changes (changes tx) db.committed)) _ db candidate applied (
        chain-run Post (lift (constraint host.options db.definitions candidate)) _ db none passes
          (install-Installed tx id candidate db room))

  settle-Installed :
      (tx : LocalTransaction) (id : Text) (candidate : Tables) (db : Database W)
      → ((d : Database W) → (commit_fails host tx d).0 ≡ ok false)
      → db.revision ≡ tx.base_revision
      → apply_changes (changes tx) db.committed ≡ ok candidate
      → constraint host.options db.definitions candidate ≡ ok none
      → (tx.staged && db.revision == max_safe) ≡ false
      → Installed candidate (next_revision tx.staged db.revision) (settle host sink event tx id db)
  unfolding settle decide commit_fails
  settle-Installed tx id candidate db lets now applied passes room =
      let Post = Installed {W = W} candidate (next_revision tx.staged db.revision) in
      let s = fails_by-IsSame host host.faults tx db in
      chain-run Post (fails_by host host.faults tx) _ db false (lets db) (going _ s)
    where
      going :
          (t : Database W)
          → IsSame db t
          → Installed candidate
              (next_revision tx.staged db.revision)
              (decide host sink event tx id t)
      going t s =
          let fresh : (t.revision == tx.base_revision) ≡ true =
            (let e = s.revision in ground arith) in
          subst
            (λ (m : Call W (Unit {0})).
              Installed candidate (next_revision tx.staged db.revision) (m t))
            (sym (if_true (attempt host sink event tx id) _ fresh))
            (subst
              (λ (n : ℕ).
                Installed candidate (next_revision tx.staged n) (attempt host sink event tx id t))
              s.revision
              (attempt-Installed tx id candidate t
                (ap (apply_changes (changes tx)) s.committed ∙ applied)
                (ap (λ (ds : Dict TableDefinition). constraint host.options ds candidate)
                    s.definitions
                  ∙ passes)
                (ap (λ (n : ℕ). tx.staged && n == max_safe) s.revision ∙ room)))

  -- The commit of a transaction that began at the present revision goes through if the fault port
  -- lets it, its rows satisfy the constraints, a revision is left and the sink and the operation
  -- take their reports. Then the committed rows are exactly what the transaction saw, and the
  -- revision has grown by one if it wrote anything.
  pub dispatch-Commits :
      (id : Text) (p : Pending) (tx : LocalTransaction) (db : Database W)
      → IsConsistent host.options db
      → find id db.pending ≡ some p
      → p.cancelled ≡ false
      → get_elem? db.transactions p.tx ≡ some tx
      → db.revision ≡ tx.base_revision
      → (tx.staged && db.revision == max_safe) ≡ false
      → ((d : Database W) → (commit_fails host (record tx { status = closed }) d).0 ≡ ok false)
      → ((candidate : Tables)
          → apply_changes (changes tx) db.committed ≡ ok candidate
          → constraint host.options db.definitions candidate ≡ ok none)
      → Commits tx db (dispatch host sink event id db)
  unfolding changes
  dispatch-Commits id p tx db h waits kept here now room lets passes =
      let fits = h.holds.each p.tx tx here in
      let (x, there, epoch) =
        Waiting-find db.transactions db.epoch id db.pending h.holds.waiting waits in
      let known : x ≡ tx = cc in
      let present : tx.epoch ≡ db.epoch =
        ap (λ (y : LocalTransaction). y.epoch) (sym known) ∙ epoch in
      let follows = fits.follows present (sym now) in
      let (candidate, applied, _) =
        apply_changes_total db.definitions (changes tx) db.committed h.holds.shaped
          (sorted-AreDefined db.definitions tx.writes fits.defined) in
      let done =
        settle-Installed (record tx { status = closed }) id candidate (taken id p tx db) lets now
          applied (passes candidate applied) room in
      subst (Commits {W = W} tx db)
        (sym (dispatch-taken host sink event id p tx db waits kept here))
        (record {
          answered = done.answered;
          cells = λ t k.
              ap (cell t k) done.committed
              ∙ candidate-cell tx db.committed t k follows fits.distinct applied;
          revision = done.revision;
        })

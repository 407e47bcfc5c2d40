-- ===== src/Database/Consistency/Commits.antt =====
-- The commit keeps the invariant, however it ends.
use mathlib.Core.Path.{subst}
use distlab.Base.{
  ◌≡◌, refl, sym, ◌∙◌, ap, Bool, true, false, ◌&&◌, Option, none, some, [], get_elem?, Text, ◌==◌,
  ok, throw, Result, fail_if, type_error, if◌then◌else◌,
}
use distlab.Base.Actions.{Action, and_then, ◌>>=◌, chain-keeps, chain-keeps_eq}
use distlab.Base.Dicts.{find, leave}
use distlab.Contracts.Errors.{ErrorCode, identity_overflow}
use distlab.Contracts.Events.{ScheduledEvent}
use distlab.Contracts.Observation.{ObservationSink}
use distlab.Values.{max_safe}
use distlab.Database.{
  Database, Host, LocalTransaction, Pending, Call, on_world, load, store, observe_in,
}
use distlab.Database.Cells.{Tables}
use distlab.Database.Consistency.{IsConsistent}
use distlab.Database.Consistency.Stores.{with_status-Fits}
use distlab.Database.Consistency.States.{pending-Holds}
use distlab.Database.Consistency.Rules.{
  branch-keeps, then-keeps, world-keeps, load-keeps, load-Shows, store-keeps, observe-keeps,
}
use distlab.Database.Consistency.Rules.{lift-keeps}
use distlab.Database.Consistency.States.{commit-Holds}
use distlab.Database.Consistency.Stores.{Waiting-leave}
use distlab.Database.Overlay.{IsShaped, AreDefined, apply_changes_total, sorted-AreDefined}
use distlab.Database.Constraints.{constraint}
use distlab.Database.Cells.{apply_changes, keep_changes, sort_changes}
use distlab.Database.Commit.{
  changes, fails_by, next_revision, commit_fails, reject, install, conclude, attempt, decide,
  settle, commit, commit_found, dispatch, is_invalid_effect, commit_probe,
}
use distlab.Database.{closed}
use distlab.Contracts.Errors.{commit_failed, transaction_conflict, constraint_violation}
use distlab.Faults.{FaultProbe, FaultDecision}

module _ {W : Type 0} (host : Host W) where
  abbrev P : Database W → Type 0
  P = IsConsistent host.options

  installed-keeps :
      (staged : Bool) (candidate : Tables) (db : Database W)
      → IsShaped db.definitions candidate
      → constraint host.options db.definitions candidate ≡ ok none
      → (staged ≡ false → candidate ≡ db.committed)
      → P db
      → P (record db { committed = candidate; revision = next_revision staged db.revision })
  installed-keeps true candidate db s v same h = record {
    holds = commit-Holds host.options candidate s v h.holds;
  }
  installed-keeps false candidate db s v same h =
      subst (λ (c : Tables). P (record db { committed = c; revision = db.revision }))
        (sym (same refl)) (record { holds = h.holds })

  -- Without a write there is nothing to apply.
  unchanged :
      (tx : LocalTransaction) (committed : Tables) (candidate : Tables)
      → tx.writes ≡ []
      → apply_changes (changes tx) committed ≡ ok candidate
      → candidate ≡ committed
  unfolding changes keep_changes sort_changes apply_changes
  unchanged tx committed candidate e h = let h' = simp e at h in cc

  branch-state {κ} :
      {A : Type 0} (Q : Database W → Type κ) (b : Bool) (m n : Call W A) (db : Database W)
      → Q (m db).1
      → Q (n db).1
      → Q ((if b then m else n) db).1
  branch-state Q true m n db p q = p
  branch-state Q false m n db p q = q

  -- A transaction that is read again after its changes: those of defined tables, and none where nothing
  -- was staged.
  pub record IsReady (tx : LocalTransaction) (db : Database W) : Type 0 where
    pub ready : P db
    pub known : AreDefined db.definitions tx.writes
    pub unstaged : tx.staged ≡ false → tx.writes ≡ []

  fails_by-IsReady :
      (port : Option (FaultProbe → Action W FaultDecision)) (tx : LocalTransaction)
      (db : Database W)
      → IsReady tx db
      → IsReady tx (fails_by host port tx db).1
  unfolding fails_by
  fails_by-IsReady none tx db r = r
  fails_by-IsReady (some evaluate) tx db r =
      chain-keeps (IsReady tx) (on_world (evaluate (commit_probe tx))) _ db
        (unfold on_world in
          record {
            ready = record { holds = r.ready.holds };
            known = r.known;
            unstaged = r.unstaged;
          })
        λ d t q. branch-state (IsReady tx) (is_invalid_effect d) _ _ t q q

  -- After a step that keeps a transaction ready.
  ready-chain :
      {A B : Type 0} (tx : LocalTransaction) (m : Call W A) (f : A → Call W B) (db : Database W)
      → IsReady tx (m db).1
      → ((a : A) (t : Database W) → IsReady tx t → P (f a t).1)
      → P ((m >>= f) db).1
  ready-chain {A} tx m f db first rest = answered (m db).0 (m db).1 first
    where
      answered : (r : Result A) (t : Database W) → IsReady tx t → P (and_then r f t).1
      answered (ok a) t q = rest a t q
      answered (throw e) t q = q.ready
      answered type_error t q = q.ready

  module _ (sink : ObservationSink W) (event : ScheduledEvent) where
    reject-keeps :
        (tx : LocalTransaction) (id : Text) (code : ErrorCode) (violated : Option Text)
        (db : Database W)
        → P db
        → P (reject host sink event tx id code violated db).1
    unfolding reject
    reject-keeps tx id code violated db h =
        then-keeps host (observe_in host sink (some event) _ tx _) _ db
          (observe-keeps host sink (some event) _ tx _ db h)
          λ t p. world-keeps host (host.complete id _) t p

    install-keeps :
        (tx : LocalTransaction) (id : Text) (candidate : Tables) (db : Database W)
        → IsShaped db.definitions candidate
        → constraint host.options db.definitions candidate ≡ ok none
        → (tx.staged ≡ false → candidate ≡ db.committed)
        → P db
        → P (install host sink event tx id candidate db).1
    unfolding install
    install-keeps tx id candidate db s v same h =
        lift-keeps host (fail_if (tx.staged && db.revision == max_safe) identity_overflow) _ db h
          λ _ _.
            then-keeps host (observe_in host sink (some event) _ tx _) _ _
              (observe-keeps host sink (some event) _ tx _ _
                (installed-keeps tx.staged candidate db s v same h))
              λ t p. world-keeps host (host.complete id _) t p

    conclude-keeps :
        (tx : LocalTransaction) (id : Text) (candidate : Tables) (violated : Option Text)
        (db : Database W)
        → IsShaped db.definitions candidate
        → constraint host.options db.definitions candidate ≡ ok violated
        → (tx.staged ≡ false → candidate ≡ db.committed)
        → P db
        → P (conclude host sink event tx id candidate violated db).1
    unfolding conclude
    conclude-keeps tx id candidate none db s v same h = install-keeps tx id candidate db s v same h
    conclude-keeps tx id candidate (some name) db s v same h =
        reject-keeps tx id constraint_violation (some name) db h

    attempt-keeps :
        (tx : LocalTransaction) (id : Text) (db : Database W)
        → IsReady tx db
        → P (attempt host sink event tx id db).1
    unfolding attempt
    attempt-keeps tx id db r =
        let h = r.ready in
        lift-keeps host (apply_changes (changes tx) db.committed) _ db h λ candidate applied.
          let (result, total, shaped) =
            apply_changes_total db.definitions (changes tx) db.committed h.holds.shaped
              (unfold changes in sorted-AreDefined db.definitions tx.writes r.known) in
          let one : result ≡ candidate = cc in
          lift-keeps host (constraint host.options db.definitions candidate) _ db h λ violated v.
            conclude-keeps tx id candidate violated db (subst (IsShaped db.definitions) one shaped)
              v (λ e. unchanged tx db.committed candidate (r.unstaged e) applied) h

    decide-keeps :
        (tx : LocalTransaction) (id : Text) (db : Database W)
        → IsReady tx db
        → P (decide host sink event tx id db).1
    unfolding decide
    decide-keeps tx id db r =
        branch-keeps host (db.revision == tx.base_revision) _ _ db (attempt-keeps tx id db r)
          (reject-keeps tx id transaction_conflict none db r.ready)

    settle-keeps :
        (tx : LocalTransaction) (id : Text) (db : Database W)
        → IsReady tx db
        → P (settle host sink event tx id db).1
    unfolding settle commit_fails
    settle-keeps tx id db r =
        ready-chain tx (fails_by host host.faults tx) _ db (fails_by-IsReady host.faults tx db r)
          λ fails t q.
            branch-keeps host fails _ _ t (reject-keeps tx id commit_failed none t q.ready)
              (decide-keeps tx id t q)

    commit-keeps :
        (id : Text) (p : Pending) (db : Database W) → P db → P (commit host sink event id p db).1
    unfolding commit store
    commit-keeps id p db h =
        let removed : P (record db { pending = leave id db.pending }) = record {
          holds =
              pending-Holds host.options _
                (Waiting-leave db.transactions db.epoch id db.pending h.holds.waiting) h.holds;
        } in
        chain-keeps_eq P (load p.tx) _ _ (load-keeps host p.tx _ removed) λ tx t e q.
          let (same, here) = load-Shows host p.tx _ e in
          let there = ap (λ (d : Database W). get_elem? d.transactions p.tx) (sym same) ∙ here in
          let fits = with_status-Fits tx closed (q.holds.each p.tx tx there) in
          let stored =
            store-keeps host p.tx tx (record tx { status = closed }) t there refl fits q in
          settle-keeps (record tx { status = closed }) id _
            (record { ready = stored; known = fits.defined; unstaged = fits.unstaged })

    commit_found-keeps :
        (id : Text) (o : Option Pending) (db : Database W)
        → P db
        → P (commit_found host sink event id o db).1
    unfolding commit_found
    commit_found-keeps id none db h = h
    commit_found-keeps id (some p) db h =
        branch-keeps host p.cancelled _ _ db h (commit-keeps id p db h)

    pub dispatch-keeps : (id : Text) (db : Database W) → P db → P (dispatch host sink event id db).1
    unfolding dispatch
    dispatch-keeps id db h = commit_found-keeps id (find id db.pending) db h

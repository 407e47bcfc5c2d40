-- ===== src/Database/Outcomes.antt =====
-- What the commit event makes of a waiting operation.
use mathlib.Core.Path.{subst}
use distlab.Base.{
  ℕ, ◌≡◌, ◌≢◌, refl, sym, ◌∙◌, ap, inl, inr, Bool, true, false, Option, none, some, get_elem?, set,
  Text, ◌==◌, ok, Result, Bool-cases, if_false, if◌then◌else◌, arith,
}
use distlab.Base.Actions.{Action, pure, chain-keeps, chain-run}
use distlab.Base.Dicts.{find, leave}
use distlab.Contracts.Errors.{ErrorCode, transaction_conflict, commit_failed}
use distlab.Contracts.Events.{ScheduledEvent}
use distlab.Contracts.Observation.{ObservationSink}
use distlab.Faults.{FaultProbe, FaultDecision}
use distlab.Database.{
  Database, Host, LocalTransaction, Pending, closed, Call, on_world, load, store, observe_in,
}
use distlab.Database.Cells.{
  Tables, Change, cell, find_change, is_change, keep_changes, sort_changes, apply_changes,
}
use distlab.Database.Commit.{
  changes, fails_by, commit_fails, reject, decide, settle, commit, commit_found, dispatch,
  is_invalid_effect, commit_probe,
}
use distlab.Database.Overlay.{
  IsDistinct, after_of, kept, find_change-kept, find_change-sort_changes, keep_changes-IsDistinct,
  sort_changes-IsDistinct, apply_changes-cell,
}
use distlab.Database.Consistency.{Follows}

absent_rows : (c : Change) → is_change c ≡ false → (c.before ≡ none) × (c.after ≡ none)
unfolding is_change
absent_rows c h = ground arith

-- A transaction that follows the committed rows is committed as it sees them.
pub candidate-cell :
    (tx : LocalTransaction) (committed : Tables) {candidate : Tables} (t k : Text)
    → Follows committed tx
    → IsDistinct tx.writes
    → apply_changes (changes tx) committed ≡ ok candidate
    → cell t k candidate ≡ cell t k tx.snapshot
unfolding changes
candidate-cell tx committed {candidate} t k f d applied =
    let distinct = keep_changes-IsDistinct tx.writes d in
    let found =
      find_change-sort_changes t k (keep_changes tx.writes) distinct
      ∙ find_change-kept t k tx.writes d in
    let merged =
      apply_changes-cell (sort_changes (keep_changes tx.writes)) committed t k
        (sort_changes-IsDistinct (keep_changes tx.writes) distinct) applied
      ∙ ap (λ (o : Option Change). after_of o (cell t k committed)) found in
    merged ∙ by_write (find_change t k tx.writes) refl
  where
    by_write :
        (o : Option Change)
        → find_change t k tx.writes ≡ o
        → after_of (kept (find_change t k tx.writes)) (cell t k committed) ≡ cell t k tx.snapshot
    by_write none e = rw e (sym (f.cells t k ∙ rw e refl))
    by_write (some c) e =
        let seen : cell t k tx.snapshot ≡ c.after = f.cells t k ∙ rw e refl in
        let was = f.before t k c e in
        rw e (elim (Bool-cases (is_change c)) [
          | inl changed ↦ rw changed (sym seen)
          | inr same ↦ rw same (let (b, a) = absent_rows c same in sym was ∙ b ∙ sym a ∙ sym seen)
        ])

module _ {W : Type 0} where
  -- Databases that differ in the state of the ports alone.
  pub record IsSame (db t : Database W) : Type 0 where
    pub definitions : t.definitions ≡ db.definitions
    pub committed : t.committed ≡ db.committed
    pub revision : t.revision ≡ db.revision
    pub transactions : t.transactions ≡ db.transactions
    pub pending : t.pending ≡ db.pending
    pub epoch : t.epoch ≡ db.epoch

  pub same : (db : Database W) → IsSame db db
  same db = record {
    definitions = refl;
    committed = refl;
    revision = refl;
    transactions = refl;
    pending = refl;
    epoch = refl;
  }

  pub world-IsSame :
      {A : Type 0} (m : Action W A) (db t : Database W) → IsSame db t → IsSame db (on_world m t).1
  unfolding on_world
  world-IsSame m db t s = record {
    definitions = s.definitions;
    committed = s.committed;
    revision = s.revision;
    transactions = s.transactions;
    pending = s.pending;
    epoch = s.epoch;
  }

  pub fails_by-IsSame :
      (host : Host W) (port : Option (FaultProbe → Action W FaultDecision)) (tx : LocalTransaction)
      (db : Database W)
      → IsSame db (fails_by host port tx db).1
  unfolding fails_by
  fails_by-IsSame host none tx db = same db
  fails_by-IsSame host (some evaluate) tx db =
      chain-keeps (IsSame db) (on_world (evaluate (commit_probe tx))) _ db
        (world-IsSame (evaluate (commit_probe tx)) db db (same db))
        λ d t s. either (is_invalid_effect d) _ _ t s s
    where
      either :
          (b : Bool) (m n : Call W Bool) (t : Database W)
          → IsSame db (m t).1
          → IsSame db (n t).1
          → IsSame db ((if b then m else n) t).1
      either true m n t p q = p
      either false m n t p q = q

-- The database in which `#dispatch` settles an operation: the operation waits no more, and its
-- transaction is closed.
abbrev pub taken : {W : Type 0} → Text → Pending → LocalTransaction → Database W → Database W
taken id p tx db = record db {
  pending = leave id db.pending;
  transactions = set db.transactions p.tx (record tx { status = closed });
}

module _ {W : Type 0} (host : Host W) (sink : ObservationSink W) (event : ScheduledEvent) where
  pub reject-IsSame :
      (tx : LocalTransaction) (id : Text) (code : ErrorCode) (violated : Option Text)
      (db t : Database W)
      → IsSame db t
      → IsSame db (reject host sink event tx id code violated t).1
  unfolding reject observe_in
  reject-IsSame tx id code violated db t s =
      chain-keeps (IsSame db) (observe_in host sink (some event) _ tx _) _ t
        (chain-keeps (IsSame db) (on_world (sink.observe _)) _ t
          (world-IsSame (sink.observe _) db t s) λ _ u q. q)
        λ _ u q. world-IsSame (host.complete id _) db u q

  load-run :
      (place : ℕ) (db : Database W) {tx : LocalTransaction}
      → get_elem? db.transactions place ≡ some tx
      → load place db ≡ (ok tx, db)
  unfolding load
  load-run place db e = ground arith

  -- `#dispatch` of an operation that waits.
  pub dispatch-taken :
      (id : Text) (p : Pending) (tx : LocalTransaction) (db : Database W)
      → find id db.pending ≡ some p
      → p.cancelled ≡ false
      → get_elem? db.transactions p.tx ≡ some tx
      → dispatch host sink event id db
        ≡ settle host sink event (record tx { status = closed }) id (taken id p tx db)
  unfolding dispatch commit_found commit store
  dispatch-taken id p tx db waits kept here =
      let later : Database W = record db { pending = leave id db.pending } in
      ap (λ (o : Option Pending). commit_found host sink event id o db) waits
      ∙ ap (λ (m : Call W (Unit {0})). m db)
          (if_false {b = p.cancelled} (pure tt) (commit host sink event id p) kept)
      ∙ chain-run
          (λ r. r ≡ settle host sink event (record tx { status = closed }) id (taken id p tx db))
          (load p.tx) _ later tx
          (ap (λ (r : Result LocalTransaction × Database W). r.0) (load-run p.tx later here))
          (ap
            (λ (r : Result LocalTransaction × Database W).
              settle host sink event (record tx { status = closed }) id
                (record (r.1) {
                  transactions = set r.1.transactions p.tx (record tx { status = closed });
                }))
            (load-run p.tx later here))

  decide-conflict :
      (tx : LocalTransaction) (id : Text) (db t : Database W)
      → db.revision ≢ tx.base_revision
      → IsSame db t
      → IsSame db (decide host sink event tx id t).1
  unfolding decide
  decide-conflict tx id db t other s =
      let stale : (t.revision == tx.base_revision) ≡ false = (let e = s.revision in ground arith) in
      subst (λ (m : Call W (Unit {0})). IsSame db (m t).1) (sym (if_false _ _ stale))
        (reject-IsSame tx id transaction_conflict none db t s)

  settle-conflict :
      (tx : LocalTransaction) (id : Text) (db : Database W)
      → db.revision ≢ tx.base_revision
      → IsSame db (settle host sink event tx id db).1
  unfolding settle commit_fails
  settle-conflict tx id db other =
      chain-keeps (IsSame db) (fails_by host host.faults tx) _ db
        (fails_by-IsSame host host.faults tx db) λ fails t s. choice fails t s
    where
      choice :
          (fails : Bool) (t : Database W)
          → IsSame db t
          → IsSame db
              ((if fails
                  then reject host sink event tx id commit_failed none
                  else decide host sink event tx id)
                t).1
      choice true t s = reject-IsSame tx id commit_failed none db t s
      choice false t s = decide-conflict tx id db t other s

  -- A transaction that began at another revision than the present one commits nothing, whatever the
  -- ports answer: the committed rows and the revision stay, the operation waits no more, and its
  -- transaction is closed.
  pub dispatch_conflict :
      (id : Text) (p : Pending) (tx : LocalTransaction) (db : Database W)
      → find id db.pending ≡ some p
      → p.cancelled ≡ false
      → get_elem? db.transactions p.tx ≡ some tx
      → db.revision ≢ tx.base_revision
      → IsSame (taken id p tx db) (dispatch host sink event id db).1
  dispatch_conflict id p tx db waits kept here other =
      subst (λ (r : Result (Unit {0}) × Database W). IsSame (taken id p tx db) r.1)
        (sym (dispatch-taken id p tx db waits kept here))
        (settle-conflict (record tx { status = closed }) id (taken id p tx db) other)

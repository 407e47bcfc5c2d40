-- ===== src/Database/Commit.antt =====
-- packages/kernel/src/database.ts: `#dispatch`, the handling of the commit event.
use distlab.Base.{
  ℕ, suc, Bool, false, ◌&&◌, ◌||◌, Option, none, some, List, [], ◌∷◌, Text, units, fail_if, ltb,
  ◌==◌, if◌then◌else◌,
}
use distlab.Base.Actions.{Action, ◌>>=◌, ◌>>◌, pure, get, put, lift, raise}
use distlab.Base.Dicts.{find, leave}
use distlab.Contracts.Errors.{
  ErrorCode, invalid_fault, identity_overflow, commit_failed, transaction_conflict,
  constraint_violation,
}
use distlab.Contracts.Codes.{code_name}
use distlab.Contracts.Events.{ScheduledEvent}
use distlab.Contracts.Observation.{ObservationSink}
use distlab.Values.{
  whole, Value, str, num, obj, arr, Items, nil, cons, field, end, max_safe, with_text,
}
use distlab.Faults.{FaultProbe, FaultDecision, database_commit}
use distlab.Database.{
  Host, LocalTransaction, Pending, closed, success, failure, Call, on_world, load, store,
  observe_in,
}
use distlab.Database.Cells.{Tables, Change, keep_changes, sort_changes, apply_changes}
use distlab.Database.Constraints.{constraint}
use distlab.Database.Transactions.{about, change_fields}

-- `tx.changes()`
unfoldable pub changes : LocalTransaction → List Change
changes tx = sort_changes (keep_changes tx.writes)

unfoldable pub change_items : List Change → Items
change_items [] = nil
change_items (c ∷ cs) = cons (obj (change_fields c)) (change_items cs)

unfoldable pub committed_data : LocalTransaction → ℕ → ℕ → Value
committed_data tx previous next = about tx (
    field (units "oldRevision") (num (whole previous)) (
      field (units "newRevision") (num (whole next))
        (field (units "changes") (arr (change_items (changes tx))) end)))

unfoldable pub commit_probe : LocalTransaction → FaultProbe
commit_probe tx = record {
  point = database_commit;
  subject_id = tx.id;
  source = tx.task.owner;
  target = tx.task.owner;
  name = tx.task.owner;
}

-- An effect that a commit cannot have.
unfoldable pub is_invalid_effect : FaultDecision → Bool
is_invalid_effect d =
    d.drop || ltb 0 d.extra_delay || ltb 0 d.additional_copies || ltb 0 d.copy_spacing

-- The revision after a commit.
abbrev pub next_revision : Bool → ℕ → ℕ
next_revision staged revision = if staged then suc revision else revision

module _ {W : Type 0} (host : Host W) where
  -- What the fault port says of the commit; without a port nothing fails.
  unfoldable pub fails_by :
      Option (FaultProbe → Action W FaultDecision) → LocalTransaction → Call W Bool
  fails_by none tx = pure false
  fails_by (some evaluate) tx = do
    d ← on_world (evaluate (commit_probe tx))
    if is_invalid_effect d then raise invalid_fault else pure d.fail

  unfoldable pub commit_fails : LocalTransaction → Call W Bool
  commit_fails tx = fails_by host.faults tx

module _ {W : Type 0} (host : Host W) (sink : ObservationSink W) (event : ScheduledEvent) where
  unfoldable pub reject : LocalTransaction → Text → ErrorCode → Option Text → Call W (Unit {0})
  reject tx id code violated = do
    observe_in host sink (some event) (units "database.transaction.rejected") tx (
        about tx (
          field (units "code") (str (code_name code))
            (with_text (units "constraint") violated end)))
    on_world
        (host.complete id (failure code (about tx (with_text (units "constraint") violated end))))

  -- The commit itself, of a candidate that violates nothing.
  unfoldable pub install : LocalTransaction → Text → Tables → Call W (Unit {0})
  install tx id candidate = do
    db ← get
    lift (fail_if (tx.staged && db.revision == max_safe) identity_overflow)
    put (record db { committed = candidate; revision = next_revision tx.staged db.revision })
    observe_in host sink (some event) (units "database.transaction.committed") tx
        (committed_data tx db.revision (next_revision tx.staged db.revision))
    on_world (host.complete id (success Value.null))

  -- A candidate whose constraints were checked.
  unfoldable pub conclude : LocalTransaction → Text → Tables → Option Text → Call W (Unit {0})
  conclude tx id candidate none = install tx id candidate
  conclude tx id candidate (some name) = reject tx id constraint_violation (some name)

  -- The writes are applied to a copy of the committed rows.
  unfoldable pub attempt : LocalTransaction → Text → Call W (Unit {0})
  attempt tx id = do
    db ← get
    candidate ← lift (apply_changes (changes tx) db.committed)
    violated ← lift (constraint host.options db.definitions candidate)
    conclude tx id candidate violated

  -- After the fault port has let the commit pass.
  unfoldable pub decide : LocalTransaction → Text → Call W (Unit {0})
  decide tx id = do
    db ← get
    if db.revision == tx.base_revision
        then attempt tx id
        else reject tx id transaction_conflict none

  unfoldable pub settle : LocalTransaction → Text → Call W (Unit {0})
  settle tx id = do
    fails ← commit_fails host tx
    if fails then reject tx id commit_failed none else decide tx id

  -- The commit of a waiting operation.
  unfoldable pub commit : Text → Pending → Call W (Unit {0})
  commit id p = do
    db ← get
    put (record db { pending = leave id db.pending })
    tx ← load p.tx
    store p.tx (record tx { status = closed })
    settle (record tx { status = closed }) id

  unfoldable pub commit_found : Text → Option Pending → Call W (Unit {0})
  commit_found id none = pure tt
  commit_found id (some p) = if p.cancelled then pure tt else commit id p

  -- `#dispatch(event, context)`, of the operation that the payload names
  unfoldable pub dispatch : Text → Call W (Unit {0})
  dispatch id db = commit_found id (find id db.pending) db

-- ===== src/Database/Transactions.antt =====
-- packages/kernel/src/database.ts: the calls of a transaction, and those of the database besides
-- the commit.
use distlab.Base.{
  ℕ, suc, Bool, true, false, not, ◌&&◌, ◌||◌, Option, none, some, List, [], ◌∷◌, ◌++◌, length, Text,
  units, text_eq, Result, ok, throw, bind, fail_if, ◌==◌, if◌then◌else◌,
}
use distlab.Base.Actions.{◌>>=◌, ◌>>◌, pure, get, put, lift, raise}
use distlab.Base.Dicts.{Dict, find, enter, leave, is_some}
use distlab.Contracts.Errors.{
  invalid_database_operation, identity_overflow, row_exists, row_not_found,
}
use distlab.Contracts.Events.{ScheduledEvent}
use distlab.Values.{
  whole, Value, str, num, obj, arr, Items, nil, cons, Fields, field, end, max_safe,
}
use distlab.Canonical.{Raw, embed}
use distlab.Database.{
  Database, Host, LocalTransaction, TaskIdentity, Pending, is_open, submitted, rolledback,
  is_opened, is_rolledback, transaction_id, event_type, evidence, Call, on_world, load, store,
  observe, active, rows_of,
}
use distlab.Database.Cells.{
  Row, Rows, Change, find_change, put_change, put_row, check_key, row_of, sort_rows,
}

-- `{ transactionId, ... }`
abbrev pub about : LocalTransaction → Fields → Value
about tx more = obj (field (units "transactionId") (str tx.id) more)

unfoldable pub key_items : List (Text × Row) → Items
key_items [] = nil
key_items ((key, row) ∷ rows) = cons (str key) (key_items rows)

unfoldable pub row_items : List (Text × Row) → Items
row_items [] = nil
row_items ((key, row) ∷ rows) =
    cons (obj (field (units "key") (str key) (field (units "row") (obj row) end))) (row_items rows)

-- The data of `read`.
unfoldable pub read_data : LocalTransaction → Text → Items → List (Text × Row) → Value
read_data tx table keys rows = about tx (
    field (units "table") (str table)
      (field (units "keys") (arr keys) (field (units "rows") (arr (row_items rows)) end)))

-- `{ table, key, before, after }`, each row with its evidence
unfoldable pub change_fields : Change → Fields
change_fields c = field (units "table") (str c.table) (
    field (units "key") (str c.key)
      (field (units "before") (evidence c.before) (field (units "after") (evidence c.after) end)))

-- A copy of each row that a scan found.
unfoldable pub copy_rows : List (Text × Row) → Result (List (Text × Row))
copy_rows [] = ok []
copy_rows ((key, row) ∷ rows) =
    let rest = copy_rows rows in
    bind (row_of (embed (obj row))) λ copy. bind rest λ copies. ok ((key, copy) ∷ copies)

abbrev pub found : Text → Option Row → List (Text × Row)
found key none = []
found key (some row) = (key, row) ∷ []

abbrev copy_found : Option Row → Result (Option Row)
copy_found none = ok none
copy_found (some row) = bind (row_of (embed (obj row))) λ copy. ok (some copy)

-- What an earlier write of the row, or its first, stands for as `before`.
abbrev pub before_of : Option Change → Option Row → Option Row
before_of none current = current
before_of (some previous) current = previous.before

-- A transaction after a write.
unfoldable pub staged_write : Text → Text → Option Row → Rows → LocalTransaction → LocalTransaction
staged_write table key after rows tx =
    let current = find key rows in
    let before = before_of (find_change table key tx.writes) current in
    record tx {
      snapshot = enter table (put_row key after rows) tx.snapshot;
      staged = true;
      writes =
          put_change (record { table = table; key = key; before = before; after = after })
            tx.writes;
    }

-- The task that rolled a transaction back may do so again.
unfoldable pub is_own_task : Option TaskIdentity → LocalTransaction → Bool
is_own_task none tx = false
is_own_task (some task) tx =
    text_eq task.id tx.task.id && task.process_generation == tx.task.process_generation

unfoldable pub keep_pending : ℕ → Dict Pending → Dict Pending
keep_pending generation [] = []
keep_pending generation ((id, p) ∷ rest) =
    let kept = keep_pending generation rest in
    if p.generation == generation then kept else (id, p) ∷ kept

module _ {W : Type 0} where
  -- The transaction leaves the open ones with a new status.
  unfoldable pub close_as : ℕ → LocalTransaction → Call W (Unit {0})
  close_as place tx = do
    store place tx
    db ← get
    put (record db { opened = leave tx.task.id db.opened })

module _ {W : Type 0} (host : Host W) where
  -- `read(tx, table, keys, rows)`
  unfoldable pub note_read : LocalTransaction → Text → Items → List (Text × Row) → Call W (Unit {0})
  note_read tx table keys rows =
      observe host (units "database.row.read") tx (read_data tx table keys rows)

  unfoldable pub get_row : ℕ → Text → Text → Call W (Option Row)
  get_row place table key = do
    (tx, rows) ← rows_of host place table
    lift (check_key key)
    note_read tx table (cons (str key) nil) (found key (find key rows))
    lift (copy_found (find key rows))

  unfoldable pub scan : ℕ → Text → Call W (List (Text × Row))
  scan place table = do
    (tx, rows) ← rows_of host place table
    copies ← lift (copy_rows (sort_rows rows))
    note_read tx table (key_items copies) copies
    pure copies

  -- `#write(table, key, after)`
  unfoldable pub write : ℕ → Text → Text → Option Row → Call W (Unit {0})
  write place table key after = do
    (tx, rows) ← rows_of host place table
    lift (check_key key)
    store place (staged_write table key after rows tx)
    observe host (units "database.write.staged") tx (
        about tx (
          change_fields
            (record { table = table; key = key; before = find key rows; after = after })))

  unfoldable pub insert : ℕ → Text → Text → Raw → Call W (Unit {0})
  insert place table key row = do
    (tx, rows) ← rows_of host place table
    lift (check_key key)
    value ← lift (row_of row)
    lift (fail_if (is_some (find key rows)) row_exists)
    write place table key (some value)

  unfoldable pub update : ℕ → Text → Text → Raw → Call W (Unit {0})
  update place table key row = do
    (tx, rows) ← rows_of host place table
    lift (check_key key)
    value ← lift (row_of row)
    lift (fail_if (not (is_some (find key rows))) row_not_found)
    write place table key (some value)

  unfoldable pub delete : ℕ → Text → Text → Call W Bool
  delete place table key = do
    (tx, rows) ← rows_of host place table
    lift (check_key key)
    if is_some (find key rows) then (write place table key none >>= λ _. pure true) else pure false

  -- `new LocalTransaction(...)`
  unfoldable pub new_transaction : TaskIdentity → ScheduledEvent → Database W → LocalTransaction
  new_transaction task origin db = record {
    id = transaction_id host.owner db.counter;
    task = task;
    epoch = db.epoch;
    base_revision = db.revision;
    snapshot = db.committed;
    origin = origin;
    status = is_open;
    staged = false;
    writes = [];
  }

  -- What `begin` does of a task and an event that pass its tests; the place of the transaction.
  unfoldable pub start_at : TaskIdentity → ScheduledEvent → Call W ℕ
  start_at task origin = do
    db ← get
    put (record db {
      counter = suc db.counter;
      transactions = db.transactions ++ new_transaction task origin db ∷ [];
      opened = enter task.id (length db.transactions) db.opened;
    })
    observe host (units "database.transaction.begun") (new_transaction task origin db) (
        about (new_transaction task origin db)
          (field (units "baseRevision") (num (whole db.revision)) end))
    pure (length db.transactions)

  -- The tests of `begin`, of the task and the event that the simulation shows.
  unfoldable pub may_begin :
      TaskIdentity → Option ScheduledEvent → Database W → Result ScheduledEvent
  may_begin task event db =
      if not (text_eq task.owner host.owner) || is_some (find task.id db.opened)
      then throw invalid_database_operation
      else if db.counter == max_safe
      then throw identity_overflow
      else elim event [ none ↦ throw invalid_database_operation | some origin ↦ ok origin ]

  unfoldable pub begin_for : Option TaskIdentity → Call W ℕ
  begin_for none = raise invalid_database_operation
  begin_for (some task) = do
    db ← get
    origin ← lift (may_begin task host.event db)
    start_at task origin

  unfoldable pub begin : Call W ℕ
  begin = begin_for host.task

  -- The rest of `submit`, once the operation is there.
  unfoldable pub submit_as : ℕ → LocalTransaction → Text → Call W Text
  submit_as place tx operation = do
    close_as place (record tx { status = submitted })
    db ← get
    put (record db {
      pending =
          enter operation
            (record {
              tx = place;
              operation = operation;
              generation = tx.task.process_generation;
              cancelled = false;
            })
            db.pending;
    })
    on_world (
        host.schedule (event_type host.owner)
          (obj (field (units "operationId") (str operation) end)))
    pure operation

  -- `commit()`: `submit(tx)`, which returns the operation.
  unfoldable pub submit : ℕ → Call W Text
  submit place = do
    tx ← active host place
    operation ← on_world host.create
    submit_as place tx operation

  -- The record of a transaction that is rolled back.
  unfoldable pub note_rollback : LocalTransaction → Text → Call W (Unit {0})
  note_rollback tx reason =
      observe host (units "database.transaction.rolledback") tx
        (about tx (field (units "reason") (str reason) end))

  unfoldable pub roll_back : ℕ → Call W (Unit {0})
  roll_back place = do
    tx ← active host place
    close_as place (record tx { status = rolledback })
    note_rollback tx (units "explicit")

  -- `rollback()`, with the reason "explicit"
  unfoldable pub rollback : ℕ → Call W (Unit {0})
  rollback place = do
    tx ← load place
    db ← get
    lift (fail_if (not (tx.epoch == db.epoch)) invalid_database_operation)
    if is_rolledback tx.status
        then lift (fail_if (not (is_own_task host.task tx)) invalid_database_operation)
        else roll_back place

  unfoldable pub cleanup : ℕ → Call W (Unit {0})
  cleanup place = do
    tx ← load place
    if is_opened tx.status
        then close_as place (record tx { status = rolledback })
          >> note_rollback tx (units "task-exit-or-crash")
        else pure tt

  -- One open transaction in the loop of `abandonGeneration`.
  unfoldable pub abandon_open : ℕ → ℕ → Call W (Unit {0})
  abandon_open generation place = do
    tx ← load place
    if tx.task.process_generation == generation then cleanup place else pure tt

  unfoldable pub abandon_all : ℕ → Dict ℕ → Call W (Unit {0})
  abandon_all generation [] = pure tt
  abandon_all generation ((id, place) ∷ rest) =
      abandon_open generation place >> abandon_all generation rest

  unfoldable pub abandon_generation : ℕ → Call W (Unit {0})
  abandon_generation generation = do
    db ← get
    abandon_all generation db.opened
    after ← get
    put (record after { pending = keep_pending generation after.pending })

module _ {W : Type 0} where
  -- The objects of earlier transactions stay: their tasks may hold them.
  unfoldable pub reset : Database W → Database W
  reset db = record db {
    epoch = suc db.epoch;
    opened = [];
    pending = [];
    committed = db.initial;
    revision = 0;
    counter = 0;
  }

-- ===== src/Database.antt =====
-- packages/kernel/src/database.ts: `DeterministicDatabase` and its `LocalTransaction`. A
-- transaction is an object that the database and its task share, so the objects stand in a list of
-- the state and are referred to by their place in it. The state of the ports, which are the
-- simulation's, is `world`.
pub mod Cells
pub mod Constraints
pub mod Transactions
pub mod Commit
pub mod Create
pub mod Overlay
pub mod Consistency
pub mod Reach
pub mod Outcomes
pub mod Race
pub mod Successes
pub mod Isolation
pub mod Satisfaction
use distlab.Base.{
  ℕ, suc, ◌+◌, Bool, true, false, not, ◌&&◌, ◌||◌, Option, none, some, List, [], ◌∷◌, ◌++◌, length,
  get_elem?, set, Text, units, text_eq, decimal, Result, ok, throw, type_error, bind, fail_if, leb,
  ◌==◌, if◌then◌else◌,
}
use distlab.Base.Actions.{Action, and_then, ◌>>=◌, ◌>>◌, pure, get, put, lift, raise}
use distlab.Base.Dicts.{Dict, find, enter, leave, is_some}
use distlab.Contracts.Errors.{ErrorCode, invalid_database_operation, identity_overflow}
use distlab.Contracts.Events.{ScheduledEvent}
use distlab.Contracts.Observation.{ObservationInput, ObservationSink, observation}
use distlab.Values.{
  Number, whole, Value, bool, str, num, obj, arr, Items, nil, cons, Fields, field, end, max_safe,
  truthy,
}
use distlab.Canonical.{Raw, embed}
use distlab.Faults.{FaultProbe, FaultDecision}
use Cells.{Row, Rows, Tables, Change, check_key, row_of}

pub record TableDefinition : Type 0 where
  pub name : Text
  pub unique : List (List Text)
  pub checks : List Text

pub record TaskIdentity : Type 0 where
  pub id : Text
  pub owner : Text
  pub process_generation : ℕ

pub data Status : Type 0 where
  is_open submitted closed rolledback : Status

-- `status === "open"`
unfoldable pub is_opened : Status → Bool
is_opened is_open = true
is_opened _ = false

-- `status === "rolledback"`
unfoldable pub is_rolledback : Status → Bool
is_rolledback rolledback = true
is_rolledback _ = false

pub record LocalTransaction : Type 0 where
  pub id : Text
  pub task : TaskIdentity
  pub epoch : ℕ
  pub base_revision : ℕ
  pub snapshot : Tables
  pub origin : ScheduledEvent
  pub status : Status
  pub staged : Bool
  pub writes : List Change

-- An operation that waits for its commit; `tx` is the place of the transaction.
pub record Pending : Type 0 where
  pub tx : ℕ
  pub operation : Text
  pub generation : ℕ
  pub cancelled : Bool

pub record Database (W : Type 0) : Type 0 where
  pub definitions : Dict TableDefinition
  pub initial : Tables
  pub committed : Tables
  pub revision : ℕ
  pub counter : ℕ
  pub epoch : ℕ
  pub transactions : List LocalTransaction
  pub opened : Dict ℕ
  pub pending : Dict Pending
  pub world : W

pub data Outcome : Type 0 where
  success : Value → Outcome
  failure : ErrorCode → Value → Outcome

-- The options of a database that do not change. A row check answers nothing where it throws or
-- returns no Boolean.
pub record Options : Type 0 where
  pub owner : Text
  pub checks : Text → Option (Row → Option Bool)
  pub number_text : Number → Text

-- With the ports, and what the simulation shows to a database during a call.
pub record Host (W : Type 0) : Type 0 where
  pub options : Options
  pub open options use *
  pub sink : ObservationSink W
  pub create : Action W Text
  pub complete : Text → Outcome → Action W (Unit {0})
  pub schedule : Text → Value → Action W (Unit {0})
  pub faults : Option (FaultProbe → Action W FaultDecision)
  pub task : Option TaskIdentity
  pub event : Option ScheduledEvent

-- `database.${owner}.commit`
unfoldable pub event_type : Text → Text
event_type owner = units "database." ++ (owner ++ units ".commit")

-- `${owner}:database:${counter}`
unfoldable pub transaction_id : Text → ℕ → Text
transaction_id owner n = owner ++ (units ":database:" ++ decimal n)

-- `#evidence(row)`
unfoldable pub evidence : Option Row → Value
evidence none = obj (field (units "present") (bool false) end)
evidence (some row) =
    obj (field (units "present") (bool true) (field (units "value") (obj row) end))

module _ {W : Type 0} (host : Host W) where
  -- The record of `observe`.
  unfoldable pub observed : Text → LocalTransaction → Value → ScheduledEvent → ObservationInput
  observed type tx payload event =
      let bare = observation type host.owner (some payload) in
      record bare {
        event_id = some event.id;
        trace_id = truthy tx.origin.trace_id;
        span_id = truthy tx.origin.span_id;
        parent_span_id = truthy tx.origin.parent_span_id;
        causation_id = truthy tx.origin.causation_id;
        entity_refs = some (record { kind = units "service"; id = host.owner } ∷ []);
      }

  -- `tx.db.active(tx)`, of the transaction at a place.
  unfoldable pub is_active : Option TaskIdentity → ℕ → LocalTransaction → Database W → Bool
  is_active none place tx db = false
  is_active (some task) place tx db =
      tx.epoch == db.epoch
      && is_opened tx.status
      && text_eq task.id tx.task.id
      && text_eq task.owner tx.task.owner
      && task.process_generation == tx.task.process_generation
      && elim (find task.id db.opened) [ none ↦ false | some p ↦ p == place ]

abbrev pub Call : Type 0 → Type 0 → Type 0
Call W A = Action (Database W) A

-- `this.snapshot.get(table)!`, which is read through.
unfoldable pub rows_in : Text → LocalTransaction → Result Rows
rows_in table tx = elim (find table tx.snapshot) [ none ↦ type_error | some rows ↦ ok rows ]

module _ {W : Type 0} where
  -- A call of a port.
  unfoldable pub on_world : {A : Type 0} → Action W A → Call W A
  on_world m db = let (result, w) = m db.world in (result, record db { world = w })

  -- The object at a place, and a write to it.
  unfoldable pub load : ℕ → Call W LocalTransaction
  load place db = elim (get_elem? db.transactions place) [
    | none ↦ (type_error, db)
    | some tx ↦ (ok tx, db)
  ]

  unfoldable pub store : ℕ → LocalTransaction → Call W (Unit {0})
  store place tx db = (ok tt, record db { transactions = set db.transactions place tx })

  -- `table(table)`
  unfoldable pub check_table : Text → Database W → Result (Unit {0})
  check_table table db =
      fail_if (not (is_some (find table db.definitions))) invalid_database_operation

module _ {W : Type 0} (host : Host W) where
  -- `observe(type, tx, data, context, event)`: the sink is that of the context, where there is one.
  unfoldable pub observe_in :
      ObservationSink W
      → Option ScheduledEvent
      → Text
      → LocalTransaction
      → Value
      → Call W (Unit {0})
  observe_in sink none type tx payload = raise invalid_database_operation
  observe_in sink (some event) type tx payload =
      on_world (sink.observe (observed host type tx payload event)) >>= λ _. pure tt

  unfoldable pub observe : Text → LocalTransaction → Value → Call W (Unit {0})
  observe = observe_in host.sink host.event

  unfoldable pub active : ℕ → Call W LocalTransaction
  active place = do
    tx ← load place
    db ← get
    if is_active host host.task place tx db then pure tx else raise invalid_database_operation

  -- `#table(table)` of a transaction, with the transaction. A table that the snapshot lacks is a read
  -- of undefined.
  unfoldable pub rows_of : ℕ → Text → Call W (LocalTransaction × Rows)
  rows_of place table = do
    tx ← active place
    db ← get
    lift (check_table table db)
    rows ← lift (rows_in table tx)
    pure (tx, rows)

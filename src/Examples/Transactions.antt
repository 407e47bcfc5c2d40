-- ===== src/Examples/Transactions.antt =====
-- A database of one table on small inputs: an insertion, its commit and the conflict that it makes.
use mathlib.Core.Path.{subst}
use distlab.Base.{
  ℕ, suc, ◌≡◌, ◌↔◌, refl, ◌&&◌, ◌==◌, true, false, none, some, [], ◌∷◌, Text, units, text_eq, ok,
  decimal, if◌then◌else◌, arith, get_elem?,
}
use distlab.Base.Actions.{pure}
use distlab.Base.Dicts
use distlab.Base.Dicts.{Dict, find}
use distlab.Contracts.Events.{ScheduledEvent}
use distlab.Values
use distlab.Values.{
  max_safe, Number, whole, Value, str, num, arr, obj, Items, nil, cons, Fields, field, end,
}
use distlab.Canonical
use distlab.Canonical.{Raw, embed}
use distlab.Database
use distlab.Database.{Options, Host, Database, TaskIdentity, LocalTransaction, Pending}
use distlab.Database.Cells
use distlab.Database.Cells.{Row, row_of}
use distlab.Database.Constraints
use distlab.Database.Constraints.{constraint}
use distlab.Database.Satisfaction.{All, TableSatisfies, constraint-Satisfies}
use distlab.Database.Transactions
use distlab.Database.Transactions.{insert, begin, submit}
use distlab.Database.Commit
use distlab.Database.Commit.{dispatch}
use distlab.Database.Create
use distlab.Database.Create.{Setup, create}
use distlab.Database.Consistency.{IsConsistent}
use distlab.Database.Reach.{Reach, here, next, after, begins, inserts, submits, Reach-IsConsistent}
use distlab.Database.Isolation.{Writes, insert-Writes}
use distlab.Database.Successes.{Commits, dispatch-Commits}
use distlab.Database.Race.{first_commit-wins}
use distlab.Samples.{Records, keeping, keeping-Accepts, shop, draft}

abbrev items : Text
items = units "items"

abbrev event : ScheduledEvent
event = record { draft = draft 1; id = units "e"; sequence = 0 }

-- The check `priced` wants a field `price`.
abbrev options : Options
options = record {
  owner = shop;
  checks = λ name.
      if text_eq name (units "priced")
      then some (λ row. some (Dicts.is_some (Values.get_field (units "price") row)))
      else none;
  number_text = λ n. elim n [ whole n ↦ decimal n | _ ↦ [] ];
}

abbrev worker : Text → TaskIdentity
worker id = record { id = id; owner = shop; process_generation = 0 }

abbrev host_of : Text → Host Records
host_of id = record {
  options = options;
  sink = keeping;
  create = pure id;
  complete = λ _ _. pure tt;
  schedule = λ _ _. pure tt;
  faults = none;
  task = some (worker id);
  event = some event;
}

abbrev texts : Text → Value
texts s = arr (cons (str s) nil)

abbrev definition : Raw
definition = embed (
    obj (
      field (units "owner") (str shop) (
        field (units "tables")
          (arr (
            cons
              (obj (
                field (units "name") (str items) (
                  field (units "unique") (arr (cons (texts (units "price")) nil))
                    (field (units "checks") (texts (units "priced")) end))))
              nil))
          (field (units "initial") (obj end) end))))

abbrev setup : Setup Records
setup = record { registered = false; register_schemas = pure tt; register_handler = λ _ _. pure tt }

abbrev opened : Database Records
opened = record {
  definitions =
      (
        items,
        record { name = items; unique = (units "price" ∷ []) ∷ []; checks = units "priced" ∷ [] },
      )
      ∷ [];
  initial = (items, []) ∷ [];
  committed = (items, []) ∷ [];
  revision = 0;
  counter = 0;
  epoch = 0;
  transactions = [];
  opened = [];
  pending = [];
  world = [];
}

created : create (host_of (units "a")) setup definition [] ≡ (ok opened, [])
unfolding create Create.build Canonical.canonical_copy embed Cells.fields_of Create.read_definition
    Create.name_of Values.get_field text_eq Values.is_name Values.is_space Create.read_tables
    Create.read_table Create.read_unique Create.read_tuple Create.read_names Create.has_repeat
    Values.includes Create.are_checks Create.are_defined Create.read_initial Create.read_rows find
    constraint Constraints.run_table Constraints.rows_in Constraints.run_rows Create.fresh
created = refl

priced : ℕ → Raw
priced n = embed (obj (field (units "price") (num (whole n)) end))

-- Two tasks begin at the same revision.
abbrev begun : Database Records
begun = after (host_of (units "b")) begins (after (host_of (units "a")) begins opened)

abbrev written : Database Records
written = after (host_of (units "a")) (inserts 0 items (units "k") (priced 5)) begun

abbrev submitted : Database Records
submitted =
    after (host_of (units "b")) (submits 1) (after (host_of (units "a")) (submits 0) written)

calls : Reach options opened submitted
calls =
    next
      (next
        (next (next (next here (host_of (units "a")) refl begins) (host_of (units "b")) refl begins)
          (host_of (units "a")) refl (inserts 0 items (units "k") (priced 5)))
        (host_of (units "a")) refl (submits 0))
      (host_of (units "b")) refl (submits 1)

Reach-IsConsistent_example : IsConsistent options submitted
Reach-IsConsistent_example =
    Reach-IsConsistent (host_of (units "a")) setup definition [] [] created calls

constraint-Satisfies_example :
    (constraint options opened.definitions opened.committed ≡ ok none)
    ↔ All (TableSatisfies options opened.committed) opened.definitions
constraint-Satisfies_example = constraint-Satisfies options opened.definitions opened.committed

inserted_ok : insert (host_of (units "a")) 0 items (units "k") (priced 5) begun ≡ (ok tt, written)
unfolding insert after begin Transactions.begin_for Transactions.may_begin Transactions.start_at
    Transactions.new_transaction Database.observe Database.observe_in Database.on_world
    Database.rows_of Database.active Database.load Database.is_active Database.is_opened text_eq
    find Dicts.enter Database.check_table Database.rows_in Cells.check_key Values.is_name
    Values.is_space row_of priced embed Cells.are_names Cells.fields_of Canonical.canonical_copy
    Transactions.write Transactions.staged_write Database.store
inserted_ok = refl

insert-Writes_example :
    (value : Row) × (row_of (priced 5) ≡ ok value)
    × (w : Writes 0 items (units "k") (some value) begun written) × (Cells.cell items
          (units "k")
          w.tx.snapshot
        ≡ none)
insert-Writes_example =
    insert-Writes (host_of (units "a")) 0 items (units "k") (priced 5) begun inserted_ok

-- The transaction of the first task, after it was submitted.
first : LocalTransaction
first = record {
  id = Database.transaction_id shop 0;
  task = worker (units "a");
  epoch = 0;
  base_revision = 0;
  snapshot = (items, (units "k", field (units "price") (num (whole 5)) end) ∷ []) ∷ [];
  origin = event;
  status = Database.submitted;
  staged = true;
  writes =
      (record {
        table = items;
        key = units "k";
        before = none;
        after = some (field (units "price") (num (whole 5)) end);
      })
      ∷ [];
}

abbrev pending_of : ℕ → Text → Pending
pending_of place id = record { tx = place; operation = id; generation = 0; cancelled = false }

abbrev rows_after : Cells.Tables
rows_after = (items, (units "k", field (units "price") (num (whole 5)) end) ∷ []) ∷ []

run :
    (find (units "a") submitted.pending ≡ some (pending_of 0 (units "a")))
    × (get_elem? submitted.transactions 0 ≡ some first)
    × (submitted.revision ≡ first.base_revision)
    × (Cells.apply_changes (Commit.changes first) submitted.committed ≡ ok rows_after)
    × (constraint options submitted.definitions rows_after ≡ ok none)
unfolding insert after begin Transactions.begin_for Transactions.may_begin Transactions.start_at
    Transactions.new_transaction Database.observe Database.observe_in Database.on_world
    Database.rows_of Database.active Database.load Database.is_active Database.is_opened text_eq
    find Dicts.enter Database.check_table Database.rows_in Cells.check_key Values.is_name
    Values.is_space row_of priced embed Cells.are_names Cells.fields_of Canonical.canonical_copy
    Transactions.write Transactions.staged_write Database.store submit Transactions.submit_as
    Transactions.close_as Dicts.leave first Cells.find_change Cells.put_change Commit.changes
    Cells.keep_changes Cells.is_change Cells.sort_changes Cells.insert_change Cells.apply_changes
    Cells.apply_change constraint Constraints.run_table Constraints.rows_in Constraints.run_rows
    Constraints.run_row Constraints.run_checks Constraints.run_check Constraints.ask
    Constraints.judge Constraints.run_unique Constraints.run_tuple Constraints.has_fields
    Constraints.clashes Constraints.is_clash Values.get_field Constraints.check_name
run = (refl, refl, refl, refl, refl)

lets :
    (d : Database Records)
    → (Commit.commit_fails (host_of (units "a")) (record first { status = Database.closed }) d).0
      ≡ ok false
unfolding Commit.commit_fails Commit.fails_by
lets d = refl

passes :
    (candidate : Cells.Tables)
    → Cells.apply_changes (Commit.changes first) submitted.committed ≡ ok candidate
    → constraint options submitted.definitions candidate ≡ ok none
passes candidate e =
    let one : rows_after ≡ candidate = cc (run.3) in
    subst (λ (c : Cells.Tables). constraint options submitted.definitions c ≡ ok none) one run.4

room : (first.staged && submitted.revision == max_safe) ≡ false
unfolding first
room = let e : submitted.revision ≡ 0 = run.2 in ground arith

dispatch-Commits_example :
    Commits first submitted (dispatch (host_of (units "a")) keeping event (units "a") submitted)
dispatch-Commits_example =
    dispatch-Commits (host_of (units "a")) keeping event keeping-Accepts (λ _ _ _. refl) (units "a")
      (pending_of 0 (units "a")) first submitted
      (Reach-IsConsistent (host_of (units "a")) setup definition [] [] created calls) run.0 refl
      run.1 run.2 room lets passes

-- The second transaction, after the first has been committed.
abbrev later : Database Records
later = record submitted { revision = 1 }

second : LocalTransaction
second = record {
  id = Database.transaction_id shop 1;
  task = worker (units "b");
  epoch = 0;
  base_revision = 0;
  snapshot = (items, []) ∷ [];
  origin = event;
  status = Database.submitted;
  staged = false;
  writes = [];
}

overtaken :
    (find (units "b") later.pending ≡ some (pending_of 1 (units "b")))
    × (get_elem? later.transactions 1 ≡ some second)
unfolding insert after begin Transactions.begin_for Transactions.may_begin Transactions.start_at
    Transactions.new_transaction Database.observe Database.observe_in Database.on_world
    Database.rows_of Database.active Database.load Database.is_active Database.is_opened text_eq
    find Dicts.enter Database.check_table Database.rows_in Cells.check_key Values.is_name
    Values.is_space row_of priced embed Cells.are_names Cells.fields_of Canonical.canonical_copy
    Transactions.write Transactions.staged_write Database.store submit Transactions.submit_as
    Transactions.close_as Dicts.leave second Cells.find_change Cells.put_change
overtaken = (refl, refl)

same_base : second.base_revision ≡ submitted.revision
unfolding first second
same_base = let e : submitted.revision ≡ 0 = run.2 in ground arith

has_written : first.staged ≡ true
unfolding first
has_written = refl

-- The database after the commit of the first task.
abbrev won : Database Records
won = (dispatch (host_of (units "a")) keeping event (units "a") submitted).1

abbrev lost : Database Records
lost = (dispatch (host_of (units "b")) keeping event (units "b") won).1

first_commit-wins_example :
    (lost.committed ≡ won.committed)
    × (lost.revision ≡ won.revision)
    × (won.revision ≡ suc submitted.revision)
unfolding text_eq
first_commit-wins_example =
    first_commit-wins (host_of (units "a")) (host_of (units "b")) keeping keeping event event
      (units "a") (units "b") (pending_of 0 (units "a")) (pending_of 1 (units "b")) first second
      submitted run.0 refl run.1 overtaken.0 refl overtaken.1 refl refl has_written same_base
      (dispatch-Commits (host_of (units "a")) keeping event keeping-Accepts (λ _ _ _. refl)
        (units "a") (pending_of 0 (units "a")) first submitted
        (Reach-IsConsistent (host_of (units "a")) setup definition [] [] created calls) run.0 refl
        run.1 run.2 room lets passes)

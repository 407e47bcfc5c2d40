-- ===== src/Database/Create.antt =====
-- packages/kernel/src/database.ts: the constructor. A definition is any value of the host, and is
-- read from its canonical copy; whatever is wrong with it has one code.
use distlab.Base.{
  Bool, true, false, ◌&&◌, ◌||◌, Option, none, some, List, [], ◌∷◌, ◌++◌, Text, units, Result, ok,
  throw, bind, or_fail, if◌then◌else◌,
}
use distlab.Base.Actions.{Action, ◌>>=◌, ◌>>◌, pure, get, lift}
use distlab.Base.Dicts.{Dict, find, enter, is_some}
use distlab.Contracts.Errors.{invalid_database_operation, constraint_violation}
use distlab.Values.{
  Value, null, str, arr, obj, Items, nil, cons, Fields, field, end, get_field, includes, is_name,
}
use distlab.Canonical.{Raw, canonical_copy, embed}
use distlab.Database.{Database, Host, TableDefinition, event_type}
use distlab.Database.Cells.{Rows, Tables, check_key, row_of, fields_of}
use distlab.Database.Constraints.{constraint}

abbrev invalid {ℓ} : {A : Type ℓ} → Result A
invalid = throw invalid_database_operation

abbrev pub items_of : Option Value → Result Items
items_of (some (arr items)) = ok items
items_of _ = invalid

abbrev pub object_of : Option Value → Result Fields
object_of (some (obj fs)) = ok fs
object_of _ = invalid

-- A text that `name` accepts.
unfoldable pub name_of : Option Value → Result Text
name_of (some (str s)) = if is_name s then ok s else invalid
name_of _ = invalid

unfoldable pub read_names : Items → Result (List Text)
read_names nil = ok []
read_names (cons v items) =
    let rest = read_names items in bind (name_of (some v)) λ s. bind rest λ names. ok (s ∷ names)

-- `new Set(fields).size !== fields.length`
unfoldable pub has_repeat : List Text → Bool
has_repeat [] = false
has_repeat (f ∷ fs) = includes fs f || has_repeat fs

-- One entry of `unique`.
unfoldable pub read_tuple : Value → Result (List Text)
read_tuple (arr nil) = invalid
read_tuple (arr (cons v items)) =
    bind (read_names (cons v items)) λ fields. if has_repeat fields then invalid else ok fields
read_tuple _ = invalid

unfoldable pub read_unique : Items → Result (List (List Text))
read_unique nil = ok []
read_unique (cons v items) =
    let rest = read_unique items in
    bind (read_tuple v) λ fields. bind rest λ more. ok (fields ∷ more)

-- `{ ...initial }[table] ?? {}`
abbrev pub initial_of : Option Value → Result Fields
initial_of none = ok end
initial_of (some null) = ok end
initial_of (some v) = object_of (some v)

unfoldable pub read_rows : Fields → Rows → Result Rows
read_rows end rows = ok rows
read_rows (field key v fs) rows =
    bind (check_key key) λ _. bind (row_of (embed v)) λ row. read_rows fs (enter key row rows)

unfoldable pub read_initial : Dict TableDefinition → Fields → Result Tables
read_initial [] initial = ok []
read_initial ((table, _) ∷ ds) initial =
    let rest = read_initial ds initial in
    bind (initial_of (get_field table initial))
      λ fs. bind (read_rows fs []) λ rows. bind rest λ tables. ok ((table, rows) ∷ tables)

-- `Object.keys(initial)` names defined tables only.
unfoldable pub are_defined : Fields → Dict TableDefinition → Bool
are_defined end ds = true
are_defined (field table _ fs) ds = is_some (find table ds) && are_defined fs ds

-- What the constructor calls of the simulation's setup; `registered` says that an earlier database has
-- registered the schemas there.
pub record Setup (W : Type 0) : Type 0 where
  pub registered : Bool
  pub register_schemas : Action W (Unit {0})
  pub register_handler : Text → Text → Action W (Unit {0})

abbrev pub accept : Option Text → Result (Unit {0})
accept none = ok tt
accept (some _) = throw constraint_violation

-- A database in which nothing has happened.
unfoldable pub fresh : {W : Type 0} → Dict TableDefinition → Tables → W → Database W
fresh ds rows w = record {
  definitions = ds;
  initial = rows;
  committed = rows;
  revision = 0;
  counter = 0;
  epoch = 0;
  transactions = [];
  opened = [];
  pending = [];
  world = w;
}

module _ {W : Type 0} (host : Host W) where
  unfoldable pub are_checks : List Text → Bool
  are_checks [] = true
  are_checks (check ∷ more) = is_some (host.checks check) && are_checks more

  -- One entry of `tables`.
  unfoldable pub read_table : Value → Result TableDefinition
  read_table (obj fs) = bind (name_of (get_field (units "name") fs)) λ table.
      bind (items_of (get_field (units "unique") fs)) λ unique_items.
        bind (items_of (get_field (units "checks") fs)) λ check_items.
          bind (read_unique unique_items) λ unique. bind (read_names check_items) λ checks.
            if are_checks checks
            then ok (record { name = table; unique = unique; checks = checks })
            else invalid
  read_table _ = invalid

  unfoldable pub read_tables : Items → Dict TableDefinition → Result (Dict TableDefinition)
  read_tables nil ds = ok ds
  read_tables (cons v items) ds =
      bind (read_table v) λ d.
        if is_some (find d.name ds) then invalid else read_tables items (ds ++ (d.name, d) ∷ [])

  -- The owner, the tables and their first rows.
  unfoldable pub read_definition : Fields → Result (Text × Dict TableDefinition × Tables)
  read_definition fs = bind (name_of (get_field (units "owner") fs)) λ owner.
      bind (items_of (get_field (units "tables") fs)) λ tables.
        bind (object_of (get_field (units "initial") fs)) λ initial.
          bind (read_tables tables []) λ ds.
            if are_defined initial ds
            then bind (read_initial ds initial) (λ rows. ok (owner, ds, rows))
            else invalid

  -- What the constructor reads and checks before it registers anything.
  unfoldable pub build : Raw → Result (Text × Dict TableDefinition × Tables)
  build raw = bind (or_fail (canonical_copy raw) invalid_database_operation) λ definition.
      bind (fields_of definition) λ fs. bind (read_definition fs) λ (owner, ds, rows).
        bind (constraint host.options ds rows)
          λ violated. bind (accept violated) λ _. ok (owner, ds, rows)

  unfoldable pub create : Setup W → Raw → Action W (Database W)
  create setup raw = do
    (owner, ds, rows) ← lift (build raw)
    if setup.registered then pure tt else setup.register_schemas
    setup.register_handler (event_type owner) owner
    w ← get
    pure (fresh ds rows w)

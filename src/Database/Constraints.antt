-- ===== src/Database/Constraints.antt =====
-- packages/kernel/src/database.ts: `#constraint`, the checks of the rows and of the unique tuples.
use distlab.Base.{
  Bool, true, false, not, ◌&&◌, ◌||◌, Option, none, some, List, [], ◌∷◌, ◌++◌, Text, units, text_eq,
  Result, ok, throw, type_error, bind, if◌then◌else◌,
}
use distlab.Base.Dicts.{Dict, find, is_some}
use distlab.Contracts.Errors.{invalid_database_operation}
use distlab.Values.{arr, Items, nil, cons, get_field}
use distlab.Canonical.Encode.{encode, join}
use distlab.Database.{Options, TableDefinition}
use distlab.Database.Cells.{Row, Rows, Tables}

-- `fields.every(field => Object.hasOwn(row, field))`
unfoldable pub has_fields : List Text → Row → Bool
has_fields [] row = true
has_fields (f ∷ fs) row = is_some (get_field f row) && has_fields fs row

-- `fields.map(field => row[field]!)`, of fields that the row has
unfoldable pub tuple_of : List Text → Row → Items
tuple_of [] row = nil
tuple_of (f ∷ fs) row = elim (get_field f row) [
  | none ↦ tuple_of fs row
  | some v ↦ cons v (tuple_of fs row)
]

-- `${table}.check.${check}`
unfoldable pub check_name : Text → Text → Text
check_name table check = table ++ (units ".check." ++ check)

-- `${table}.unique.${fields.join(",")}`
unfoldable pub unique_name : Text → List Text → Text
unique_name table fields = table ++ (units ".unique." ++ join fields)

-- The answer of a loop: go on, or the constraint that is violated.
abbrev pub Verdict : Type 0
Verdict = Result (Option Text)

abbrev pub or_else : Verdict → Verdict → Verdict
or_else first rest = bind first λ v. elim v [ none ↦ rest | some constraint ↦ ok (some constraint) ]

-- What the loop does of a check's answer.
unfoldable pub judge : Text → Option Bool → Verdict
judge name none = throw invalid_database_operation
judge name (some true) = ok none
judge name (some false) = ok (some name)

-- `this.#checks[check]!(row)`
unfoldable pub ask : Text → Option (Row → Option Bool) → Row → Verdict
ask name none row = throw invalid_database_operation
ask name (some test) row = judge name (test row)

-- The rows of a table; one that is missing is read through.
unfoldable pub rows_in : Text → Tables → Result Rows
rows_in table tables = elim (find table tables) [ none ↦ type_error | some rows ↦ ok rows ]

module _ (options : Options) where
  unfoldable pub run_check : Text → Row → Text → Verdict
  run_check table row check = ask (check_name table check) (options.checks check) row

  unfoldable pub run_checks : Text → Row → List Text → Verdict
  run_checks table row [] = ok none
  run_checks table row (check ∷ more) =
      or_else (run_check table row check) (run_checks table row more)

  unfoldable pub tuple_text : List Text → Row → Text
  tuple_text fields row = encode options.number_text (arr (tuple_of fields row))

  -- Another row with the same tuple.
  unfoldable pub is_clash : List Text → Text → Row → Text × Row → Bool
  is_clash fields key row (other_key, other) =
      not (text_eq other_key key)
      && has_fields fields other
      && text_eq (tuple_text fields other) (tuple_text fields row)

  unfoldable pub clashes : List Text → Text → Row → Rows → Bool
  clashes fields key row [] = false
  clashes fields key row (other ∷ rows) =
      is_clash fields key row other || clashes fields key row rows

  -- One entry of `unique`.
  unfoldable pub run_tuple : Text → Rows → Text → Row → List Text → Verdict
  run_tuple table rows key row fields =
      if not (has_fields fields row) || clashes fields key row rows
      then ok (some (unique_name table fields))
      else ok none

  unfoldable pub run_unique : Text → Rows → Text → Row → List (List Text) → Verdict
  run_unique table rows key row [] = ok none
  run_unique table rows key row (fields ∷ more) =
      or_else (run_tuple table rows key row fields) (run_unique table rows key row more)

  -- One row of a table.
  unfoldable pub run_row : TableDefinition → Text → Rows → Text × Row → Verdict
  run_row definition table rows (key, row) =
      or_else (run_checks table row definition.checks)
        (run_unique table rows key row definition.unique)

  -- The rows that are left; `rows` are all rows of the table.
  unfoldable pub run_rows : TableDefinition → Text → Rows → Rows → Verdict
  run_rows definition table rows [] = ok none
  run_rows definition table rows (r ∷ rest) =
      or_else (run_row definition table rows r) (run_rows definition table rows rest)

  -- `#constraint(tables)`, the definitions that are left.
  unfoldable pub run_table : Tables → Text × TableDefinition → Verdict
  run_table tables (table, definition) =
      bind (rows_in table tables) λ rows. run_rows definition table rows rows

  unfoldable pub constraint : Dict TableDefinition → Tables → Verdict
  constraint [] tables = ok none
  constraint (d ∷ ds) tables = or_else (run_table tables d) (constraint ds tables)

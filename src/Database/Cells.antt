-- ===== src/Database/Cells.antt =====
-- packages/kernel/src/database.ts: the names, the rows and the tables of a database, and the
-- changes that a transaction stages.
use distlab.Base.{
  Bool, true, ◌&&◌, ◌||◌, Option, none, some, List, [], ◌∷◌, Text, text_eq, Result, ok, throw,
  type_error, bind, or_fail, if◌then◌else◌,
}
use distlab.Base.Dicts.{Dict, find, enter, leave, is_some}
use distlab.Contracts.Errors.{invalid_database_operation}
use distlab.Values.{Value, obj, Fields, is_name}
use distlab.Canonical
use distlab.Canonical.{Raw, Props, last, prop, symbol_key, hidden, canonical_copy}
use distlab.Canonical.Encode.{text_leb}

-- `#key(key)`
unfoldable pub check_key : Text → Result (Unit {0})
unfolding is_name
check_key key = if is_name key then ok tt else throw invalid_database_operation

-- `Object.keys(row).some(field => !name(field))`, negated. A copy refuses what is hidden or no text.
unfoldable pub are_names : Props → Bool
unfolding is_name
are_names last = true
are_names (prop k v more) = is_name k && are_names more
are_names (symbol_key more) = are_names more
are_names (hidden k more) = is_name k && are_names more

abbrev pub Row : Type 0
Row = Fields

unfoldable pub fields_of : Value → Result Row
fields_of (obj fs) = ok fs
fields_of _ = throw invalid_database_operation

-- `#row(row)`
unfoldable pub row_of : Raw → Result Row
unfolding are_names fields_of
row_of (Canonical.object i true props) =
    if are_names props
    then bind (or_fail (canonical_copy (Canonical.object i true props)) invalid_database_operation)
        fields_of
    else throw invalid_database_operation
row_of _ = throw invalid_database_operation

abbrev pub Rows : Type 0
Rows = Dict Row

abbrev pub Tables : Type 0
Tables = Dict Rows

-- What stands under a key of a table.
abbrev pub in_rows : Text → Option Rows → Option Row
in_rows key none = none
in_rows key (some rows) = find key rows

unfoldable pub cell : Text → Text → Tables → Option Row
cell table key tables = in_rows key (find table tables)

-- Rows with a row written, or deleted.
abbrev pub put_row : Text → Option Row → Rows → Rows
put_row key none rows = leave key rows
put_row key (some row) rows = enter key row rows

pub record Change : Type 0 where
  pub table : Text
  pub key : Text
  pub before : Option Row
  pub after : Option Row

unfoldable pub is_at : Text → Text → Change → Bool
is_at table key c = text_eq c.table table && text_eq c.key key

-- `writes.get(table)?.get(key)`. The map of maps is one list: only `changes` reads it through, and that
-- sorts.
unfoldable pub find_change : Text → Text → List Change → Option Change
unfolding is_at
find_change table key [] = none
find_change table key (c ∷ cs) = if is_at table key c then some c else find_change table key cs

unfoldable pub put_change : Change → List Change → List Change
unfolding is_at
put_change change [] = change ∷ []
put_change change (c ∷ cs) =
    let later = c ∷ put_change change cs in
    if is_at change.table change.key c then change ∷ cs else later

-- `change.before !== change.after`: a row that is written is a copy of its own, so that only two
-- absent rows are the same.
unfoldable pub is_change : Change → Bool
is_change c = is_some c.before || is_some c.after

unfoldable pub keep_changes : List Change → List Change
unfolding is_change
keep_changes [] = []
keep_changes (c ∷ cs) = let rest = keep_changes cs in if is_change c then c ∷ rest else rest

-- The order of `changes`: by table, then by key.
unfoldable pub comes_first : Change → Change → Bool
unfolding text_leb
comes_first c d = if text_eq c.table d.table then text_leb c.key d.key else text_leb c.table d.table

unfoldable pub insert_change : Change → List Change → List Change
unfolding comes_first
insert_change c [] = c ∷ []
insert_change c (d ∷ ds) =
    let later = d ∷ insert_change c ds in if comes_first c d then c ∷ d ∷ ds else later

unfoldable pub sort_changes : List Change → List Change
unfolding insert_change
sort_changes [] = []
sort_changes (c ∷ cs) = insert_change c (sort_changes cs)

-- `candidate.get(table)!.set(key, after)`, or `delete`
unfoldable pub apply_change : Change → Tables → Result Tables
apply_change c tables = elim (find c.table tables) [
  | none ↦ type_error
  | some rows ↦ ok (enter c.table (put_row c.key c.after rows) tables)
]

unfoldable pub apply_changes : List Change → Tables → Result Tables
unfolding apply_change
apply_changes [] tables = ok tables
apply_changes (c ∷ cs) tables = bind (apply_change c tables) (apply_changes cs)

-- `sorted(rows, entry => entry[0])`
unfoldable pub insert_row {ℓ} : {A : Type ℓ} → Text × A → List (Text × A) → List (Text × A)
unfolding text_leb
insert_row r [] = r ∷ []
insert_row r (q ∷ qs) =
    let later = q ∷ insert_row r qs in if text_leb r.0 q.0 then r ∷ q ∷ qs else later

unfoldable pub sort_rows {ℓ} : {A : Type ℓ} → List (Text × A) → List (Text × A)
unfolding insert_row
sort_rows [] = []
sort_rows (r ∷ rs) = insert_row r (sort_rows rs)

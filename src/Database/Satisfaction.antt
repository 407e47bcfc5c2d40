-- ===== src/Database/Satisfaction.antt =====
-- What it means that `#constraint` finds nothing.
use distlab.Base.{
  ◌≡◌, ◌≢◌, ◌↔◌, refl, sym, ◌∙◌, ap, Bool, true, false, not, ◌&&◌, ◌||◌, Option, none, some, List,
  [], ◌∷◌, Text, text_eq, text_eq_iff, Result, ok, throw, bind, bind-elim, if◌then◌else◌, arith,
}
use distlab.Base.Dicts.{Dict, find}
use distlab.Database.{Options, TableDefinition}
use distlab.Database.Cells.{Row, Rows, Tables}
use distlab.Database.Constraints.{
  Verdict, or_else, judge, ask, check_name, unique_name, rows_in, run_tuple, has_fields, tuple_text,
  run_check, run_checks, is_clash, clashes, run_unique, run_row, run_rows, run_table, constraint,
}

-- Each entry of a list.
abbrev pub All {ℓ} : {A : Type ℓ} → (A → Type 0) → List A → Type 0
All P [] = Unit
All P (x ∷ xs) = P x × All P xs

or_false : (a b : Bool) → (a || b) ≡ false → (a ≡ false) × (b ≡ false)
or_false a b h = ground arith

false_or : (a b : Bool) → a ≡ false → b ≡ false → (a || b) ≡ false
false_or a b h k = ground arith

clash-apart : (a h e : Bool) → ((not a && h && e) ≡ false) ↔ (a ≡ false → h ≡ true → e ≡ false)
clash-apart true h e = (λ _ k. absurd (cc), λ _. refl)
clash-apart false true true = (λ h. absurd (cc), λ f. f refl refl)
clash-apart false true false = (λ _ _ _. refl, λ _. refl)
clash-apart false false e = (λ _ _ k. absurd (cc), λ _. refl)

refuse-none :
    (h c : Bool) (name : Text)
    → (let v : Verdict = if not h || c then ok (some name) else ok none in v ≡ ok none)
      ↔ ((h ≡ true) × (c ≡ false))
refuse-none true true name = (λ e. absurd (cc), λ p. absurd (let q = p.1 in cc))
refuse-none true false name = (λ _. (refl, refl), λ _. refl)
refuse-none false c name = (λ e. absurd (cc), λ p. absurd (let q = p.0 in cc))

differ : {b : Bool} {P : Type 0} → ((b ≡ true) ↔ P) → ¬ P → b ≡ false
differ {b = false} k n = refl
differ {b = true} k n = absurd (n (k.0 refl))

rows_in-found :
    (table : Text) (tables : Tables) (rows : Rows)
    → (rows_in table tables ≡ ok rows) ↔ (find table tables ≡ some rows)
unfolding rows_in
rows_in-found table tables rows = (λ h. ground arith, λ h. ground arith)

-- A loop over the entries of a list, whose verdicts are read in turn.
abbrev run_all {ℓ} : {A : Type ℓ} → (A → Verdict) → List A → Verdict
run_all run [] = ok none
run_all run (x ∷ xs) = or_else (run x) (run_all run xs)

or_else-none : (a b : Verdict) → (or_else a b ≡ ok none) ↔ ((a ≡ ok none) × (b ≡ ok none))
or_else-none (ok none) b = (λ h. (refl, h), λ h. h.1)
or_else-none (ok (some name)) b = (λ h. absurd (cc), λ h. absurd (let e = h.0 in cc))
or_else-none (throw e) b = (λ h. absurd (cc), λ h. absurd (let e = h.0 in cc))
or_else-none Result.type_error b = (λ h. absurd (cc), λ h. absurd (let e = h.0 in cc))

run_all-none {ℓ} :
    {A : Type ℓ} (P : A → Type 0) (run : A → Verdict) (xs : List A)
    → ((x : A) → (run x ≡ ok none) ↔ P x)
    → (run_all run xs ≡ ok none) ↔ All P xs
run_all-none P run [] h = (λ _. tt, λ _. refl)
run_all-none P run (x ∷ xs) h =
    let both = or_else-none (run x) (run_all run xs) in
    let rest = run_all-none P run xs h in
    (λ e. let (a, b) = both.0 e in ((h x).0 a, rest.0 b), λ p. both.1 ((h x).1 p.0, rest.1 p.1))

judge-none :
    (name : Text) (answer : Option Bool) → (judge name answer ≡ ok none) ↔ (answer ≡ some true)
unfolding judge
judge-none name none = (λ h. absurd (cc), λ h. absurd (cc))
judge-none name (some true) = (λ _. refl, λ _. refl)
judge-none name (some false) = (λ h. absurd (cc), λ h. absurd (cc))

module _ (options : Options) where
  -- The check of that name accepts the row.
  pub Passes : Row → Text → Type 0
  Passes row check =
      (test : Row → Option Bool) × (options.checks check ≡ some test) × (test row ≡ some true)

  -- The row has the fields, and no row under another key has the same values in them.
  pub record IsUnique (rows : Rows) (key : Text) (row : Row) (fields : List Text) : Type 0 where
    pub complete : has_fields fields row ≡ true
    pub distinct :
        All
          (λ (other : Text × Row).
            other.0 ≢ key
            → has_fields fields other.1 ≡ true
            → tuple_text options fields other.1 ≢ tuple_text options fields row)
          rows

  pub record RowSatisfies (definition : TableDefinition) (rows : Rows) (entry : Text × Row)
      : Type 0 where
    pub passes : All (Passes entry.1) definition.checks
    pub unique : All (IsUnique rows entry.0 entry.1) definition.unique

  -- The table is there, and each row satisfies its definition.
  pub TableSatisfies : Tables → Text × TableDefinition → Type 0
  TableSatisfies tables d =
      (rows : Rows) × (find d.0 tables ≡ some rows) × All (RowSatisfies d.1 rows) rows

  ask-none :
      (name : Text) (asked : Option (Row → Option Bool)) (row : Row)
      → (ask name asked row ≡ ok none)
        ↔ ((test : Row → Option Bool) × (asked ≡ some test) × (test row ≡ some true))
  unfolding ask
  ask-none name none row = (λ h. absurd (cc), λ h. absurd (let e = h.1 in cc))
  ask-none name (some test) row = (
    λ h. (test, refl, (judge-none name (test row)).0 h),
    λ (t, e, p).
        (judge-none name (test row)).1
          (ap (λ (f : Row → Option Bool). f row) (let q : test ≡ t = cc in q) ∙ p),
  )

  run_check-none :
      (table check : Text) (row : Row)
      → (run_check options table row check ≡ ok none) ↔ Passes row check
  unfolding run_check Passes
  run_check-none table check row = ask-none (check_name table check) (options.checks check) row

  run_checks-all :
      (table : Text) (row : Row) (checks : List Text)
      → run_checks options table row checks ≡ run_all (run_check options table row) checks
  unfolding run_checks
  run_checks-all table row [] = refl
  run_checks-all table row (c ∷ cs) =
      ap (or_else (run_check options table row c)) (run_checks-all table row cs)

  is_clash-none :
      (fields : List Text) (key : Text) (row : Row) (other : Text × Row)
      → (is_clash options fields key row other ≡ false) ↔ (
          other.0 ≢ key
          → has_fields fields other.1 ≡ true
          → tuple_text options fields other.1 ≢ tuple_text options fields row)
  unfolding is_clash
  is_clash-none fields key row (other_key, other) =
      let keys = text_eq_iff other_key key in
      let texts = text_eq_iff (tuple_text options fields other) (tuple_text options fields row) in
      let apart =
        clash-apart (text_eq other_key key) (has_fields fields other)
          (text_eq (tuple_text options fields other) (tuple_text options fields row)) in
      (
        λ h ne has same. absurd (cc (apart.0 h (differ keys ne) has, texts.1 same)),
        λ f. apart.1 (λ k has. differ texts (f (λ e. absurd (cc (keys.1 e, k))) has)),
      )

  clashes-none :
      (fields : List Text) (key : Text) (row : Row) (rows : Rows)
      → (clashes options fields key row rows ≡ false)
        ↔ All
            (λ (other : Text × Row).
              other.0 ≢ key
              → has_fields fields other.1 ≡ true
              → tuple_text options fields other.1 ≢ tuple_text options fields row)
            rows
  unfolding clashes is_clash
  clashes-none fields key row [] = (λ _. tt, λ _. refl)
  clashes-none fields key row (other ∷ rows) =
      let rest = clashes-none fields key row rows in
      let one = is_clash-none fields key row other in
      (
        λ h. (one.0 (or_false _ _ h).0, rest.0 (or_false _ _ h).1),
        λ (p, q). false_or _ _ (one.1 p) (rest.1 q),
      )

  run_tuple-none :
      (table key : Text) (row : Row) (rows : Rows) (fields : List Text)
      → (run_tuple options table rows key row fields ≡ ok none) ↔ IsUnique rows key row fields
  unfolding run_tuple
  run_tuple-none table key row rows fields =
      let split =
        refuse-none (has_fields fields row) (clashes options fields key row rows)
          (unique_name table fields) in
      let free = clashes-none fields key row rows in
      (
        λ h. let (a, b) = split.0 h in record { complete = a; distinct = free.0 b },
        λ u. split.1 (u.complete, free.1 u.distinct),
      )

  run_unique-all :
      (table key : Text) (row : Row) (rows : Rows) (unique : List (List Text))
      → run_unique options table rows key row unique
        ≡ run_all (run_tuple options table rows key row) unique
  unfolding run_unique
  run_unique-all table key row rows [] = refl
  run_unique-all table key row rows (f ∷ fs) =
      ap (or_else (run_tuple options table rows key row f)) (run_unique-all table key row rows fs)

  run_row-none :
      (definition : TableDefinition) (table : Text) (rows : Rows) (entry : Text × Row)
      → (run_row options definition table rows entry ≡ ok none) ↔ RowSatisfies definition rows entry
  unfolding run_row
  run_row-none definition table rows (key, row) =
      let both =
        or_else-none (run_checks options table row definition.checks)
          (run_unique options table rows key row definition.unique) in
      let first =
        run_all-none (Passes row) (run_check options table row) definition.checks
          λ check. run_check-none table check row in
      let second =
        run_all-none (IsUnique rows key row) (run_tuple options table rows key row)
          definition.unique λ fields. run_tuple-none table key row rows fields in
      let one = run_checks-all table row definition.checks in
      let two = run_unique-all table key row rows definition.unique in
      (
        λ h.
            let (a, b) = both.0 h in
            record { passes = first.0 (sym one ∙ a); unique = second.0 (sym two ∙ b) },
        λ p. both.1 (one ∙ first.1 p.passes, two ∙ second.1 p.unique),
      )

  run_rows-all :
      (definition : TableDefinition) (table : Text) (rows rest : Rows)
      → run_rows options definition table rows rest
        ≡ run_all (run_row options definition table rows) rest
  unfolding run_rows
  run_rows-all definition table rows [] = refl
  run_rows-all definition table rows (r ∷ rest) =
      ap (or_else (run_row options definition table rows r))
        (run_rows-all definition table rows rest)

  run_table-none :
      (tables : Tables) (d : Text × TableDefinition)
      → (run_table options tables d ≡ ok none) ↔ TableSatisfies tables d
  unfolding run_table TableSatisfies
  run_table-none tables (table, definition) =
      let each = λ (rows : Rows).
        run_all-none (RowSatisfies definition rows) (run_row options definition table rows) rows
          (run_row-none definition table rows) in
      (
        λ h. bind-elim (rows_in table tables) _ h λ rows e k. (
          rows,
          (rows_in-found table tables rows).0 e,
          (each rows).0 (sym (run_rows-all definition table rows rows) ∙ k),
        ),
        λ (rows, e, p).
            ap (λ (r : Result Rows). bind r (λ x. run_rows options definition table x x))
              ((rows_in-found table tables rows).1 e)
            ∙ run_rows-all definition table rows rows
            ∙ (each rows).1 p,
      )

  constraint-all :
      (ds : Dict TableDefinition) (tables : Tables)
      → constraint options ds tables ≡ run_all (run_table options tables) ds
  unfolding constraint
  constraint-all [] tables = refl
  constraint-all (d ∷ ds) tables =
      ap (or_else (run_table options tables d)) (constraint-all ds tables)

  -- The search for a violated constraint finds nothing exactly if every defined table is there,
  -- each of its rows passes every check of the table, has the fields of every unique tuple, and
  -- shares the values in them with no row under another key.
  pub constraint-Satisfies :
      (ds : Dict TableDefinition) (tables : Tables)
      → (constraint options ds tables ≡ ok none) ↔ All (TableSatisfies tables) ds
  constraint-Satisfies ds tables =
      let all =
        run_all-none (TableSatisfies tables) (run_table options tables) ds
          (run_table-none tables) in
      let e = constraint-all ds tables in (λ h. all.0 (sym e ∙ h), λ p. e ∙ all.1 p)

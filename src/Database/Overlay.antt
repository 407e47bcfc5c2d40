-- ===== src/Database/Overlay.antt =====
-- The cells of a table after writes: `apply_changes` against a map from cells to rows.
use distlab.Base.{
  ◌≡◌, refl, sym, ap, ◌∙◌, inl, inr, true, false, ◌&&◌, Option, none, some, List, [], ◌∷◌, Text,
  text_eq, text_eq_iff, Bool-cases, Option-cases, if_true, if_false, bind, bind-eq-ok, ok,
  type_error, Result, if◌then◌else◌, arith,
}
use distlab.Base.Dicts.{Dict, find, enter, is_some, find-enter, find-leave}
use distlab.Database.{TableDefinition}
use distlab.Database.Cells.{
  Row, Rows, Tables, Change, cell, put_row, is_at, find_change, put_change, is_change, keep_changes,
  insert_change, sort_changes, comes_first, apply_change, apply_changes,
}

pub find-put_row :
    (key other : Text) (after : Option Row) (rows : Rows)
    → find other (put_row key after rows) ≡ (if text_eq key other then after else find other rows)
find-put_row key other none rows = find-leave key other rows
find-put_row key other (some row) rows = find-enter key other row rows

-- A write to a row of a table that is there changes that cell and no other.
pub cell-enter :
    (table key t k : Text) (after : Option Row) (rows : Rows) (tables : Tables)
    → find table tables ≡ some rows
    → cell t k (enter table (put_row key after rows) tables)
      ≡ (if text_eq table t && text_eq key k then after else cell t k tables)
unfolding cell
cell-enter table key t k after rows tables here =
    rw (find-enter table t (put_row key after rows) tables) (elim (Bool-cases (text_eq table t)) [
      | inl same ↦
          let e : table ≡ t = (text_eq_iff table t).0 same in
          rw same (rw (← e, here, find-put_row key k after rows) (ground arith))
      | inr other ↦ rw other refl
    ])

abbrev pub after_of : Option Change → Option Row → Option Row
after_of none old = old
after_of (some c) old = c.after

pub find_change-put_change :
    (c : Change) (t k : Text) (cs : List Change)
    → find_change t k (put_change c cs) ≡ (if is_at t k c then some c else find_change t k cs)
unfolding find_change put_change is_at
find_change-put_change c t k [] = refl
find_change-put_change c t k (d ∷ cs) = ground (
  arith,
  text_eq_iff c.table t,
  text_eq_iff c.key k,
  text_eq_iff d.table t,
  text_eq_iff d.key k,
  text_eq_iff d.table c.table,
  text_eq_iff d.key c.key,
  find_change-put_change c t k cs,
)

-- No two changes of one cell.
abbrev pub IsDistinct : List Change → Type 0
IsDistinct [] = Unit
IsDistinct (c ∷ cs) = (find_change c.table c.key cs ≡ none) × IsDistinct cs

pub is_at→eq : (t k : Text) (c : Change) → is_at t k c ≡ true → (c.table ≡ t) × (c.key ≡ k)
unfolding is_at
is_at→eq t k c h = ground (arith, text_eq_iff c.table t, text_eq_iff c.key k)

pub is_at_self : (c : Change) → is_at c.table c.key c ≡ true
unfolding is_at
is_at_self c = ground (arith, text_eq_iff c.table c.table, text_eq_iff c.key c.key)

pub is_at_flip : (c d : Change) → is_at c.table c.key d ≡ false → is_at d.table d.key c ≡ false
unfolding is_at
is_at_flip c d h = ground (
  arith,
  text_eq_iff c.table d.table,
  text_eq_iff c.key d.key,
  text_eq_iff d.table c.table,
  text_eq_iff d.key c.key,
)

pub put_change-IsDistinct :
    (c : Change) (cs : List Change) → IsDistinct cs → IsDistinct (put_change c cs)
unfolding put_change find_change
put_change-IsDistinct c [] h = (refl, tt)
put_change-IsDistinct c (d ∷ cs) h = elim (Bool-cases (is_at c.table c.key d)) [
  | inl same ↦ let (e, f) = is_at→eq c.table c.key d same in rw same (rw (← e, ← f) h.0, h.1)
  | inr other ↦ rw other (
    find_change-put_change c d.table d.key cs ∙ rw (is_at_flip c d other) h.0,
    put_change-IsDistinct c cs h.1,
  )
]

-- A change that is left out makes no cell other than another one.
pub find_change-keep_changes :
    (t k : Text) (cs : List Change)
    → find_change t k cs ≡ none
    → find_change t k (keep_changes cs) ≡ none
unfolding find_change keep_changes
find_change-keep_changes t k [] h = refl
find_change-keep_changes t k (c ∷ cs) h = ground (arith, find_change-keep_changes t k cs)

pub keep_changes-IsDistinct : (cs : List Change) → IsDistinct cs → IsDistinct (keep_changes cs)
unfolding keep_changes
keep_changes-IsDistinct [] h = tt
keep_changes-IsDistinct (c ∷ cs) h = elim (Bool-cases (is_change c)) [
  | inl kept ↦
      rw kept (find_change-keep_changes c.table c.key cs h.0, keep_changes-IsDistinct cs h.1)
  | inr left ↦ rw left (keep_changes-IsDistinct cs h.1)
]

pub find_change-insert_change :
    (c : Change) (t k : Text) (cs : List Change)
    → find_change c.table c.key cs ≡ none
    → find_change t k (insert_change c cs) ≡ find_change t k (c ∷ cs)
unfolding find_change insert_change is_at
find_change-insert_change c t k [] h = refl
find_change-insert_change c t k (d ∷ cs) h = ground (
  arith,
  text_eq_iff c.table t,
  text_eq_iff c.key k,
  text_eq_iff d.table t,
  text_eq_iff d.key k,
  text_eq_iff d.table c.table,
  text_eq_iff d.key c.key,
  find_change-insert_change c t k cs,
)

absent :
    (t k : Text) (c : Change) (cs : List Change)
    → find_change t k (c ∷ cs) ≡ none
    → (is_at t k c ≡ false) × (find_change t k cs ≡ none)
unfolding find_change
absent t k c cs h = ground arith

present :
    (t k : Text) (c : Change) (cs : List Change)
    → is_at t k c ≡ false
    → find_change t k cs ≡ none
    → find_change t k (c ∷ cs) ≡ none
unfolding find_change
present t k c cs h g = ground arith

insert_change-IsDistinct :
    (c : Change) (cs : List Change) → IsDistinct (c ∷ cs) → IsDistinct (insert_change c cs)
unfolding insert_change
insert_change-IsDistinct c [] h = h
insert_change-IsDistinct c (d ∷ cs) h = elim (Bool-cases (comes_first c d)) [
  | inl first ↦ rw first h
  | inr later ↦
      let (other, new) = absent c.table c.key d cs h.0 in
      rw later (
        find_change-insert_change c d.table d.key cs new
            ∙ present d.table d.key c cs (is_at_flip c d other) h.1.0,
        insert_change-IsDistinct c cs (new, h.1.1),
      )
]

pub find_change-sort_changes :
    (t k : Text) (cs : List Change)
    → IsDistinct cs
    → find_change t k (sort_changes cs) ≡ find_change t k cs
unfolding find_change sort_changes
find_change-sort_changes t k [] h = refl
find_change-sort_changes t k (c ∷ cs) h =
    find_change-insert_change c t k (sort_changes cs)
      (find_change-sort_changes c.table c.key cs h.1 ∙ h.0)
    ∙ ap (λ (o : Option Change). if is_at t k c then some c else o)
        (find_change-sort_changes t k cs h.1)

pub sort_changes-IsDistinct : (cs : List Change) → IsDistinct cs → IsDistinct (sort_changes cs)
unfolding sort_changes
sort_changes-IsDistinct [] h = tt
sort_changes-IsDistinct (c ∷ cs) h =
    insert_change-IsDistinct c (sort_changes cs)
      (find_change-sort_changes c.table c.key cs h.1 ∙ h.0, sort_changes-IsDistinct cs h.1)

-- The change of a cell, if it is one of those that are kept.
abbrev pub kept : Option Change → Option Change
kept none = none
kept (some c) = if is_change c then some c else none

pub find_change-kept :
    (t k : Text) (cs : List Change)
    → IsDistinct cs
    → find_change t k (keep_changes cs) ≡ kept (find_change t k cs)
unfolding find_change keep_changes
find_change-kept t k [] h = refl
find_change-kept t k (c ∷ cs) h = elim (Bool-cases (is_at t k c)) [
  | inl here ↦
      let (e, f) = is_at→eq t k c here in
      let gone = find_change-keep_changes t k cs (rw (e, f) at h.0) in ground (arith, gone)
  | inr other ↦ ground (arith, find_change-kept t k cs h.1)
]

apply_change-found :
    (c : Change) (tables : Tables) {rows : Rows}
    → find c.table tables ≡ some rows
    → apply_change c tables ≡ ok (enter c.table (put_row c.key c.after rows) tables)
unfolding apply_change enter
apply_change-found c tables e = rw (e, apply_change) refl

apply_change-missing :
    (c : Change) (tables : Tables) → find c.table tables ≡ none → apply_change c tables ≡ type_error
unfolding apply_change
apply_change-missing c tables e = rw (e, apply_change) refl

apply_change-eq-ok :
    (c : Change) (tables : Tables) {next : Tables}
    → apply_change c tables ≡ ok next
    → (rows : Rows) × (find c.table tables ≡ some rows)
      × (next ≡ enter c.table (put_row c.key c.after rows) tables)
apply_change-eq-ok c tables h = elim (Option-cases (find c.table tables)) [
  | inl e ↦ absurd (cc (apply_change-missing c tables e))
  | inr (rows, e) ↦ (rows, e, cc (apply_change-found c tables e))
]

-- Changes of distinct cells that are applied change just those cells.
pub apply_changes-cell :
    (cs : List Change) (tables : Tables) {result : Tables} (t k : Text)
    → IsDistinct cs
    → apply_changes cs tables ≡ ok result
    → cell t k result ≡ after_of (find_change t k cs) (cell t k tables)
unfolding apply_changes find_change
apply_changes-cell [] tables t k d h = ap (cell t k) (cc)
apply_changes-cell (c ∷ cs) tables {result} t k d h =
    let (next, e, h') = bind-eq-ok (apply_change c tables) (apply_changes cs) h in
    let (rows, here, f) = apply_change-eq-ok c tables e in
    let rest = apply_changes-cell cs next t k d.1 h' in
    let first = ap (cell t k) f ∙ cell-enter c.table c.key t k c.after rows tables here in
    elim (Bool-cases (is_at t k c)) [
      | inl same ↦
          let (p, q) = is_at→eq t k c same in
          let gone : find_change t k cs ≡ none = rw (p, q) at d.0 in
          rw same
            (rest ∙ rw gone (first ∙ if_true c.after (cell t k tables) (unfold is_at in same)))
      | inr other ↦ rw other (
          rest
          ∙ ap (after_of (find_change t k cs))
              (first ∙ if_false c.after (cell t k tables) (unfold is_at in other)))
    ]

-- The tables of a database: those that are defined.
abbrev pub IsShaped : Dict TableDefinition → Tables → Type 0
IsShaped ds tables = (t : Text) → is_some (find t tables) ≡ is_some (find t ds)

pub enter-IsShaped :
    (ds : Dict TableDefinition) (table : Text) (rows : Rows) (tables : Tables)
    → is_some (find table tables) ≡ true
    → IsShaped ds tables
    → IsShaped ds (enter table rows tables)
enter-IsShaped ds table rows tables here h = λ t.
    rw (find-enter table t rows tables) (elim (Bool-cases (text_eq table t)) [
      | inl same ↦
          let e = (text_eq_iff table t).0 same in
          rw same (sym (sym (h t) ∙ ap (λ (x : Text). is_some (find x tables)) (sym e) ∙ here))
      | inr other ↦ rw other (h t)
    ])

-- Each change is of a defined table.
abbrev pub AreDefined : Dict TableDefinition → List Change → Type 0
AreDefined ds [] = Unit
AreDefined ds (c ∷ cs) = (is_some (find c.table ds) ≡ true) × AreDefined ds cs

pub put_change-AreDefined :
    (ds : Dict TableDefinition) (c : Change) (cs : List Change)
    → is_some (find c.table ds) ≡ true
    → AreDefined ds cs
    → AreDefined ds (put_change c cs)
unfolding put_change
put_change-AreDefined ds c [] h d = (h, tt)
put_change-AreDefined ds c (x ∷ cs) h d = elim (Bool-cases (is_at c.table c.key x)) [
  | inl same ↦ rw same (h, d.1)
  | inr other ↦ rw other (d.0, put_change-AreDefined ds c cs h d.1)
]

insert_change-AreDefined :
    (ds : Dict TableDefinition) (c : Change) (cs : List Change)
    → AreDefined ds (c ∷ cs)
    → AreDefined ds (insert_change c cs)
unfolding insert_change
insert_change-AreDefined ds c [] d = d
insert_change-AreDefined ds c (x ∷ cs) d = elim (Bool-cases (comes_first c x)) [
  | inl first ↦ rw first d
  | inr later ↦ rw later (d.1.0, insert_change-AreDefined ds c cs (d.0, d.1.1))
]

-- Those that are kept, in their order.
pub sorted-AreDefined :
    (ds : Dict TableDefinition) (cs : List Change)
    → AreDefined ds cs
    → AreDefined ds (sort_changes (keep_changes cs))
unfolding sort_changes keep_changes
sorted-AreDefined ds [] d = tt
sorted-AreDefined ds (c ∷ cs) d = elim (Bool-cases (is_change c)) [
  | inl stays ↦ rw stays (
      insert_change-AreDefined ds c (sort_changes (keep_changes cs))
        (d.0, sorted-AreDefined ds cs d.1))
  | inr left ↦ rw left (sorted-AreDefined ds cs d.1)
]

-- Changes of defined tables can be applied, and keep the tables.
pub apply_changes_total :
    (ds : Dict TableDefinition) (cs : List Change) (tables : Tables)
    → IsShaped ds tables
    → AreDefined ds cs
    → (result : Tables) × (apply_changes cs tables ≡ ok result) × IsShaped ds result
unfolding apply_changes
apply_changes_total ds [] tables s d = (tables, refl, s)
apply_changes_total ds (c ∷ cs) tables s d = elim (Option-cases (find c.table tables)) [
  | inl missing ↦ absurd (let e : false ≡ true = ap is_some (sym missing) ∙ s c.table ∙ d.0 in cc)
  | inr (rows, here) ↦
      let next = enter c.table (put_row c.key c.after rows) tables in
      let (result, e, s') =
        apply_changes_total ds cs next
          (enter-IsShaped ds c.table (put_row c.key c.after rows) tables (ap is_some here) s) d.1 in
      let first = apply_change-found c tables here in
      (result, ap (λ (r : Result Tables). bind r (apply_changes cs)) first ∙ e, s')
]

-- ===== src/Database/Reach.antt =====
-- Every database that calls lead to, from a new one on.
use mathlib.Core.Path.{subst}
use distlab.Base.{
  ℕ, ◌≡◌, refl, sym, ◌∙◌, ap, inl, inr, Option, none, some, [], ◌∷◌, Text, text_eq, Result, ok,
  throw, units, bind, bind-eq-ok, bind-elim, or_fail, Bool-cases, if◌then◌else◌,
}
use distlab.Base.Actions.{pure, lift-elim, chain-elim}
use distlab.Base.Dicts.{Dict, find, is_some}
use distlab.Contracts.Errors.{invalid_database_operation}
use distlab.Contracts.Events.{ScheduledEvent}
use distlab.Contracts.Observation.{ObservationSink}
use distlab.Values.{Fields, get_field}
use distlab.Canonical.{Raw, canonical_copy}
use distlab.Database.{event_type, Options, Database, Host, TableDefinition}
use distlab.Database.Cells.{Tables, fields_of}
use distlab.Database.Constraints.{constraint}
use distlab.Database.Transactions.{
  get_row, scan, insert, update, delete, begin, submit, rollback, cleanup, abandon_generation,
  reset,
}
use distlab.Database.Commit.{dispatch}
use distlab.Database.Create.{
  Setup, build, fresh, create, read_definition, read_tables, read_initial, read_rows, are_defined,
  initial_of, name_of, items_of, object_of, accept,
}
use distlab.Database.Overlay.{IsShaped}
use distlab.Database.Consistency.{IsConsistent}
use distlab.Database.Consistency.Calls.{
  get_row-keeps, scan-keeps, insert-keeps, update-keeps, delete-keeps,
}
use distlab.Database.Consistency.Lifetimes.{
  begin-keeps, submit-keeps, rollback-keeps, cleanup-keeps, abandon_generation-keeps, reset-keeps,
}
use distlab.Database.Consistency.Commits.{dispatch-keeps}

-- A call of a transaction, by its place, or of the database.
pub data Invocation (W : Type 0) : Type 0 where
  begins : Invocation W
  reads : ℕ → Text → Text → Invocation W
  scans : ℕ → Text → Invocation W
  inserts : ℕ → Text → Text → Raw → Invocation W
  updates : ℕ → Text → Text → Raw → Invocation W
  deletes : ℕ → Text → Text → Invocation W
  submits : ℕ → Invocation W
  rolls_back : ℕ → Invocation W
  cleans : ℕ → Invocation W
  abandons : ℕ → Invocation W
  dispatches : ObservationSink W → ScheduledEvent → Text → Invocation W
  resets : Invocation W

module _ {W : Type 0} where
  -- What a call leaves, whatever it returns or throws.
  unfoldable pub after : Host W → Invocation W → Database W → Database W
  after host begins db = (begin host db).1
  after host (reads place table key) db = (get_row host place table key db).1
  after host (scans place table) db = (scan host place table db).1
  after host (inserts place table key row) db = (insert host place table key row db).1
  after host (updates place table key row) db = (update host place table key row db).1
  after host (deletes place table key) db = (delete host place table key db).1
  after host (submits place) db = (submit host place db).1
  after host (rolls_back place) db = (rollback host place db).1
  after host (cleans place) db = (cleanup host place db).1
  after host (abandons generation) db = (abandon_generation host generation db).1
  after host (dispatches sink event id) db = (dispatch host sink event id db).1
  after host resets db = reset db

  after-keeps :
      (host : Host W) (call : Invocation W) (db : Database W)
      → IsConsistent host.options db
      → IsConsistent host.options (after host call db)
  unfolding after
  after-keeps host begins db h = begin-keeps host db h
  after-keeps host (reads place table key) db h = get_row-keeps host place table key db h
  after-keeps host (scans place table) db h = scan-keeps host place table db h
  after-keeps host (inserts place table key row) db h = insert-keeps host place table key row db h
  after-keeps host (updates place table key row) db h = update-keeps host place table key row db h
  after-keeps host (deletes place table key) db h = delete-keeps host place table key db h
  after-keeps host (submits place) db h = submit-keeps host place db h
  after-keeps host (rolls_back place) db h = rollback-keeps host place db h
  after-keeps host (cleans place) db h = cleanup-keeps host place db h
  after-keeps host (abandons generation) db h = abandon_generation-keeps host generation db h
  after-keeps host (dispatches sink event id) db h = dispatch-keeps host sink event id db h
  after-keeps host resets db h = reset-keeps host db h

  -- Calls in any order; at each the simulation shows a task, an event and ports of its own.
  pub data Reach (options : Options) (db : Database W) : Database W → Type 0 where
    here : Reach options db db
    next :
        {t : Database W}
        → Reach options db t
        → (host : Host W) → host.options ≡ options
        → (call : Invocation W) → Reach options db (after host call t)

  reached :
      (options : Options) (db : Database W) {t : Database W}
      → IsConsistent options db
      → Reach options db t
      → IsConsistent options t
  reached options db h here = h
  reached options db h (next {t = t} r host e call) =
      subst (λ (o : Options). IsConsistent o (after host call t)) e
        (after-keeps host call t
          (subst (λ (o : Options). IsConsistent o t) (sym e) (reached options db h r)))

read_initial-IsShaped :
    (ds : Dict TableDefinition) (initial : Fields) {tables : Tables}
    → read_initial ds initial ≡ ok tables
    → IsShaped ds tables
unfolding read_initial find
read_initial-IsShaped [] initial h =
    λ t. ap (λ (x : Tables). is_some (find t x)) (let e : _ ≡ [] = cc in e)
read_initial-IsShaped ((table, d) ∷ ds) initial h = λ t.
    let (fs, _, h₁) = bind-eq-ok (initial_of (get_field table initial)) _ h in
    let (rows, _, h₂) = bind-eq-ok (read_rows fs []) _ h₁ in
    let (rest, e, h₃) = bind-eq-ok (read_initial ds initial) _ h₂ in
    let known = read_initial-IsShaped ds initial e t in
    let all : (table, rows) ∷ rest ≡ _ = cc in
    ap (λ (x : Tables). is_some (find t x)) (sym all)
    ∙ elim (Bool-cases (text_eq table t)) [ inl e' ↦ rw e' refl | inr e' ↦ rw e' known ]

parts :
    {o o' : Text} {ds ds' : Dict TableDefinition} {rows rows' : Tables}
    → ◌≡◌ {A = Result (Text × Dict TableDefinition × Tables)}
        (ok (o, ds, rows))
        (ok (o', ds', rows'))
    → (ds ≡ ds') × (rows ≡ rows')
parts e = (cc, cc)

accept-none : (violated : Option Text) {u : Unit {0}} → accept violated ≡ ok u → violated ≡ none
accept-none none h = refl
accept-none (some name) h = cc

module _ {W : Type 0} (host : Host W) where
  read_definition-IsShaped :
      (fs : Fields) {owner : Text} {ds : Dict TableDefinition} {rows : Tables}
      → read_definition host fs ≡ ok (owner, ds, rows)
      → IsShaped ds rows
  unfolding read_definition
  read_definition-IsShaped fs {owner} {ds} {rows} h =
      bind-elim (name_of (get_field (units "owner") fs)) _ h λ name _ h₁.
        bind-elim (items_of (get_field (units "tables") fs)) _ h₁ λ tables _ h₂.
          bind-elim (object_of (get_field (units "initial") fs)) _ h₂ λ initial _ h₃.
            bind-elim (read_tables host tables []) _ h₃ λ ds' _ h₄. rows_read name ds' initial h₄
    where
      rows_read :
          (name : Text) (ds' : Dict TableDefinition) (initial : Fields)
          → (if are_defined initial ds'
              then bind {B = Text × Dict TableDefinition × Tables}
                  (read_initial ds' initial)
                  (λ rows. ok (name, ds', rows))
              else throw invalid_database_operation)
            ≡ ok (owner, ds, rows)
          → IsShaped ds rows
      rows_read name ds' initial k = elim (Bool-cases (are_defined initial ds')) [
        | inl defined ↦ bind-elim (read_initial ds' initial) _ (rw defined at k) λ rows' first last.
            let (e, f) = parts last in
            subst (λ (x : Dict TableDefinition). IsShaped x rows) e
              (subst (IsShaped ds') f (read_initial-IsShaped ds' initial first))
        | inr not_defined ↦ absurd (let e = rw not_defined at k in cc)
      ]

  build-checked :
      (raw : Raw) {owner : Text} {ds : Dict TableDefinition} {rows : Tables}
      → build host raw ≡ ok (owner, ds, rows)
      → IsShaped ds rows × (constraint host.options ds rows ≡ ok none)
  unfolding build
  build-checked raw {owner} {ds} {rows} h =
      bind-elim (or_fail (canonical_copy raw) invalid_database_operation) _ h λ definition _ h₁.
        bind-elim (fields_of definition) _ h₁ λ fs _ h₂.
          bind-elim (read_definition host fs) _ h₂ λ (owner', ds', rows') read h₃.
            bind-elim (constraint host.options ds' rows') _ h₃ λ violated checked h₄.
              bind-elim (accept violated) _ h₄ λ _ accepted h₅.
                let clean : constraint host.options ds' rows' ≡ ok none =
                  checked ∙ ap (λ (o : Option Text). ok o) (accept-none violated accepted) in
                let (e, f) = parts h₅ in
                subst
                  (λ (x : Dict TableDefinition).
                    IsShaped x rows × (constraint host.options x rows ≡ ok none))
                  e
                  (subst
                    (λ (x : Tables). IsShaped ds' x × (constraint host.options ds' x ≡ ok none)) f
                    (read_definition-IsShaped fs read, clean))

  fresh-IsConsistent :
      (ds : Dict TableDefinition) (rows : Tables) (w : W)
      → IsShaped ds rows
      → constraint host.options ds rows ≡ ok none
      → IsConsistent host.options (fresh ds rows w)
  unfolding fresh
  fresh-IsConsistent ds rows w shaped checked = record {
    holds = record {
      first_shaped = shaped;
      first_satisfied = checked;
      shaped = shaped;
      satisfied = checked;
      each = λ i tx e. absurd (cc);
      waiting = tt;
    };
  }

  create-IsConsistent :
      (setup : Setup W) (definition : Raw) (w w' : W) {db : Database W}
      → create host setup definition w ≡ (ok db, w')
      → IsConsistent host.options db
  unfolding create
  create-IsConsistent setup definition w w' {db} h =
      lift-elim (build host definition) _ w h λ (owner, ds, rows) built h₁.
        chain-elim (if setup.registered then pure tt else setup.register_schemas) _ w h₁ λ _ u _ h₂.
          chain-elim (setup.register_handler (event_type owner) owner) _ u h₂ λ _ v _ h₃.
            let (shaped, checked) = build-checked definition built in
            subst (IsConsistent host.options) (let e : fresh ds rows v ≡ db = cc in e)
              (fresh-IsConsistent ds rows v shaped checked)

  -- Whatever calls are made on a new database, in any order, with any arguments, tasks, events and
  -- answers of the ports: the committed rows satisfy every row check and unique tuple, they stand
  -- in the defined tables, and each transaction that began at the present revision sees exactly the
  -- committed rows with its own writes on top.
  pub Reach-IsConsistent :
      (setup : Setup W) (definition : Raw) (w w' : W) {db t : Database W}
      → create host setup definition w ≡ (ok db, w')
      → Reach host.options db t
      → IsConsistent host.options t
  Reach-IsConsistent setup definition w w' {db} e r =
      reached host.options db (create-IsConsistent setup definition w w' e) r

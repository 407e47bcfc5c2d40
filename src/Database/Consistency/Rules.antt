-- ===== src/Database/Consistency/Rules.antt =====
-- Rules for the invariant: chains of steps, a call of a port, and the reads that a call begins with.
use distlab.Base.{
  ℕ, ◌≡◌, refl, ◌∙◌, ap, inl, inr, Bool, true, false, not, Option, none, some, get_elem?, Text, ok,
  throw, Result, type_error, Bool-cases, Option-cases, if◌then◌else◌, arith, fail_if-eq-ok,
}
use distlab.Base.Actions.{
  Action, ◌>>=◌, ◌>>◌, lift, chain-keeps, chain-keeps_eq, chain-elim, lift-elim,
}
use distlab.Base.Dicts.{find, is_some}
use distlab.Contracts.Events.{ScheduledEvent}
use distlab.Contracts.Observation.{ObservationSink}
use distlab.Values.{Value}
use distlab.Database.{
  Database, Host, TaskIdentity, LocalTransaction, Call, on_world, load, store, observe_in, observed,
  observe, active, is_active, check_table, rows_in, rows_of,
}
use distlab.Database.Cells.{Row, Rows}
use distlab.Database.Transactions.{staged_write}
use distlab.Database.Consistency.{Fits, IsConsistent}
use distlab.Database.Consistency.States.{set-Holds}

module _ {W : Type 0} (host : Host W) where
  pub is_active-epoch :
      (task : Option TaskIdentity) (place : ℕ) (tx : LocalTransaction) (db : Database W)
      → is_active host task place tx db ≡ true
      → tx.epoch ≡ db.epoch
  unfolding is_active
  is_active-epoch none place tx db h = cc
  is_active-epoch (some task) place tx db h = ground arith

  pub load-Shows :
      (place : ℕ) (db : Database W) {tx : LocalTransaction} {t : Database W}
      → load place db ≡ (ok tx, t)
      → (db ≡ t) × (get_elem? db.transactions place ≡ some tx)
  unfolding load
  load-Shows place db {tx} {t} h = ground arith

  -- The invariant, for the rules of chains.
  abbrev P : Database W → Type 0
  P = IsConsistent host.options

  pub branch-keeps :
      {A : Type 0} (b : Bool) (m n : Call W A) (db : Database W)
      → P (m db).1
      → P (n db).1
      → P ((if b then m else n) db).1
  branch-keeps true m n db p q = p
  branch-keeps false m n db p q = q

  pub world-keeps : {A : Type 0} (m : Action W A) (db : Database W) → P db → P (on_world m db).1
  unfolding on_world
  world-keeps m db h = record { holds = h.holds }

  pub load-keeps : (place : ℕ) (db : Database W) → P db → P (load place db).1
  unfolding load
  load-keeps place db h = elim (Option-cases (get_elem? db.transactions place)) [
    | inl e ↦ rw (e, load) h
    | inr (tx, e) ↦ rw (e, load) h
  ]

  -- An active transaction that was read.
  pub active-Shows :
      (place : ℕ) (db : Database W) {tx : LocalTransaction} {t : Database W}
      → active host place db ≡ (ok tx, t)
      → (db ≡ t)
        × (get_elem? db.transactions place ≡ some tx)
        × (is_active host host.task place tx db ≡ true)
  unfolding active
  active-Shows place db {tx} {t} h = chain-elim (load place) _ db h λ x u e k.
      let (p, q) = load-Shows place db e in
      elim (Bool-cases (is_active host host.task place x u)) [
        | inl yes_active ↦
            let k' = rw yes_active at k in
            let same : x ≡ tx = cc in
            let last : u ≡ t = cc in (p ∙ last, q ∙ ap some same, rw (← same) (rw p yes_active))
        | inr not_active ↦ absurd (let k' = rw not_active at k in cc)
      ]

  pub active-keeps : (place : ℕ) (db : Database W) → P db → P (active host place db).1
  unfolding active
  active-keeps place db h =
      chain-keeps P (load place) _ db (load-keeps place db h)
        λ tx t p. branch-keeps (is_active host host.task place tx t) _ _ t p p

  pub observe-keeps :
      (sink : ObservationSink W) (event : Option ScheduledEvent) (type : Text)
      (tx : LocalTransaction) (payload : Value) (db : Database W)
      → P db
      → P (observe_in host sink event type tx payload db).1
  unfolding observe_in
  observe-keeps sink none type tx payload db h = h
  observe-keeps sink (some event) type tx payload db h =
      chain-keeps P (on_world (sink.observe (observed host type tx payload event))) _ db
        (world-keeps (sink.observe (observed host type tx payload event)) db h) λ _ t p. p

  pub lift-keeps :
      {A B : Type 0} (r : Result A) (f : A → Call W B) (db : Database W)
      → P db
      → ((a : A) → r ≡ ok a → P (f a db).1)
      → P ((lift r >>= f) db).1
  lift-keeps (ok a) f db h rest = rest a refl
  lift-keeps (throw e) f db h rest = h
  lift-keeps type_error f db h rest = h

  pub then-keeps :
      {A : Type 0} (m : Call W (Unit {0})) (k : Call W A) (db : Database W)
      → P (m db).1
      → ((t : Database W) → P t → P (k t).1)
      → P ((m >> k) db).1
  then-keeps m k db p rest = chain-keeps P m (λ _. k) db p (λ _ t q. rest t q)

  pub note-keeps :
      (type : Text) (tx : LocalTransaction) (payload : Value) (db : Database W)
      → P db
      → P (observe host type tx payload db).1
  unfolding observe
  note-keeps type tx payload db h = observe-keeps host.sink host.event type tx payload db h

  rows_in-found :
      (table : Text) (tx : LocalTransaction) {rows : Rows}
      → rows_in table tx ≡ ok rows
      → find table tx.snapshot ≡ some rows
  unfolding rows_in
  rows_in-found table tx h = ground arith

  -- What a transaction reads before it looks a row up.
  pub record Reads (place : ℕ) (table : Text) (tx : LocalTransaction) (rows : Rows)
      (db : Database W) : Type 0 where
    pub stands : get_elem? db.transactions place ≡ some tx
    pub is_live : is_active host host.task place tx db ≡ true
    pub known : is_some (find table db.definitions) ≡ true
    pub found : find table tx.snapshot ≡ some rows

  not-false : {b : Bool} → not b ≡ false → b ≡ true
  not-false {b = true} h = refl
  not-false {b = false} h = cc

  pub rows_of-Reads :
      (place : ℕ) (table : Text) (db : Database W) {tx : LocalTransaction} {rows : Rows}
      {t : Database W}
      → rows_of host place table db ≡ (ok (tx, rows), t)
      → (db ≡ t) × Reads place table tx rows t
  unfolding rows_of check_table
  rows_of-Reads place table db {tx} {rows} {t} h = chain-elim (active host place) _ db h λ x u e k.
      let (p, q, live) = active-Shows place db e in
      lift-elim (check_table table u) _ u k λ _ defined k'.
        lift-elim (rows_in table x) _ u k' λ rows' there last.
          let same : u ≡ t = cc in
          let this : x ≡ tx = cc in
          let these : rows' ≡ rows = cc in
          (
            p ∙ same,
            rw (← same, ← this, ← these)
                record {
                  stands = rw p at q;
                  is_live = rw p at live;
                  known = not-false (fail_if-eq-ok _ _ defined);
                  found = rows_in-found table x there;
                },
          )

  pub rows_of-keeps :
      (place : ℕ) (table : Text) (db : Database W) → P db → P (rows_of host place table db).1
  unfolding rows_of
  rows_of-keeps place table db h =
      chain-keeps P (active host place) _ db (active-keeps place db h) λ tx t p.
        chain-keeps P (lift (check_table table t)) _ t p
          λ _ u q. chain-keeps P (lift (rows_in table tx)) _ u q λ _ v r. r

  pub read-keeps :
      {A : Type 0} (place : ℕ) (table : Text) (f : LocalTransaction × Rows → Call W A)
      (db : Database W)
      → P db
      → ((tx : LocalTransaction) (rows : Rows) (t : Database W)
          → Reads place table tx rows t
          → P t
          → P (f (tx, rows) t).1)
      → P ((rows_of host place table >>= f) db).1
  read-keeps place table f db h rest =
      chain-keeps_eq P (rows_of host place table) f db (rows_of-keeps place table db h)
        λ (tx, rows) t e p. let (_, r) = rows_of-Reads place table db e in rest tx rows t r p

  pub staged_write-epoch :
      (table key : Text) (after : Option Row) (rows : Rows) (tx : LocalTransaction)
      → (staged_write table key after rows tx).epoch ≡ tx.epoch
  unfolding staged_write
  staged_write-epoch table key after rows tx = refl

  pub store-keeps :
      (place : ℕ) (tx next : LocalTransaction) (db : Database W)
      → get_elem? db.transactions place ≡ some tx
      → next.epoch ≡ tx.epoch
      → Fits db.definitions db.committed db.revision db.epoch next
      → P db
      → P (store place next db).1
  unfolding store
  store-keeps place tx next db here same f h = record {
    holds = set-Holds host.options place tx next here same f h.holds;
  }

-- ===== src/Database/Isolation.antt =====
-- What the writes of a transaction change: its own view of a row, and nothing else.
use mathlib.Core.Path.{subst}
use distlab.Base.{
  ℕ, ◌≡◌, refl, sym, ◌∙◌, ap, false, ◌&&◌, Option, none, some, List, get_elem?, Text, units,
  text_eq, ◌==◌, ok, Result, fail_if, if◌then◌else◌, arith, fail_if-eq-ok,
}
use distlab.Base.Actions.{chain-keeps, chain-elim, lift-elim}
use distlab.Base.Dicts.{find, is_some}
use distlab.Contracts.Errors.{row_exists}
use distlab.Contracts.Events.{ScheduledEvent}
use distlab.Values.{Value}
use distlab.Canonical.{Raw}
use distlab.Database.{
  Database, Host, LocalTransaction, on_world, store, observe_in, observed, observe, rows_of,
}
use distlab.Database.Cells.{Row, Rows, check_key, row_of}
use distlab.Database.Transactions.{found, write, insert, staged_write}
use distlab.Base.{get_elem?-set, ◌≢◌, if_true, if_false}
use distlab.Database.Cells.{cell, in_rows}
use distlab.Database.{observed}
use distlab.Database.Overlay.{cell-enter}
use distlab.Database.Outcomes.{IsSame, same, world-IsSame}
use distlab.Database.Consistency.Rules.{rows_of-Reads}

-- A transaction wrote a row, or no row, under a key: it alone changed, and only that cell of it.
pub record Writes {W : Type 0} (place : ℕ) (table key : Text) (written : Option Row)
    (db t : Database W) : Type 0 where
  pub tx : LocalTransaction
  pub next : LocalTransaction
  pub stood : get_elem? db.transactions place ≡ some tx
  pub stands : get_elem? t.transactions place ≡ some next
  pub cells :
      (t k : Text)
      → cell t k next.snapshot
        ≡ (if text_eq table t && text_eq key k then written else cell t k tx.snapshot)
  pub others : (i : ℕ) → i ≢ place → get_elem? t.transactions i ≡ get_elem? db.transactions i
  pub committed : t.committed ≡ db.committed
  pub revision : t.revision ≡ db.revision

missing : (o : Option Row) → is_some o ≡ false → o ≡ none
missing none h = refl
missing (some row) h = cc

seen :
    (table key : Text) (tx : LocalTransaction) {rows : Rows}
    → find table tx.snapshot ≡ some rows
    → cell table key tx.snapshot ≡ find key rows
unfolding cell
seen table key tx e = ap (in_rows key) e

module _ {W : Type 0} (host : Host W) where
  stored-Writes :
      (place : ℕ) (table key : Text) (written : Option Row) (rows : Rows) (tx : LocalTransaction)
      (db : Database W)
      → get_elem? db.transactions place ≡ some tx
      → find table tx.snapshot ≡ some rows
      → Writes place table key written db
          (store place (staged_write table key written rows tx) db).1
  unfolding store
  stored-Writes place table key written rows tx db here found = record {
    tx = tx;
    next = staged_write table key written rows tx;
    stood = here;
    stands =
        get_elem?-set db.transactions place place (staged_write table key written rows tx) here
        ∙ if_true {b = place == place} _ _ (ground arith);
    cells = λ t k. unfold staged_write in cell-enter table key t k written rows tx.snapshot found;
    others = λ i other.
        get_elem?-set db.transactions place i (staged_write table key written rows tx) here
        ∙ if_false {b = place == i} _ _ (ground arith);
    committed = refl;
    revision = refl;
  }

  observe-IsSame :
      (event : Option ScheduledEvent) (type : Text) (tx : LocalTransaction) (payload : Value)
      (db : Database W)
      → IsSame db (observe_in host host.sink event type tx payload db).1
  unfolding observe_in
  observe-IsSame none type tx payload db = same db
  observe-IsSame (some event) type tx payload db =
      chain-keeps (IsSame db) (on_world (host.sink.observe (observed host type tx payload event))) _
        db (world-IsSame (host.sink.observe (observed host type tx payload event)) db db (same db))
        λ _ t s. s

  noted-Writes :
      (place : ℕ) (table key : Text) (written : Option Row) (db t end : Database W)
      → IsSame t end
      → Writes place table key written db t
      → Writes place table key written db end
  noted-Writes place table key written db t end s w = record {
    tx = w.tx;
    next = w.next;
    stood = w.stood;
    stands = ap (λ (txs : List LocalTransaction). get_elem? txs place) s.transactions ∙ w.stands;
    cells = w.cells;
    others = λ i other.
        ap (λ (txs : List LocalTransaction). get_elem? txs i) s.transactions ∙ w.others i other;
    committed = s.committed ∙ w.committed;
    revision = s.revision ∙ w.revision;
  }

  write-Writes :
      (place : ℕ) (table key : Text) (written : Option Row) (db : Database W) {u : Unit {0}}
      {t : Database W}
      → write host place table key written db ≡ (ok u, t)
      → Writes place table key written db t
  unfolding write observe store
  write-Writes place table key written db {u} {t} h =
      chain-elim (rows_of host place table) _ db h λ (tx, rows) s e h₁.
        let (same_db, r) = rows_of-Reads host place table db e in
        lift-elim (check_key key) _ s h₁ λ _ _ h₂.
          let stored = (store place (staged_write table key written rows tx) s).1 in
          let last = ap (λ (o : Result (Unit {0}) × Database W). o.1) h₂ in
          subst (λ (d : Database W). Writes place table key written d t) (sym same_db)
            (subst (Writes place table key written s) last (
              unfold store in
              noted-Writes place table key written s stored _
                (unfold observe in
                  observe-IsSame host.event (units "database.write.staged") tx _ stored)
                (stored-Writes place table key written rows tx s r.stands r.found)))

  -- An insertion that succeeds found no row under the key in what its transaction saw. Afterwards the
  -- transaction sees a copy of the row there and every other cell as before; no other transaction
  -- and no committed row has changed.
  pub insert-Writes :
      (place : ℕ) (table key : Text) (row : Raw) (db : Database W) {u : Unit {0}} {t : Database W}
      → insert host place table key row db ≡ (ok u, t)
      → (value : Row) × (row_of row ≡ ok value)
        × (w : Writes place table key (some value) db t) × (cell table key w.tx.snapshot ≡ none)
  unfolding insert
  insert-Writes place table key row db {u} {t} h =
      chain-elim (rows_of host place table) _ db h λ (tx, rows) s e h₁.
        let (same_db, r) = rows_of-Reads host place table db e in
        lift-elim (check_key key) _ s h₁ λ _ _ h₂. lift-elim (row_of row) _ s h₂ λ value copied h₃.
          lift-elim (fail_if (is_some (find key rows)) row_exists) _ s h₃ λ _ free h₄.
            let w = write-Writes place table key (some value) s h₄ in
            let absent = missing (find key rows) (fail_if-eq-ok _ _ free) in
            let one : w.tx ≡ tx = (let p = w.stood in let q = r.stands in cc) in
            subst
              (λ (d : Database W).
                (v : Row) × (row_of row ≡ ok v)
                × (x : Writes place table key (some v) d t) × (cell table key x.tx.snapshot ≡ none))
              (sym same_db)
              (
                value,
                copied,
                w,
                ap (λ (y : LocalTransaction). cell table key y.snapshot) one
                    ∙ seen table key tx r.found
                    ∙ absent,
              )

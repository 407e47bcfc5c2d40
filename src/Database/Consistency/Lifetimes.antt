-- ===== src/Database/Consistency/Lifetimes.antt =====
-- The calls that begin and end transactions, and the reset, keep the invariant, however they end.
use distlab.Base.{
  ℕ, ◌≡◌, refl, sym, ◌∙◌, ap, false, not, Option, none, some, List, [], ◌∷◌, ◌++◌, get_elem?,
  get_elem?-set, if_true, Text, units, ◌==◌, ok, Result, fail_if, arith,
}
use distlab.Base.Actions.{Action, ◌>>◌, lift, chain-keeps, chain-keeps_eq}
use distlab.Base.Dicts.{Dict, enter}
use distlab.Contracts.Errors.{invalid_database_operation}
use distlab.Contracts.Events.{ScheduledEvent}
use distlab.Values.{obj, field, end, str}
use distlab.Database.{
  Database, Host, TaskIdentity, LocalTransaction, Status, on_world, load, store, observe, active,
  submitted, rolledback, is_opened, is_rolledback, event_type,
}
use distlab.Database.Cells.{find_change}
use distlab.Database.Transactions.{
  new_transaction, may_begin, start_at, begin_for, begin, close_as, submit_as, submit,
  note_rollback, roll_back, rollback, cleanup, abandon_open, abandon_all, abandon_generation, reset,
}
use distlab.Database.Consistency.{Fits, IsConsistent}
use distlab.Database.Consistency.Stores.{with_status-Fits, Waiting-enter, Waiting-keep_pending}
use distlab.Database.Consistency.States.{append-Holds, pending-Holds, reset-Holds}
use distlab.Database.Consistency.Rules.{
  is_active-epoch, branch-keeps, then-keeps, note-keeps, world-keeps, load-keeps, load-Shows,
  store-keeps, active-keeps, active-Shows,
}

module _ {W : Type 0} (host : Host W) where
  abbrev P : Database W → Type 0
  P = IsConsistent host.options

  new_transaction-Fits :
      (task : TaskIdentity) (origin : ScheduledEvent) (db : Database W)
      → P db
      → Fits db.definitions db.committed db.revision db.epoch (new_transaction host task origin db)
  unfolding new_transaction find_change
  new_transaction-Fits task origin db h = record {
    distinct = tt;
    defined = tt;
    shaped = h.holds.shaped;
    unstaged = λ _. refl;
    past = omega arith;
    bounded = λ _. omega arith;
    follows = λ _ _. record { cells = λ t k. refl; before = λ t k c e. absurd (cc) };
  }

  begun-keeps :
      (task : TaskIdentity) (origin : ScheduledEvent) (counter : ℕ) (opened : Dict ℕ)
      (db : Database W)
      → P db
      → P (record db {
        counter = counter;
        transactions = db.transactions ++ new_transaction host task origin db ∷ [];
        opened = opened;
      })
  begun-keeps task origin counter opened db h = record {
    holds = append-Holds host.options _ (new_transaction-Fits task origin db h) h.holds;
  }

  start_at-keeps :
      (task : TaskIdentity) (origin : ScheduledEvent) (db : Database W)
      → P db
      → P (start_at host task origin db).1
  unfolding start_at
  start_at-keeps task origin db h =
      then-keeps host (observe host _ _ _) _ _
        (note-keeps host _ _ _ _ (begun-keeps task origin _ _ db h)) λ t p. p

  begin_for-keeps :
      (task : Option TaskIdentity) (db : Database W) → P db → P (begin_for host task db).1
  unfolding begin_for
  begin_for-keeps none db h = h
  begin_for-keeps (some task) db h =
      chain-keeps P (lift (may_begin host task host.event db)) _ db h
        λ origin t p. start_at-keeps task origin t p

  pub begin-keeps : (db : Database W) → P db → P (begin host db).1
  unfolding begin
  begin-keeps db h = begin_for-keeps host.task db h

  -- A transaction that stands at its place leaves the open ones.
  pub close_as-keeps :
      (place : ℕ) (tx : LocalTransaction) (status : Status) (db : Database W)
      → get_elem? db.transactions place ≡ some tx
      → P db
      → P (close_as place (record tx { status = status }) db).1
  unfolding close_as
  close_as-keeps place tx status db here h =
      then-keeps host (store place (record tx { status = status })) _ db
        (store-keeps host place tx (record tx { status = status }) db here refl
          (with_status-Fits tx status (h.holds.each place tx here)) h)
        λ t p. record { holds = p.holds }

  -- The invariant, and that a transaction of the present epoch stands at a place.
  abbrev Stands : ℕ → Database W → Type 0
  Stands place db =
      P db
      × ((tx : LocalTransaction) × (get_elem? db.transactions place ≡ some tx)
          × (tx.epoch ≡ db.epoch))

  submitted-Stands :
      (place : ℕ) (id operation : Text) (generation : ℕ) (db : Database W)
      → Stands place db
      → Stands place (record db {
        pending =
            enter id
              (record {
                tx = place;
                operation = operation;
                generation = generation;
                cancelled = false;
              })
              db.pending;
      })
  submitted-Stands place id operation generation db (h, (tx, here, now)) = (
    record {
      holds =
          pending-Holds host.options _
            (Waiting-enter db.transactions db.epoch id _ db.pending (tx, here, now) h.holds.waiting)
            h.holds;
    },
    (tx, here, now),
  )

  close_as-Stands :
      (place : ℕ) (tx : LocalTransaction) (status : Status) (db : Database W)
      → get_elem? db.transactions place ≡ some tx
      → tx.epoch ≡ db.epoch
      → P db
      → Stands place (close_as place (record tx { status = status }) db).1
  unfolding close_as store
  close_as-Stands place tx status db here now h = (
    unfold close_as store in close_as-keeps place tx status db here h,
    (
      record tx { status = status },
      get_elem?-set db.transactions place place (record tx { status = status }) here
          ∙ if_true {b = place == place} _ _ (ground arith),
      now,
    ),
  )

  world-Stands :
      {A : Type 0} (m : Action W A) (place : ℕ) (db : Database W)
      → Stands place db
      → Stands place (on_world m db).1
  unfolding on_world
  world-Stands m place db (h, here) = (record { holds = h.holds }, here)

  submit_as-Stands :
      (place : ℕ) (tx : LocalTransaction) (operation : Text) (db : Database W)
      → get_elem? db.transactions place ≡ some tx
      → tx.epoch ≡ db.epoch
      → P db
      → Stands place (submit_as host place tx operation db).1
  unfolding submit_as
  submit_as-Stands place tx operation db here now h =
      chain-keeps (Stands place) (close_as place (record tx { status = submitted })) _ db
        (close_as-Stands place tx submitted db here now h)
        λ _ t q.
          let next : Database W = record t {
            pending =
                enter operation
                  (record {
                    tx = place;
                    operation = operation;
                    generation = tx.task.process_generation;
                    cancelled = false;
                  })
                  t.pending;
          } in
          let schedule =
            host.schedule (event_type host.owner)
              (obj (field (units "operationId") (str operation) end)) in
          chain-keeps (Stands place) (on_world schedule) _ next
            (world-Stands schedule place next
              (submitted-Stands place operation operation tx.task.process_generation t q))
            λ _ u r. r

  world-same :
      {A : Type 0} (m : Action W A) (db : Database W) {a : A} {t : Database W}
      → on_world m db ≡ (ok a, t)
      → (db.transactions ≡ t.transactions) × (db.epoch ≡ t.epoch)
  unfolding on_world
  world-same m db e =
      let last = ap (λ (r : Result _ × Database W). r.1) e in
      (ap (λ (d : Database W). d.transactions) last, ap (λ (d : Database W). d.epoch) last)

  pub submit-keeps : (place : ℕ) (db : Database W) → P db → P (submit host place db).1
  unfolding submit
  submit-keeps place db h =
      chain-keeps_eq P (active host place) _ db (active-keeps host place db h) λ tx t e p.
        let (same, here, live) = active-Shows host place db e in
        let now = is_active-epoch host host.task place tx db live in
        chain-keeps_eq P (on_world host.create) _ t (world-keeps host host.create t p)
          λ operation u e' q.
            let (kept, epochs) = world-same host.create t e' in
            (submit_as-Stands place tx operation u
              (ap (λ (txs : List LocalTransaction). get_elem? txs place)
                  (sym (ap (λ (d : Database W). d.transactions) same ∙ kept))
                ∙ here)
              (now ∙ ap (λ (d : Database W). d.epoch) same ∙ epochs) q).0

  rolled_back-keeps :
      (place : ℕ) (tx : LocalTransaction) (reason : Text) (db : Database W)
      → get_elem? db.transactions place ≡ some tx
      → P db
      → P
          ((close_as place (record tx { status = rolledback }) >> note_rollback host tx reason)
            db).1
  rolled_back-keeps place tx reason db here h =
      then-keeps host (close_as place (record tx { status = rolledback })) _ db
        (close_as-keeps place tx rolledback db here h)
        λ t p. unfold note_rollback in note-keeps host _ _ _ t p

  roll_back-keeps : (place : ℕ) (db : Database W) → P db → P (roll_back host place db).1
  unfolding roll_back
  roll_back-keeps place db h =
      chain-keeps_eq P (active host place) _ db (active-keeps host place db h) λ tx t e p.
        let (same, here, _) = active-Shows host place db e in
        rolled_back-keeps place tx (units "explicit") t
          (ap (λ (d : Database W). get_elem? d.transactions place) (sym same) ∙ here) p

  pub rollback-keeps : (place : ℕ) (db : Database W) → P db → P (rollback host place db).1
  unfolding rollback
  rollback-keeps place db h = chain-keeps P (load place) _ db (load-keeps host place db h) λ tx t p.
      chain-keeps P (lift (fail_if (not (tx.epoch == t.epoch)) invalid_database_operation)) _ t p
        λ _ u q. branch-keeps host (is_rolledback tx.status) _ _ u q (roll_back-keeps place u q)

  pub cleanup-keeps : (place : ℕ) (db : Database W) → P db → P (cleanup host place db).1
  unfolding cleanup
  cleanup-keeps place db h =
      chain-keeps_eq P (load place) _ db (load-keeps host place db h) λ tx t e p.
        let (same, here) = load-Shows host place db e in
        branch-keeps host (is_opened tx.status) _ _ t
          (rolled_back-keeps place tx (units "task-exit-or-crash") t
            (ap (λ (d : Database W). get_elem? d.transactions place) (sym same) ∙ here) p)
          p

  abandon_all-keeps :
      (generation : ℕ) (opened : Dict ℕ) (db : Database W)
      → P db
      → P (abandon_all host generation opened db).1
  unfolding abandon_all abandon_open
  abandon_all-keeps generation [] db h = h
  abandon_all-keeps generation ((_, place) ∷ rest) db h =
      then-keeps host (abandon_open host generation place) _ db
        (chain-keeps P (load place) _ db (load-keeps host place db h) λ tx t p.
          branch-keeps host (tx.task.process_generation == generation) _ _ t
            (cleanup-keeps place t p) p)
        λ t p. abandon_all-keeps generation rest t p

  pub abandon_generation-keeps :
      (generation : ℕ) (db : Database W) → P db → P (abandon_generation host generation db).1
  unfolding abandon_generation
  abandon_generation-keeps generation db h =
      then-keeps host (abandon_all host generation db.opened) _ db
        (abandon_all-keeps generation db.opened db h)
        λ t p. record {
          holds =
              pending-Holds host.options _
                (Waiting-keep_pending t.transactions t.epoch generation t.pending p.holds.waiting)
                p.holds;
        }

  pub reset-keeps : (db : Database W) → P db → P (reset db)
  unfolding reset
  reset-keeps db h = record { holds = reset-Holds host.options h.holds }

-- ===== src/Database/Consistency/Calls.antt =====
-- The reads and writes of a transaction keep the invariant, however they end.
use mathlib.Core.Path.{subst}
use distlab.Base.{ℕ, not, Option, none, some, Text, fail_if}
use distlab.Base.Actions.{lift, chain-keeps, chain-keeps_eq, lift-eq-ok}
use distlab.Base.Dicts.{find, is_some}
use distlab.Contracts.Errors.{row_exists, row_not_found}
use distlab.Values.{cons, nil, str}
use distlab.Canonical.{Raw}
use distlab.Database.{Database, Host, store, observe}
use distlab.Database.Cells.{Row, check_key, row_of, sort_rows}
use distlab.Database.Transactions.{
  found, note_read, get_row, scan, write, insert, update, delete, staged_write, copy_rows,
}
use distlab.Database.Consistency.{IsConsistent}
use distlab.Database.Consistency.Stores.{staged_write-Fits}
use distlab.Database.Consistency.Rules.{
  branch-keeps, then-keeps, note-keeps, store-keeps, staged_write-epoch, observe-keeps, read-keeps,
}

module _ {W : Type 0} (host : Host W) where
  abbrev P : Database W → Type 0
  P = IsConsistent host.options

  pub get_row-keeps :
      (place : ℕ) (table key : Text) (db : Database W)
      → P db
      → P (get_row host place table key db).1
  unfolding get_row note_read observe
  get_row-keeps place table key db h = read-keeps host place table _ db h λ tx rows t r p.
      chain-keeps P (lift (check_key key)) _ t p λ _ u q.
        chain-keeps P (note_read host tx table (cons (str key) nil) (found key (find key rows))) _ u
          (observe-keeps host host.sink host.event _ tx _ u q) λ _ v s. s

  pub scan-keeps :
      (place : ℕ) (table : Text) (db : Database W) → P db → P (scan host place table db).1
  unfolding scan note_read observe
  scan-keeps place table db h = read-keeps host place table _ db h λ tx rows t r p.
      chain-keeps P (lift (copy_rows (sort_rows rows))) _ t p λ copies u q.
        chain-keeps P (note_read host tx table _ copies) _ u
          (observe-keeps host host.sink host.event _ tx _ u q) λ _ v s. s

  pub write-keeps :
      (place : ℕ) (table key : Text) (after : Option Row) (db : Database W)
      → P db
      → P (write host place table key after db).1
  unfolding write
  write-keeps place table key after db h = read-keeps host place table _ db h λ tx rows t r p.
      chain-keeps_eq P (lift (check_key key)) _ t p λ _ u e q.
        then-keeps host (store place (staged_write table key after rows tx)) _ u
          (let (_, same) = lift-eq-ok (check_key key) t e in
            subst (λ (x : Database W). P (store place (staged_write table key after rows tx) x).1)
              same
              (store-keeps host place tx _ t r.stands
                (staged_write-epoch host table key after rows tx)
                (staged_write-Fits table key after rows tx r.known r.found
                  (p.holds.each place tx r.stands))
                p))
          λ v s. note-keeps host _ _ _ v s

  pub insert-keeps :
      (place : ℕ) (table key : Text) (row : Raw) (db : Database W)
      → P db
      → P (insert host place table key row db).1
  unfolding insert
  insert-keeps place table key row db h = read-keeps host place table _ db h λ tx rows t r p.
      chain-keeps P (lift (check_key key)) _ t p λ _ u q.
        chain-keeps P (lift (row_of row)) _ u q λ value v s.
          chain-keeps P (lift (fail_if (is_some (find key rows)) row_exists)) _ v s
            λ _ w o. write-keeps place table key (some value) w o

  pub update-keeps :
      (place : ℕ) (table key : Text) (row : Raw) (db : Database W)
      → P db
      → P (update host place table key row db).1
  unfolding update
  update-keeps place table key row db h = read-keeps host place table _ db h λ tx rows t r p.
      chain-keeps P (lift (check_key key)) _ t p λ _ u q.
        chain-keeps P (lift (row_of row)) _ u q λ value v s.
          chain-keeps P (lift (fail_if (not (is_some (find key rows))) row_not_found)) _ v s
            λ _ w o. write-keeps place table key (some value) w o

  pub delete-keeps :
      (place : ℕ) (table key : Text) (db : Database W) → P db → P (delete host place table key db).1
  unfolding delete
  delete-keeps place table key db h = read-keeps host place table _ db h λ tx rows t r p.
      chain-keeps P (lift (check_key key)) _ t p λ _ u q.
        branch-keeps host (is_some (find key rows)) _ _ u
          (chain-keeps P (write host place table key none) _ u
            (write-keeps place table key none u q) λ _ v s. s)
          q

-- ===== src/Database/Consistency/Stores.antt =====
-- A transaction after a write, and the waiting operations after a change of the transactions.
use mathlib.Core.Path.{subst}
use distlab.Base.{
  ℕ, ◌≡◌, refl, sym, ◌∙◌, ap, inl, inr, true, ◌&&◌, Option, some, List, [], ◌∷◌, get_elem?, Text,
  text_eq, ◌==◌, Bool-cases, Option-cases,
}
use distlab.Base.Dicts.{Dict, find, enter, leave, is_some}
use distlab.Database.{TableDefinition, LocalTransaction, Pending, Status}
use distlab.Database.Cells.{Row, Rows, Tables, Change, cell, find_change, put_row, is_at, in_rows}
use distlab.Database.Transactions.{staged_write, before_of, keep_pending}
use distlab.Database.Overlay.{
  cell-enter, find_change-put_change, is_at→eq, put_change-IsDistinct, put_change-AreDefined,
  enter-IsShaped,
}
use distlab.Database.Consistency.{Follows, Fits, Waits, Waiting}

module _ {committed : Tables} (tx : LocalTransaction) (f : Follows committed tx) where
  -- What the source takes for the row before the transaction is the committed row.
  before_of-committed :
      (table key : Text) (rows : Rows)
      → find table tx.snapshot ≡ some rows
      → before_of (find_change table key tx.writes) (find key rows) ≡ cell table key committed
  unfolding cell
  before_of-committed table key rows here = elim (Option-cases (find_change table key tx.writes)) [
    | inl new ↦
        let seen : find key rows ≡ cell table key tx.snapshot = sym (ap (in_rows key) here) in
        rw new (seen ∙ f.cells table key ∙ rw new refl)
    | inr (c, old) ↦ rw old (f.before table key c old)
  ]

  pub staged_write-Follows :
      (table key : Text) (after : Option Row) (rows : Rows)
      → find table tx.snapshot ≡ some rows
      → Follows committed (staged_write table key after rows tx)
  unfolding staged_write is_at
  staged_write-Follows table key after rows here =
      let c : Change = record {
        table = table;
        key = key;
        before = before_of (find_change table key tx.writes) (find key rows);
        after = after;
      } in
      record {
        cells = λ t k.
            cell-enter table key t k after rows tx.snapshot here
            ∙ rw (find_change-put_change c t k tx.writes)
                (elim (Bool-cases (text_eq table t && text_eq key k)) [
                  | inl e ↦ rw e refl
                  | inr e ↦ rw e (f.cells t k)
                ]);
        before = λ t k d h.
            let h' = rw (find_change-put_change c t k tx.writes) at h in
            elim (Bool-cases (text_eq table t && text_eq key k)) [
              | inl e ↦
                  let g = rw e at h' in
                  let same : c ≡ d = cc in
                  let (p, q) = is_at→eq t k c e in
                  ap (λ (x : Change). x.before) (sym same)
                  ∙ before_of-committed table key rows here
                  ∙ ap (λ (x : Text). cell x key committed) p
                  ∙ ap (λ (x : Text). cell t x committed) q
              | inr e ↦ f.before t k d (rw e at h')
            ];
      }

module _ {ds : Dict TableDefinition} {committed : Tables} {revision epoch : ℕ} where
  pub with_status-Fits :
      (tx : LocalTransaction) (status : Status)
      → Fits ds committed revision epoch tx
      → Fits ds committed revision epoch (record tx { status = status })
  with_status-Fits tx status f = record {
    distinct = f.distinct;
    defined = f.defined;
    shaped = f.shaped;
    unstaged = f.unstaged;
    past = f.past;
    bounded = f.bounded;
    follows = λ e r. record { cells = (f.follows e r).cells; before = (f.follows e r).before };
  }

  pub staged_write-Fits :
      (table key : Text) (after : Option Row) (rows : Rows) (tx : LocalTransaction)
      → is_some (find table ds) ≡ true
      → find table tx.snapshot ≡ some rows
      → Fits ds committed revision epoch tx
      → Fits ds committed revision epoch (staged_write table key after rows tx)
  unfolding staged_write
  staged_write-Fits table key after rows tx known here f = record {
    distinct = put_change-IsDistinct _ tx.writes f.distinct;
    defined = put_change-AreDefined ds _ tx.writes known f.defined;
    shaped =
        enter-IsShaped ds table (put_row key after rows) tx.snapshot (ap is_some here) f.shaped;
    unstaged = λ e. cc;
    past = f.past;
    bounded = f.bounded;
    follows = λ e r.
        unfold staged_write in staged_write-Follows tx (f.follows e r) table key after rows here;
  }

-- Waiting operations, where the transactions keep their places and their epochs.
pub Waiting-kept :
    (txs later : List LocalTransaction) (epoch : ℕ) (ps : Dict Pending)
    → ((i : ℕ) (tx : LocalTransaction)
        → get_elem? txs i ≡ some tx
        → (next : LocalTransaction) × (get_elem? later i ≡ some next) × (next.epoch ≡ tx.epoch))
    → Waiting txs epoch ps
    → Waiting later epoch ps
Waiting-kept txs later epoch [] keep w = tt
Waiting-kept txs later epoch ((_, p) ∷ ps) keep ((tx, e, f), w) =
    let (next, e', f') = keep p.tx tx e in
    ((next, e', f' ∙ f), Waiting-kept txs later epoch ps keep w)

module _ (txs : List LocalTransaction) (epoch : ℕ) where
  pub Waiting-enter :
      (id : Text) (p : Pending) (ps : Dict Pending)
      → Waits txs epoch p
      → Waiting txs epoch ps
      → Waiting txs epoch (enter id p ps)
  unfolding enter
  Waiting-enter id p [] h w = (h, tt)
  Waiting-enter id p ((k, q) ∷ ps) h w = elim (Bool-cases (text_eq k id)) [
    | inl e ↦ rw e (h, w.1)
    | inr e ↦ rw e (w.0, Waiting-enter id p ps h w.1)
  ]

  pub Waiting-leave :
      (id : Text) (ps : Dict Pending) → Waiting txs epoch ps → Waiting txs epoch (leave id ps)
  unfolding leave
  Waiting-leave id [] w = tt
  Waiting-leave id ((k, q) ∷ ps) w = elim (Bool-cases (text_eq k id)) [
    | inl e ↦ rw e (Waiting-leave id ps w.1)
    | inr e ↦ rw e (w.0, Waiting-leave id ps w.1)
  ]

  pub Waiting-keep_pending :
      (generation : ℕ) (ps : Dict Pending)
      → Waiting txs epoch ps
      → Waiting txs epoch (keep_pending generation ps)
  unfolding keep_pending
  Waiting-keep_pending generation [] w = tt
  Waiting-keep_pending generation ((k, q) ∷ ps) w = elim (Bool-cases (q.generation == generation)) [
    | inl e ↦ rw e (Waiting-keep_pending generation ps w.1)
    | inr e ↦ rw e (w.0, Waiting-keep_pending generation ps w.1)
  ]

  pub Waiting-find :
      (id : Text) (ps : Dict Pending) {p : Pending}
      → Waiting txs epoch ps
      → find id ps ≡ some p
      → Waits txs epoch p
  unfolding find
  Waiting-find id [] w h = cc
  Waiting-find id ((k, q) ∷ ps) {p} w h = elim (Bool-cases (text_eq k id)) [
    | inl e ↦
        let h' = rw e at h in
        let same : q ≡ p = cc in subst (λ (x : Pending). Waits txs epoch x) same w.0
    | inr e ↦ Waiting-find id ps w.1 (rw e at h)
  ]

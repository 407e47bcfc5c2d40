-- ===== src/Database/Consistency.antt =====
-- The invariant of a database: what each transaction sees is what is committed with its writes on
-- top, as long as nothing was committed since it began.
pub mod Stores
pub mod States
pub mod Rules
pub mod Calls
pub mod Lifetimes
pub mod Commits
use distlab.Base.{
  ℕ, suc, ◌≤◌, ◌<◌, ◌≡◌, refl, Bool, true, false, Option, none, some, List, [], ◌∷◌, get_elem?,
  Text, ok,
}
use distlab.Base.Dicts.{Dict, find, is_some}
use distlab.Database.{Options, Database, TableDefinition, LocalTransaction, Pending}
use distlab.Database.Cells.{Tables, Change, cell, find_change}
use distlab.Database.Constraints.{constraint}
use distlab.Database.Overlay.{IsDistinct, AreDefined, IsShaped, after_of}

-- What a transaction sees, of the committed rows that it began with.
pub record Follows (committed : Tables) (tx : LocalTransaction) : Type 0 where
  pub cells :
      (t k : Text)
      → cell t k tx.snapshot ≡ after_of (find_change t k tx.writes) (cell t k committed)
  pub before :
      (t k : Text) (c : Change) → find_change t k tx.writes ≡ some c → c.before ≡ cell t k committed

-- A transaction of any epoch; it follows the committed rows if it began at the present revision.
pub record Fits (ds : Dict TableDefinition) (committed : Tables) (revision epoch : ℕ)
    (tx : LocalTransaction) : Type 0 where
  pub distinct : IsDistinct tx.writes
  pub defined : AreDefined ds tx.writes
  pub shaped : IsShaped ds tx.snapshot
  pub unstaged : tx.staged ≡ false → tx.writes ≡ []
  pub past : tx.epoch ≤ epoch
  pub bounded : tx.epoch ≡ epoch → tx.base_revision ≤ revision
  pub follows : tx.epoch ≡ epoch → tx.base_revision ≡ revision → Follows committed tx

-- An operation waits for a transaction of the present epoch.
abbrev pub Waits : List LocalTransaction → ℕ → Pending → Type 0
Waits txs epoch p = (tx : LocalTransaction) × (get_elem? txs p.tx ≡ some tx) × (tx.epoch ≡ epoch)

abbrev pub Waiting : List LocalTransaction → ℕ → Dict Pending → Type 0
Waiting txs epoch [] = Unit
Waiting txs epoch ((_, p) ∷ ps) = Waits txs epoch p × Waiting txs epoch ps

pub record Holds (options : Options) (ds : Dict TableDefinition) (initial committed : Tables)
    (revision epoch : ℕ) (txs : List LocalTransaction) (pending : Dict Pending) : Type 0 where
  pub first_shaped : IsShaped ds initial
  pub first_satisfied : constraint options ds initial ≡ ok none
  pub shaped : IsShaped ds committed
  pub satisfied : constraint options ds committed ≡ ok none
  pub each :
      (i : ℕ) (tx : LocalTransaction)
      → get_elem? txs i ≡ some tx
      → Fits ds committed revision epoch tx
  pub waiting : Waiting txs epoch pending

pub record IsConsistent {W : Type 0} (options : Options) (db : Database W) : Type 0 where
  pub holds :
      Holds options db.definitions db.initial db.committed db.revision db.epoch db.transactions
        db.pending

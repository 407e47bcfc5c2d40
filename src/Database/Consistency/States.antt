-- ===== src/Database/Consistency/States.antt =====
-- The changes of the state of a database, each with the invariant.
use mathlib.Core.Path.{subst}
use distlab.Base.{
  ℕ, suc, ◌<◌, ◌≡◌, refl, sym, ◌∙◌, ap, inl, inr, none, some, List, [], ◌∷◌, ◌++◌, get_elem?, set,
  ◌==◌, ok, Bool-cases, arith, get_elem?-set, get_elem?-append, get_elem?-append_cases,
}
use distlab.Base.Dicts.{Dict}
use distlab.Database.{Options, TableDefinition, LocalTransaction, Pending}
use distlab.Database.Cells.{Tables}
use distlab.Database.Constraints.{constraint}
use distlab.Database.Overlay.{IsShaped}
use distlab.Database.Consistency.{Fits, Waiting, Holds}
use distlab.Database.Consistency.Stores.{Waiting-kept}

module _ (options : Options) {ds : Dict TableDefinition} {initial committed : Tables}
    {revision epoch : ℕ} {txs : List LocalTransaction} {ps : Dict Pending} where
  -- A write to the object at a place, of the same epoch.
  pub set-Holds :
      (place : ℕ) (tx next : LocalTransaction)
      → get_elem? txs place ≡ some tx
      → next.epoch ≡ tx.epoch
      → Fits ds committed revision epoch next
      → Holds options ds initial committed revision epoch txs ps
      → Holds options ds initial committed revision epoch (set txs place next) ps
  set-Holds place tx next here same f h = record {
    first_shaped = h.first_shaped;
    first_satisfied = h.first_satisfied;
    shaped = h.shaped;
    satisfied = h.satisfied;
    each = λ i x e.
        let e' = sym (get_elem?-set txs place i next here) ∙ e in
        elim (Bool-cases (place == i)) [
          | inl at ↦
              let g = rw at at e' in
              subst (Fits ds committed revision epoch) (let s : next ≡ x = cc in s) f
          | inr other ↦ h.each i x (rw other at e')
        ];
    waiting =
        Waiting-kept txs (set txs place next) epoch ps
          (λ i x e. elim (Bool-cases (place == i)) [
            | inl at ↦
                let there : place ≡ i = ground arith in
                let known : tx ≡ x = cc in
                (
                  next,
                  get_elem?-set txs place i next here ∙ rw at refl,
                  same ∙ ap (λ (y : LocalTransaction). y.epoch) known,
                )
            | inr other ↦ (x, get_elem?-set txs place i next here ∙ rw other e, refl)
          ])
          h.waiting;
  }

  pub append-Holds :
      (tx : LocalTransaction)
      → Fits ds committed revision epoch tx
      → Holds options ds initial committed revision epoch txs ps
      → Holds options ds initial committed revision epoch (txs ++ tx ∷ []) ps
  append-Holds tx f h = record {
    first_shaped = h.first_shaped;
    first_satisfied = h.first_satisfied;
    shaped = h.shaped;
    satisfied = h.satisfied;
    each = λ i x e. elim (get_elem?-append_cases txs tx i e) [
      | inl old ↦ h.each i x old
      | inr new ↦ subst (Fits ds committed revision epoch) new f
    ];
    waiting =
        Waiting-kept txs (txs ++ tx ∷ []) epoch ps
          (λ i x e. (x, get_elem?-append txs (tx ∷ []) i e, refl)) h.waiting;
  }

  pub pending-Holds :
      (qs : Dict Pending)
      → Waiting txs epoch qs
      → Holds options ds initial committed revision epoch txs ps
      → Holds options ds initial committed revision epoch txs qs
  pending-Holds qs w h = record {
    first_shaped = h.first_shaped;
    first_satisfied = h.first_satisfied;
    shaped = h.shaped;
    satisfied = h.satisfied;
    each = h.each;
    waiting = w;
  }

  -- In a new epoch no transaction is of the present one.
  pub reset-Holds :
      Holds options ds initial committed revision epoch txs ps
      → Holds options ds initial initial 0 (suc epoch) txs []
  reset-Holds h = record {
    first_shaped = h.first_shaped;
    first_satisfied = h.first_satisfied;
    shaped = h.first_shaped;
    satisfied = h.first_satisfied;
    each = λ i x e.
        let f = h.each i x e in
        let old : x.epoch < suc epoch = let p = f.past in omega arith in
        record {
          distinct = f.distinct;
          defined = f.defined;
          shaped = f.shaped;
          unstaged = f.unstaged;
          past = omega arith;
          bounded = λ now. absurd (omega arith);
          follows = λ now. absurd (omega arith);
        };
    waiting = tt;
  }

  -- After a revision has passed, no transaction began at the present one.
  pub commit-Holds :
      (candidate : Tables)
      → IsShaped ds candidate
      → constraint options ds candidate ≡ ok none
      → Holds options ds initial committed revision epoch txs ps
      → Holds options ds initial candidate (suc revision) epoch txs ps
  commit-Holds candidate s v h = record {
    first_shaped = h.first_shaped;
    first_satisfied = h.first_satisfied;
    shaped = s;
    satisfied = v;
    each = λ i x e.
        let f = h.each i x e in
        record {
          distinct = f.distinct;
          defined = f.defined;
          shaped = f.shaped;
          unstaged = f.unstaged;
          past = f.past;
          bounded = λ now. let b = f.bounded now in omega arith;
          follows = λ now new. absurd (let b = f.bounded now in omega arith);
        };
    waiting = h.waiting;
  }

-- ===== src/Identity/Allocation.antt =====
-- An allocator never gives out an identity twice, and gives out one for every number that it has left.
use mathlib.Core.HLevel.{¬_prop}
use mathlib.Core.Logic.Or
use mathlib.Core.List.{Mem, mem-cons, not-mem-nil}
use distlab.Base.{
  ℕ, zero, suc, ◌+◌, ◌≤◌, ◌<◌, ◌≡◌, refl, sym, ◌∙◌, ap, ◌≢◌, List, [], ◌∷◌, Text, units,
  decimal-injective, append-cancel, Result, ok, throw, arith, length,
}
use distlab.Base.Actions.{Action, ◌>>=◌, pure}
use distlab.Contracts.Errors.{identity_overflow}
use distlab.Values.{max_safe}
use distlab.Identity.{Allocator, allocate, can_allocate, identity}

pub identity-injective :
    (prefix run : Text) (m n : ℕ) → identity prefix run m ≡ identity prefix run n → m ≡ n
unfolding identity
identity-injective prefix run m n e =
    let tail = append-cancel run _ _ (append-cancel (units ":") _ _ (append-cancel prefix _ _ e)) in
    decimal-injective m n (append-cancel (units ":") _ _ tail)

-- The identities of `count` allocations in a row.
unfoldable pub allocate_all : ℕ → Action Allocator (List Text)
allocate_all zero a = (ok [], a)
allocate_all (suc count) a = (allocate >>= λ id. allocate_all count >>= λ ids. pure (id ∷ ids)) a

-- No identity stands twice in the list, and each was made of a number from `from` on.
pub IsDistinct : List Text → Type 0
IsDistinct [] = Unit
IsDistinct (id ∷ ids) = ((other : Text) → Mem other ids → other ≢ id) × IsDistinct ids

-- What `count` allocations from `a` give.
pub record Allocates (count : ℕ) (a : Allocator) (r : Result (List Text) × Allocator) : Type 0 where
  pub ids : List Text
  pub returned : r ≡ (ok ids, record a { next = a.next + count })
  pub size : length ids ≡ count
  pub distinct : IsDistinct ids
  pub new : (id : Text) → Mem id ids → (n : ℕ) → n < a.next → id ≢ identity a.prefix a.run_id n

pub allocate_ok :
    (a : Allocator)
    → a.next < max_safe
    → allocate a ≡ (ok (identity a.prefix a.run_id a.next), record a { next = suc a.next })
unfolding allocate can_allocate
allocate_ok a h = ground arith

counted :
    (ids : List Text) (a : Allocator) {m n : ℕ}
    → m ≡ n
    → ◌≡◌ {A = Result (List Text) × Allocator}
        (ok ids, record a { next = m })
        (ok ids, record a { next = n })
counted ids a e = ap (λ (k : ℕ). (ok ids, record a { next = k })) e

-- As long as the numbers suffice, that many allocations in a row succeed: they give as many identities,
-- no two the same, and none that the allocator can have given out before.
pub allocate_all-Allocates :
    (count : ℕ) (a : Allocator)
    → a.next + count ≤ max_safe
    → Allocates count a (allocate_all count a)
unfolding allocate_all IsDistinct
allocate_all-Allocates zero a h = record {
  ids = [];
  returned = counted [] a (omega arith);
  size = refl;
  distinct = tt;
  new = λ id m. absurd (not-mem-nil m);
}
allocate_all-Allocates (suc count) a h =
    let a' : Allocator = record a { next = suc a.next } in
    let id = identity a.prefix a.run_id a.next in
    let rest = allocate_all-Allocates count a' (omega arith) in
    rw (allocate_ok a (omega arith), rest.returned)
      (record {
        ids = id ∷ rest.ids;
        returned = counted (id ∷ rest.ids) a (omega arith);
        size = omega (arith, rest.size);
        distinct = (λ other m. rest.new other m a.next (omega arith), rest.distinct);
        new = λ other m n p.
            Or.elim (¬_prop) (mem-cons.0 m)
              (λ same e.
                absurd
                  (omega (arith, identity-injective a.prefix a.run_id a.next n (sym same ∙ e))))
              (λ later. rest.new other later n (omega arith));
      })

-- An allocator whose numbers are spent refuses, and stays as it is.
pub allocate_overflow :
    (a : Allocator) → max_safe ≤ a.next → allocate a ≡ (throw identity_overflow, a)
unfolding allocate can_allocate
allocate_overflow a h = ground arith

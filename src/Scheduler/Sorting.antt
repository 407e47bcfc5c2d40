-- ===== src/Scheduler/Sorting.antt =====
-- Lists of events in their order: what `sort` yields, and that there is only one such list.
use mathlib.Core.HLevel.{×_prop}
use mathlib.Core.List.Perm
use mathlib.Core.List.{Mem, mem-cons, mem-cons_self, mem-cons_of_mem, not-mem-nil}
use mathlib.Core.Logic.Or
use native.Mathlib.Bridge.{le_prop}
use native.Mathlib.Nat.{ℕ_set}
use mathlib.Core.Path.{ap₂}
use distlab.Base.{◌≡◌, sym, ap, inl, inr, List, [], ◌∷◌, Perm, Bool-cases, arith}
use distlab.Contracts.Events.{ScheduledEvent}
use distlab.Scheduler.{insert_sorted, sort}
use distlab.Scheduler.Heap.{at_most}
use distlab.Scheduler.Heap.Order.{
  Precedes, Precedes-refl, Precedes-trans, at_most→Precedes, not_at_most→Precedes,
}

pub Precedes-prop : (a b : ScheduledEvent) → IsProp (Precedes a b)
unfolding Precedes
Precedes-prop a b (inl p) (inl q) = ap inl (le_prop p q)
Precedes-prop a b (inl p) (inr q) = absurd (omega arith)
Precedes-prop a b (inr p) (inl q) = absurd (omega arith)
Precedes-prop a b (inr p) (inr q) = ap inr (×_prop (ℕ_set _ _) le_prop p q)

-- The event is due no later than each of the list.
abbrev pub IsLeast : ScheduledEvent → List ScheduledEvent → Type 0
IsLeast event events = (e : ScheduledEvent) → Mem e events → Precedes event e

-- Each event is due no later than those behind it.
abbrev pub IsSorted : List ScheduledEvent → Type 0
IsSorted [] = Unit
IsSorted (e ∷ es) = IsLeast e es × IsSorted es

IsLeast-cons :
    (a b : ScheduledEvent) (es : List ScheduledEvent)
    → Precedes a b
    → IsLeast a es
    → IsLeast a (b ∷ es)
IsLeast-cons a b es p l e m = Or.elim (Precedes-prop a e) (mem-cons.0 m) (λ same. rw same p) (l e)

pub insert_sorted-perm :
    (event : ScheduledEvent) (es : List ScheduledEvent) → Perm (insert_sorted event es) (event ∷ es)
unfolding insert_sorted
insert_sorted-perm event [] = Perm.refl _
insert_sorted-perm event (e ∷ es) = elim (Bool-cases (at_most event e)) [
  | inl first ↦ rw first (Perm.refl _)
  | inr later ↦
      rw later (Perm.trans (Perm.cons e (insert_sorted-perm event es)) (Perm.swap event e es))
]

pub sort-perm : (es : List ScheduledEvent) → Perm (sort es) es
unfolding sort
sort-perm [] = Perm.refl _
sort-perm (e ∷ es) = Perm.trans (insert_sorted-perm e (sort es)) (Perm.cons e (sort-perm es))

insert_sorted-IsSorted :
    (event : ScheduledEvent) (es : List ScheduledEvent)
    → IsSorted es
    → IsSorted (insert_sorted event es)
unfolding insert_sorted
insert_sorted-IsSorted event [] h = (λ e m. absurd (not-mem-nil m), tt)
insert_sorted-IsSorted event (e ∷ es) h = elim (Bool-cases (at_most event e)) [
  | inl first ↦
      let le = at_most→Precedes event e first in
      rw first (IsLeast-cons event e es le (λ x m. Precedes-trans event e x le (h.0 x m)), h)
  | inr later ↦
      let ge = not_at_most→Precedes event e later in
      rw later (
        λ x m. IsLeast-cons e event es ge h.0 x ((Perm.mem_iff (insert_sorted-perm event es)).0 m),
        insert_sorted-IsSorted event es h.1,
      )
]

pub sort-IsSorted : (es : List ScheduledEvent) → IsSorted (sort es)
unfolding sort
sort-IsSorted [] = tt
sort-IsSorted (e ∷ es) = insert_sorted-IsSorted e (sort es) (sort-IsSorted es)

-- Events that precede each other are the same.
abbrev pub IsAntisymmetric : List ScheduledEvent → Type 0
IsAntisymmetric es =
    (a b : ScheduledEvent) → Mem a es → Mem b es → Precedes a b → Precedes b a → a ≡ b

least_head :
    (a b : ScheduledEvent) {xs ys : List ScheduledEvent}
    → Perm (a ∷ xs) (b ∷ ys)
    → IsLeast b ys
    → Precedes b a
least_head a b p l =
    Or.elim (Precedes-prop b a) (mem-cons.0 ((Perm.mem_iff p).0 mem-cons_self))
      (λ same. rw same (Precedes-refl b)) (l a)

-- Of the same events there is one sorted list.
pub sorted_unique :
    (xs ys : List ScheduledEvent)
    → Perm xs ys
    → IsSorted xs
    → IsSorted ys
    → IsAntisymmetric xs
    → xs ≡ ys
sorted_unique [] ys p s t anti = sym (Perm.eq-nil (Perm.symm p))
sorted_unique (a ∷ xs) [] p s t anti = Perm.eq-nil p
sorted_unique (a ∷ xs) (b ∷ ys) p s t anti =
    let there = (Perm.mem_iff (Perm.symm p)).0 mem-cons_self in
    let same : a ≡ b =
      anti a b mem-cons_self there (least_head b a (Perm.symm p) s.0) (least_head a b p t.0) in
    let rest : Perm xs ys = Perm.cons_inv (rw (sym same) at p) in
    let tail =
      sorted_unique xs ys rest s.1 t.1
        (λ x y m n. anti x y (mem-cons_of_mem a m) (mem-cons_of_mem a n)) in
    ap₂ ◌∷◌ same tail

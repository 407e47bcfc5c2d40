-- ===== src/Scheduler/Heap/Sync.antt =====
-- `#positions` is the inverse of `#heap`, and `#swap` keeps it so.
use mathlib.Core.List.Perm
use distlab.Base.{
  ℕ, ◌<◌, ◌≡◌, refl, ◌≢◌, List, Option, some, Perm, length, set, get_or, length-set,
  get_elem?-get_or, get_or-set, set-perm, Text, text_eq, text_eq_iff, Result, ok, ◌==◌,
  if◌then◌else◌, arith,
}
use distlab.Contracts.Events.{ScheduledEvent}
use distlab.Scheduler.Heap.{EventHeap, read, swap, set_position}
use distlab.Scheduler.Heap.Order.{at, nothing, IsHeap}

pub record IsSynced (items : List ScheduledEvent) (positions : Text → Option ℕ) : Type 0 where
  pub recorded : (i : ℕ) → i < length items → positions (at items i).id ≡ some i
  pub located :
      (t : Text) (i : ℕ) → positions t ≡ some i → (i < length items) × ((at items i).id ≡ t)

pub read-ok : (h : EventHeap) (i : ℕ) → i < length h.items → read h i ≡ ok (at h.items i)
unfolding at
read-ok h i p = rw (get_elem?-get_or nothing h.items i p)

pub at-set :
    (items : List ScheduledEvent) (i j : ℕ) (v : ScheduledEvent)
    → i < length items
    → at (set items i v) j ≡ (if i == j then v else at items j)
unfolding at
at-set items i j v h = get_or-set nothing items i j v h

-- What `#swap` leaves.
pub swapped : EventHeap → ℕ → ℕ → EventHeap
swapped h a b = record {
  items = set (set h.items a (at h.items b)) b (at h.items a);
  positions = set_position (set_position h.positions (at h.items a).id b) (at h.items b).id a;
}

module _ (h : EventHeap) (a b : ℕ) (ha : a < length h.items) (hb : b < length h.items) where
  pub swap-ok : swap h a b ≡ ok (swapped h a b)
  unfolding swap swapped
  swap-ok = rw (read-ok h a ha, read-ok h b hb)

  pub length-swapped : length (swapped h a b).items ≡ length h.items
  unfolding swapped
  length-swapped = simp length-set

  pub at-swapped :
      (c : ℕ)
      → at (swapped h a b).items c
        ≡ (if b == c then at h.items a else if a == c then at h.items b else at h.items c)
  unfolding swapped
  at-swapped c = rw (
    at-set (set h.items a (at h.items b)) b c (at h.items a) (rw length-set hb),
    at-set h.items a c (at h.items b) ha,
  )

  pub swapped-perm : Perm (swapped h a b).items h.items
  unfolding swapped at
  swapped-perm =
      let mid = set h.items a (get_or h.items b nothing) in
      let kept : get_or mid b nothing ≡ get_or h.items b nothing =
        ground (arith, get_or-set nothing h.items a b (get_or h.items b nothing)) in
      let second =
        rw kept at (set-perm nothing mid b (get_or h.items a nothing) (rw length-set hb)) in
      Perm.cons_inv (Perm.trans second (set-perm nothing h.items a (get_or h.items b nothing) ha))

  positions-swapped :
      (t : Text)
      → (swapped h a b).positions t ≡ (
          if text_eq (at h.items b).id t
          then some a
          else if text_eq (at h.items a).id t
          then some b
          else h.positions t)
  unfolding swapped
  positions-swapped t = refl

  module _ (v : IsSynced h.items h.positions) (ne : a ≢ b) where
    swapped_recorded :
        (i : ℕ)
        → i < length h.items
        → (swapped h a b).positions (at (swapped h a b).items i).id ≡ some i
    swapped_recorded i p =
        let id = (at (swapped h a b).items i).id in
        ground (
          arith,
          at-swapped i,
          positions-swapped id,
          text_eq_iff (at h.items b).id id,
          text_eq_iff (at h.items a).id id,
          v.recorded i,
          v.recorded a,
          v.recorded b,
        )

    swapped_located :
        (t : Text) (i : ℕ)
        → (swapped h a b).positions t ≡ some i
        → (i < length h.items) × ((at (swapped h a b).items i).id ≡ t)
    swapped_located t i e = ground (
      arith,
      at-swapped i,
      positions-swapped t,
      text_eq_iff (at h.items b).id t,
      text_eq_iff (at h.items a).id t,
      v.located t i,
      v.recorded i,
      v.recorded a,
      v.recorded b,
    )

    pub swapped-IsSynced : IsSynced (swapped h a b).items (swapped h a b).positions
    swapped-IsSynced = record {
      recorded = λ i p. swapped_recorded i (rw length-swapped at p);
      located = λ t i e. rw length-swapped (swapped_located t i e);
    }

-- A sift that returns a heap in order: the same events, their positions up to date.
pub record Sifts (h : EventHeap) (r : Result EventHeap) : Type 0 where
  pub result : EventHeap
  pub returned : r ≡ ok result
  pub ordered : IsHeap result.items
  pub perm : Perm result.items h.items
  pub synced : IsSynced result.items result.positions

pub Sifts-swapped :
    (h : EventHeap) (a b : ℕ) {r : Result EventHeap}
    → a < length h.items
    → b < length h.items
    → Sifts (swapped h a b) r
    → Sifts h r
Sifts-swapped h a b ha hb s = record {
  result = s.result;
  returned = s.returned;
  ordered = s.ordered;
  perm = Perm.trans s.perm (swapped-perm h a b ha hb);
  synced = s.synced;
}

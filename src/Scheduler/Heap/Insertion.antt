-- ===== src/Scheduler/Heap/Insertion.antt =====
-- `#insert` on a well-formed heap, and what the removal shares with it.
use mathlib.Core.List.Perm
use mathlib.Core.List.{perm_middle, append-nil}
use distlab.Base.{
  ℕ, ◌+◌, ◌<◌, ◌≡◌, List, [], ◌∷◌, ◌++◌, none, Perm, length, length-append, get_or-append,
  get_or-append_last, text_eq_iff, ok, arith, Result, ◌==◌, if◌then◌else◌,
}
use distlab.Contracts.Events.{ScheduledEvent}
use distlab.Scheduler.Heap.{EventHeap, parent, insert, set_position}
use distlab.Scheduler.Heap.Order.{at, nothing, UpInv, IsHeap}
use distlab.Scheduler.Heap.Sync.{IsSynced, Sifts}
use distlab.Scheduler.Heap.Up.{up-Sifts}

-- The invariant of `#heap` and `#positions` between calls.
pub record IsWellFormed (h : EventHeap) : Type 0 where
  pub ordered : IsHeap h.items
  pub synced : IsSynced h.items h.positions

at-append :
    (items : List ScheduledEvent) (event : ScheduledEvent) (i : ℕ)
    → i < length items
    → at (items ++ event ∷ []) i ≡ at items i
unfolding at
at-append items event i p = get_or-append nothing items (event ∷ []) i p

at-append_last :
    (items : List ScheduledEvent) (event : ScheduledEvent)
    → at (items ++ event ∷ []) (length items) ≡ event
unfolding at
at-append_last items event = get_or-append_last nothing items event

-- A call that returns a well-formed heap with those events.
pub record Leaves (items : List ScheduledEvent) (r : Result EventHeap) : Type 0 where
  pub heap : EventHeap
  pub returned : r ≡ ok heap
  pub well_formed : IsWellFormed heap
  pub perm : Perm heap.items items

pub Sifts-Leaves : {h : EventHeap} {r : Result EventHeap} → Sifts h r → Leaves h.items r
Sifts-Leaves s = record {
  heap = s.result;
  returned = s.returned;
  well_formed = record { ordered = s.ordered; synced = s.synced };
  perm = s.perm;
}

append_one-perm : (xs : List ScheduledEvent) (x : ScheduledEvent) → Perm (xs ++ x ∷ []) (x ∷ xs)
append_one-perm xs x = rw (append-nil xs) at (perm_middle {a = x} xs [])

-- What `#insert` hands to `#up`.
abbrev pushed : ScheduledEvent → EventHeap → EventHeap
pushed event h = record {
  items = h.items ++ event ∷ [];
  positions = set_position h.positions event.id (length h.items);
}

module _ (event : ScheduledEvent) (h : EventHeap) (w : IsWellFormed h)
    (fresh : h.positions event.id ≡ none) where
  length-pushed : length (pushed event h).items ≡ length h.items + 1
  length-pushed = omega (arith, length-append h.items (event ∷ []))

  at-pushed :
      (i : ℕ)
      → i < length h.items + 1
      → at (pushed event h).items i ≡ (if i == length h.items then event else at h.items i)
  at-pushed i p = ground (arith, at-append h.items event i, at-append_last h.items event)

  pushed-UpInv : UpInv (pushed event h).items (length h.items)
  pushed-UpInv = record {
    inside = omega (arith, length-pushed);
    edges = λ c p q ne.
        let q' : c < length h.items + 1 = omega (arith, length-pushed) in
        ground (arith, at-pushed c q', at-pushed (parent c), w.ordered c);
    bridged = λ c p q e r. absurd (omega (arith, length-pushed));
  }

  pushed-IsSynced : IsSynced (pushed event h).items (pushed event h).positions
  pushed-IsSynced = record {
    recorded = λ i p.
        let p' : i < length h.items + 1 = omega (arith, length-pushed) in
        ground (
          arith,
          at-pushed i p',
          text_eq_iff event.id (at (pushed event h).items i).id,
          w.synced.recorded i,
        );
    located = λ t i e.
        ground (arith, at-pushed i, length-pushed, text_eq_iff event.id t, w.synced.located t i);
  }

  -- Inserting an event into a well-formed heap, in which its identity has no position, succeeds: it
  -- leaves a well-formed heap of the old events and the new one.
  pub insert-Leaves : Leaves (event ∷ h.items) (insert event h)
  unfolding insert
  insert-Leaves =
      let s =
        Sifts-Leaves (up-Sifts (length h.items) (pushed event h) pushed-UpInv pushed-IsSynced) in
      record {
        heap = s.heap;
        returned = s.returned;
        well_formed = s.well_formed;
        perm = Perm.trans s.perm (append_one-perm h.items event);
      }

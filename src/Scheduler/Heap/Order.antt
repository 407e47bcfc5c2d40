-- ===== src/Scheduler/Heap/Order.antt =====
-- The order of events and the heap order, for statements about `#heap`.
use distlab.Base.{
  ℕ, zero, suc, ◌≤◌, ◌<◌, ◌≡◌, ◌⊎◌, ◌≢◌, List, none, [], true, false, get_or, length, arith,
}
use distlab.Values.{null}
use distlab.Contracts.Events.{ScheduledEvent}
use distlab.Scheduler.Heap.{at_most, below, parent}

-- `a` is due no later than `b`: by time, then by sequence number.
unfoldable pub Precedes : ScheduledEvent → ScheduledEvent → Type 0
Precedes a b = (a.time < b.time) ⊎ ((a.time ≡ b.time) × (a.sequence ≤ b.sequence))

pub Precedes-refl : (a : ScheduledEvent) → Precedes a a
unfolding Precedes
Precedes-refl a = ground arith

pub Precedes-trans : (a b c : ScheduledEvent) → Precedes a b → Precedes b c → Precedes a c
unfolding Precedes
Precedes-trans a b c p q = ground arith

pub at_most→Precedes : (a b : ScheduledEvent) → at_most a b ≡ true → Precedes a b
unfolding Precedes
at_most→Precedes a b h = ground arith

pub not_at_most→Precedes : (a b : ScheduledEvent) → at_most a b ≡ false → Precedes b a
unfolding Precedes
not_at_most→Precedes a b h = ground arith

pub Precedes→at_most : (a b : ScheduledEvent) → Precedes a b → at_most a b ≡ true
unfolding Precedes
Precedes→at_most a b h = ground arith

pub below→Precedes : (a b : ScheduledEvent) → below a b ≡ true → Precedes a b
unfolding Precedes
below→Precedes a b h = ground arith

pub not_below→Precedes : (a b : ScheduledEvent) → below a b ≡ false → Precedes b a
unfolding Precedes
not_below→Precedes a b h = ground arith

-- Stands past the end of a list in statements.
abbrev pub nothing : ScheduledEvent
nothing = record {
  draft = record {
    metadata = record {
      source = none;
      target = none;
      trace_id = none;
      span_id = none;
      parent_span_id = none;
      causation_id = none;
    };
    time = 0;
    type = [];
    payload = null;
  };
  id = [];
  sequence = 0;
}

-- Shut, so that the tactics take it for an unknown.
unfoldable pub at : List ScheduledEvent → ℕ → ScheduledEvent
at items i = get_or items i nothing

-- No event is due before its parent in the tree.
abbrev pub IsHeap : List ScheduledEvent → Type 0
IsHeap items = (c : ℕ) → 0 < c → c < length items → Precedes (at items (parent c)) (at items c)

-- The edges past `i`, from its parent to its children, are in order.
abbrev pub IsBridged : List ScheduledEvent → ℕ → Type 0
IsBridged items i =
    (c : ℕ)
    → 0 < c
    → c < length items
    → parent c ≡ i
    → 0 < i
    → Precedes (at items (parent i)) (at items c)

-- Every edge but the one above `i` is in order.
pub record UpInv (items : List ScheduledEvent) (i : ℕ) : Type 0 where
  pub inside : i < length items
  pub edges :
      (c : ℕ) → 0 < c → c < length items → c ≢ i → Precedes (at items (parent c)) (at items c)
  pub bridged : IsBridged items i

-- Every edge but those below `i` is in order.
pub record DownInv (items : List ScheduledEvent) (i : ℕ) : Type 0 where
  pub edges :
      (c : ℕ)
      → 0 < c
      → c < length items
      → parent c ≢ i
      → Precedes (at items (parent c)) (at items c)
  pub bridged : IsBridged items i

least_below :
    (k : ℕ) (items : List ScheduledEvent) (i : ℕ)
    → IsHeap items
    → i < k
    → i < length items
    → Precedes (at items 0) (at items i)
least_below zero items i h f p = absurd (omega arith)
least_below (suc k) items zero h f p = Precedes-refl _
least_below (suc k) items (suc i) h f p =
    Precedes-trans (at items 0) (at items (parent (suc i))) (at items (suc i))
      (least_below k items (parent (suc i)) h (omega arith) (omega arith))
      (h (suc i) (omega arith) p)

-- The root is due first.
pub root_least :
    (items : List ScheduledEvent) (i : ℕ)
    → IsHeap items
    → i < length items
    → Precedes (at items 0) (at items i)
root_least items i h p = least_below (suc i) items i h (omega arith) p

pub IsHeap-DownInv : (items : List ScheduledEvent) (i : ℕ) → IsHeap items → DownInv items i
IsHeap-DownInv items i h = record {
  edges = λ c p q _. h c p q;
  bridged = λ c p q e r.
      Precedes-trans (at items (parent i)) (at items i) (at items c) (h i r (omega arith))
        (ground (arith, h c));
}

-- ===== src/Scheduler/Heap/Removal.antt =====
-- `#remove` on a well-formed heap.
use mathlib.Core.List.Perm
use mathlib.Core.List.{Mem, Memᴰ, mem-cons_self, mem-cons_of_mem}
use mathlib.Core.Logic.{∥∥₁_elim}
use mathlib.Core.HLevel.{⊥_prop}
use distlab.Base.{
  ℕ, zero, suc, ◌+◌, ◌-◌, ◌<◌, ◌≡◌, refl, sym, false, inl, inr, List, [], ◌∷◌, some, Option-cases,
  Perm, length, length-set, length-drop_last, drop_last, set, get_or-drop_last, set-perm, last-perm,
  get_or, text_eq_iff, text_eq_refl, ok, ltb, lt→ltb, ltb→lt, Bool-cases, arith, Result, ◌==◌,
  if◌then◌else◌,
}
use distlab.Contracts.Events.{ScheduledEvent}
use distlab.Scheduler.Heap.{
  EventHeap, at_most, parent, remove, refill, set_position, delete_position,
}
use distlab.Scheduler.Heap.Order.{
  Precedes, Precedes-trans, at_most→Precedes, not_at_most→Precedes, at, nothing, UpInv, DownInv,
  IsHeap-DownInv,
}
use distlab.Scheduler.Heap.Sync.{IsSynced, read-ok, at-set}
use distlab.Scheduler.Heap.Up.{up-Sifts, up_stays}
use distlab.Scheduler.Heap.Down.{down-Sifts}
use distlab.Scheduler.Heap.Insertion.{IsWellFormed, Leaves, Sifts-Leaves}

at-drop_last :
    (items : List ScheduledEvent) (i : ℕ)
    → i + 1 < length items
    → at (drop_last items) i ≡ at items i
unfolding at
at-drop_last items i p = get_or-drop_last nothing items i p

-- An event of the list stands at some place.
pub Memᴰ-at :
    {event : ScheduledEvent} {items : List ScheduledEvent}
    → Memᴰ event items
    → (i : ℕ) × (i < length items) × (at items i ≡ event)
unfolding at get_or
Memᴰ-at (Memᴰ.head e) = (0, omega arith, sym e)
Memᴰ-at (Memᴰ.tail m) = let (i, p, e) = Memᴰ-at m in (suc i, omega arith, e)

pub mem-at : (items : List ScheduledEvent) (i : ℕ) → i < length items → Mem (at items i) items
unfolding at get_or
mem-at [] i p = elim p [ ]
mem-at (x ∷ items) zero p = mem-cons_self
mem-at (x ∷ items) (suc i) p = mem-cons_of_mem x (mem-at items i (omega arith))

-- Positions are known for every event of a synced heap.
pub mem_located :
    (h : EventHeap) (event : ScheduledEvent)
    → IsSynced h.items h.positions
    → Mem event h.items
    → (i : ℕ) × (h.positions event.id ≡ some i)
mem_located h event y m = elim (Option-cases (h.positions event.id)) [
  | inr found ↦ found
  | inl absent ↦ absurd (
      ∥∥₁_elim m ⊥_prop (λ d.
        let (i, p, e) = Memᴰ-at d in
        let known : h.positions event.id ≡ some i = rw e at (y.recorded i p) in cc))
]

-- The last event, put in place of the one that leaves.
module _ (h : EventHeap) (w : IsWellFormed h) (k i : ℕ) (size : length h.items ≡ suc k)
    (p : i < k) where
  abbrev removed : ScheduledEvent
  removed = at h.items i

  abbrev last : ScheduledEvent
  last = at h.items k

  abbrev rest : EventHeap
  rest = record { items = drop_last h.items; positions = delete_position h.positions removed.id }

  abbrev moved : EventHeap
  moved = record {
    items = set rest.items i last;
    positions = set_position rest.positions last.id i;
  }

  length-rest : length rest.items ≡ k
  length-rest = omega (arith, length-drop_last h.items)

  length-moved : length moved.items ≡ k
  length-moved = omega (arith, length-set rest.items i last, length-rest)

  at-moved : (c : ℕ) → c < k → at moved.items c ≡ (if i == c then last else at h.items c)
  at-moved c q = ground (
    arith,
    at-set rest.items i c last (omega (arith, length-rest)),
    at-drop_last h.items c (omega arith),
  )

  moved-IsSynced : IsSynced moved.items moved.positions
  moved-IsSynced = record {
    recorded = λ c q.
        let q' : c < k = omega (arith, length-moved) in
        let id = (at moved.items c).id in
        ground (
          arith,
          at-moved c q',
          text_eq_iff last.id id,
          text_eq_iff removed.id id,
          w.synced.recorded c,
          w.synced.recorded i,
          w.synced.recorded k,
        );
    located = λ t c e. ground (
      arith,
      at-moved c,
      length-moved,
      text_eq_iff last.id t,
      text_eq_iff removed.id t,
      w.synced.located t c,
      w.synced.recorded i,
      w.synced.recorded k,
    );
  }

  moved_bridge :
      (c : ℕ)
      → 0 < c
      → c < k
      → parent c ≡ i
      → 0 < i
      → Precedes (at h.items (parent i)) (at h.items c)
  moved_bridge c q r e s =
      Precedes-trans (at h.items (parent i)) removed (at h.items c) (w.ordered i s (omega arith))
        (ground (arith, w.ordered c))

  moved-DownInv : (0 < i → Precedes (at h.items (parent i)) last) → DownInv moved.items i
  moved-DownInv settled = record {
    edges = λ c q r ne.
        let r' : c < k = omega (arith, length-moved) in
        ground (arith, at-moved c r', at-moved (parent c), w.ordered c, settled);
    bridged = λ c q r e s.
        let r' : c < k = omega (arith, length-moved) in
        ground (arith, at-moved c r', at-moved (parent i), moved_bridge c);
  }

  moved-UpInv : Precedes last (at h.items (parent i)) → 0 < i → UpInv moved.items i
  moved-UpInv low pos = record {
    inside = omega (arith, length-moved);
    edges = λ c q r ne.
        let r' : c < k = omega (arith, length-moved) in
        ground (
          arith,
          at-moved c r',
          at-moved (parent c),
          w.ordered c,
          moved_bridge c,
          Precedes-trans last (at h.items (parent i)) (at h.items c),
        );
    bridged = λ c q r e s.
        let r' : c < k = omega (arith, length-moved) in
        ground (arith, at-moved c r', at-moved (parent i), moved_bridge c);
  }

  moved-perm : Perm (removed ∷ moved.items) h.items
  unfolding at
  moved-perm =
      let place : at rest.items i ≡ removed = at-drop_last h.items i (omega arith) in
      let write = set-perm nothing rest.items i last (omega (arith, length-rest)) in
      Perm.trans (rw place at write) (last-perm nothing h.items k size)

  -- the replacement may rise
  refill_rises :
      Precedes last (at h.items (parent i)) → 0 < i → Leaves moved.items (refill i last rest)
  unfolding refill
  refill_rises low pos =
      let s = up-Sifts i moved (moved-UpInv low pos) moved-IsSynced in
      let there : at moved.items i ≡ last = ground (arith, at-moved i p) in
      let (j, found) = mem_located s.result last s.synced (
        (Perm.mem_iff (Perm.symm s.perm)).0
          (rw there at (mem-at moved.items i (omega (arith, length-moved))))) in
      let d = Sifts-Leaves (down-Sifts j s.result (IsHeap-DownInv _ j s.ordered) s.synced) in
      rw (lt→ltb i (length rest.items) (omega (arith, length-rest)), s.returned, found)
        (record {
          heap = d.heap;
          returned = d.returned;
          well_formed = d.well_formed;
          perm = Perm.trans d.perm s.perm;
        })

  -- or stay or sink
  refill_sinks :
      (0 < i → Precedes (at h.items (parent i)) last) → Leaves moved.items (refill i last rest)
  unfolding refill
  refill_sinks settled =
      let stays =
        up_stays i moved (omega (arith, length-moved))
          (λ pos. ground (arith, at-moved i p, at-moved (parent i), settled pos)) in
      rw (lt→ltb i (length rest.items) (omega (arith, length-rest)), stays, text_eq_refl last.id)
        (Sifts-Leaves (down-Sifts i moved (moved-DownInv settled) moved-IsSynced))

  refill-Leaves : Leaves moved.items (refill i last rest)
  refill-Leaves = elim (Bool-cases (ltb 0 i)) [
    | inr root ↦ refill_sinks (λ pos. absurd (ground arith))
    | inl pos ↦ elim (Bool-cases (at_most (at h.items (parent i)) last)) [
      | inl settled ↦ refill_sinks (λ _. at_most→Precedes _ _ settled)
      | inr low ↦ refill_rises (not_at_most→Precedes _ _ low) (ltb→lt _ _ pos)
    ]
  ]

-- The last event leaves: nothing is moved.
module _ (h : EventHeap) (w : IsWellFormed h) (k : ℕ) (size : length h.items ≡ suc k) where
  abbrev shorter : EventHeap
  shorter = record {
    items = drop_last h.items;
    positions = delete_position h.positions (at h.items k).id;
  }

  length-shorter : length shorter.items ≡ k
  length-shorter = omega (arith, length-drop_last h.items)

  shorter-IsWellFormed : IsWellFormed shorter
  shorter-IsWellFormed = record {
    ordered = λ c q r.
        let r' : c < k = omega (arith, length-shorter) in
        ground (arith, at-drop_last h.items c, at-drop_last h.items (parent c), w.ordered c);
    synced = record {
      recorded = λ c q.
          let q' : c < k = omega (arith, length-shorter) in
          ground (
            arith,
            at-drop_last h.items c,
            text_eq_iff (at h.items k).id (at shorter.items c).id,
            w.synced.recorded c,
            w.synced.recorded k,
          );
      located = λ t c e. ground (
        arith,
        at-drop_last h.items c,
        length-shorter,
        text_eq_iff (at h.items k).id t,
        w.synced.located t c,
        w.synced.recorded k,
      );
    };
  }

  shorter-perm : Perm (at h.items k ∷ shorter.items) h.items
  unfolding at
  shorter-perm = last-perm nothing h.items k size

-- What `#remove(index)` returns on a well-formed heap: the event that stood there, and a well-formed
-- heap of the others.
pub record Removes (h : EventHeap) (index : ℕ) (r : Result (ScheduledEvent × EventHeap))
    : Type 0 where
  pub heap : EventHeap
  pub returned : r ≡ ok (at h.items index, heap)
  pub well_formed : IsWellFormed heap
  pub perm : Perm (at h.items index ∷ heap.items) h.items

remove_inner :
    (h : EventHeap) (w : IsWellFormed h) (k i : ℕ)
    → length h.items ≡ suc k
    → i < k
    → Removes h i (remove i h)
unfolding remove
remove_inner h w k i size p =
    let l = refill-Leaves h w k i size p in
    let e : length h.items - 1 ≡ k = omega arith in
    rw (read-ok h i (omega arith), e, read-ok h k (omega arith), l.returned)
      (record {
        heap = l.heap;
        returned = refl;
        well_formed = l.well_formed;
        perm = Perm.trans (Perm.cons _ l.perm) (moved-perm h w k i size p);
      })

remove_last :
    (h : EventHeap) (w : IsWellFormed h) (k : ℕ) → length h.items ≡ suc k → Removes h k (remove k h)
unfolding remove refill
remove_last h w k size =
    let e : length h.items - 1 ≡ k = omega arith in
    let out : ltb k (length (drop_last h.items)) ≡ false =
      ground (arith, length-drop_last h.items) in
    rw (read-ok h k (omega arith), e, read-ok h k (omega arith), out)
      (record {
        heap = shorter h w k size;
        returned = refl;
        well_formed = shorter-IsWellFormed h w k size;
        perm = shorter-perm h w k size;
      })

-- Removing a place inside a well-formed heap succeeds: it returns the event that stood there and leaves
-- the other events, as a permutation, in a well-formed heap.
pub remove-Removes :
    (h : EventHeap) (index : ℕ)
    → IsWellFormed h
    → index < length h.items
    → Removes h index (remove index h)
remove-Removes h index w p =
    let size : length h.items ≡ suc (length h.items - 1) = omega arith in
    elim (Bool-cases (ltb index (length h.items - 1))) [
      | inl inner ↦ remove_inner h w (length h.items - 1) index size (ground arith)
      | inr out ↦
          let e : index ≡ length h.items - 1 = ground arith in
          rw e (remove_last h w (length h.items - 1) size)
    ]

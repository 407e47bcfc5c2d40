-- ===== src/Scheduler/Heap/Down.antt =====
-- `#down` brings a heap with one event too high in the tree into order.
use mathlib.Core.List.Perm
use distlab.Base.{
  ℕ, zero, suc, ◌+◌, ◌-◌, ◌*◌, ◌≤◌, ◌<◌, ◌≡◌, refl, ◌⊎◌, ◌≢◌, inl, inr, List, length, ok, ltb,
  ltb→lt, Bool-cases, arith, Result,
}
use distlab.Contracts.Events.{ScheduledEvent}
use distlab.Scheduler.Heap.{EventHeap, at_most, below, parent, smaller_child, down_loop, down}
use distlab.Scheduler.Heap.Order.{
  Precedes, Precedes-refl, Precedes-trans, at_most→Precedes, not_at_most→Precedes, below→Precedes,
  not_below→Precedes, at, DownInv, IsHeap,
}
use distlab.Scheduler.Heap.Sync.{
  IsSynced, Sifts, Sifts-swapped, read-ok, swap-ok, swapped, length-swapped, at-swapped,
  swapped-IsSynced,
}

-- `m` is the child of `i` that is due first.
record IsSmallerChild (items : List ScheduledEvent) (i m : ℕ) : Type 0 where
  inside : m < length items
  child : (m ≡ i * 2 + 1) ⊎ (m ≡ i * 2 + 2)
  least : (c : ℕ) → 0 < c → c < length items → parent c ≡ i → Precedes (at items m) (at items c)

record Picks (h : EventHeap) (i : ℕ) (r : Result ℕ) : Type 0 where
  place : ℕ
  returned : r ≡ ok place
  smaller : IsSmallerChild h.items i place

only_child :
    (items : List ScheduledEvent) (i : ℕ)
    → i * 2 + 1 < length items
    → length items ≤ i * 2 + 2
    → IsSmallerChild items i (i * 2 + 1)
only_child items i p q = record {
  inside = p;
  child = inl refl;
  least = λ c a b e.
      let same : c ≡ i * 2 + 1 = omega arith in rw same (Precedes-refl (at items (i * 2 + 1)));
}

module _ (items : List ScheduledEvent) (i : ℕ) (two : i * 2 + 2 < length items) where
  left_child :
      Precedes (at items (i * 2 + 1)) (at items (i * 2 + 2)) → IsSmallerChild items i (i * 2 + 1)
  left_child le = record {
    inside = omega arith;
    child = inl refl;
    least = λ c a b e. elim (children c a e) [
      | inl same ↦ rw same (Precedes-refl (at items (i * 2 + 1)))
      | inr same ↦ rw same le
    ];
  }
    where
      children : (c : ℕ) → 0 < c → parent c ≡ i → (c ≡ i * 2 + 1) ⊎ (c ≡ i * 2 + 2)
      children c a e = grind arith

  right_child :
      Precedes (at items (i * 2 + 2)) (at items (i * 2 + 1)) → IsSmallerChild items i (i * 2 + 2)
  right_child le = record {
    inside = two;
    child = inr refl;
    least = λ c a b e. elim (children c a e) [
      | inl same ↦ rw same le
      | inr same ↦ rw same (Precedes-refl (at items (i * 2 + 2)))
    ];
  }
    where
      children : (c : ℕ) → 0 < c → parent c ≡ i → (c ≡ i * 2 + 1) ⊎ (c ≡ i * 2 + 2)
      children c a e = grind arith

smaller_child-Picks :
    (h : EventHeap) (i : ℕ) → i * 2 + 1 < length h.items → Picks h i (smaller_child h i)
unfolding smaller_child
smaller_child-Picks h i p = elim (Bool-cases (ltb (i * 2 + 1 + 1) (length h.items))) [
  | inr one ↦ rw one (record {
    place = i * 2 + 1;
    returned = refl;
    smaller = only_child h.items i p (ground arith);
  })
  | inl both ↦
      let two : i * 2 + 2 < length h.items = ground arith in
      let e : i * 2 + 1 + 1 ≡ i * 2 + 2 = omega arith in
      let right = at h.items (i * 2 + 2) in
      let left = at h.items (i * 2 + 1) in
      rw (both, e, read-ok h (i * 2 + 2) two, read-ok h (i * 2 + 1) p)
        (elim (Bool-cases (below right left)) [
          | inl lower ↦ rw lower (record {
            place = i * 2 + 2;
            returned = refl;
            smaller = right_child h.items i two (below→Precedes right left lower);
          })
          | inr higher ↦ rw higher (record {
            place = i * 2 + 1;
            returned = refl;
            smaller = left_child h.items i two (not_below→Precedes right left higher);
          })
        ])
]

module _ (h : EventHeap) (i m : ℕ) (v : DownInv h.items i) (s : IsSmallerChild h.items i m)
    (low : Precedes (at h.items m) (at h.items i)) where
  inner : i < length h.items
  inner = omega (arith, s.inside, s.child)

  swapped_edge :
      (c : ℕ)
      → 0 < c
      → c < length h.items
      → parent c ≢ m
      → Precedes (at (swapped h i m).items (parent c)) (at (swapped h i m).items c)
  swapped_edge c p q ne =
      let moved = at-swapped h i m inner s.inside in
      ground
        (arith, moved c, moved (parent c), v.edges c, v.bridged m, v.bridged c, s.least c, s.child)

  swapped_bridge :
      (c : ℕ)
      → 0 < c
      → c < length h.items
      → parent c ≡ m
      → 0 < m
      → Precedes (at (swapped h i m).items (parent m)) (at (swapped h i m).items c)
  swapped_bridge c p q e r =
      let moved = at-swapped h i m inner s.inside in
      ground (arith, moved c, moved (parent m), v.edges c, s.child)

  swapped-DownInv : DownInv (swapped h i m).items m
  swapped-DownInv =
      let size = length-swapped h i m inner s.inside in
      record {
        edges = λ c p q. swapped_edge c p (rw size at q);
        bridged = λ c p q. swapped_bridge c p (rw size at q);
      }

leaf_IsHeap :
    (items : List ScheduledEvent) (i : ℕ)
    → DownInv items i
    → length items ≤ i * 2 + 1
    → IsHeap items
leaf_IsHeap items i v f c p q = v.edges c p q (omega arith)

settled_IsHeap :
    (items : List ScheduledEvent) (i m : ℕ)
    → DownInv items i
    → IsSmallerChild items i m
    → Precedes (at items i) (at items m)
    → IsHeap items
settled_IsHeap items i m v s le c p q =
    ground (arith, v.edges c, s.least c, Precedes-trans (at items i) (at items m) (at items c))

pub down_loop-Sifts :
    (fuel i : ℕ) (h : EventHeap)
    → length h.items - i ≤ fuel
    → DownInv h.items i
    → IsSynced h.items h.positions
    → Sifts h (down_loop fuel i h)
unfolding down_loop
down_loop-Sifts zero i h f v y = record {
  result = h;
  returned = refl;
  ordered = leaf_IsHeap h.items i v (omega arith);
  perm = Perm.refl h.items;
  synced = y;
}
down_loop-Sifts (suc fuel) i h f v y = elim (Bool-cases (ltb (i * 2 + 1) (length h.items))) [
  | inr leaf ↦ rw leaf (record {
    result = h;
    returned = refl;
    ordered = leaf_IsHeap h.items i v (ground arith);
    perm = Perm.refl h.items;
    synced = y;
  })
  | inl inside ↦
      let p : i * 2 + 1 < length h.items = ltb→lt _ _ inside in
      let here : i < length h.items = omega (arith, p) in
      let pick = smaller_child-Picks h i p in
      let m = pick.place in
      let s = pick.smaller in
      rw (inside, pick.returned, read-ok h i here, read-ok h m s.inside)
        (elim (Bool-cases (at_most (at h.items i) (at h.items m))) [
          | inl settled ↦ rw settled (record {
            result = h;
            returned = refl;
            ordered = settled_IsHeap h.items i m v s (at_most→Precedes _ _ settled);
            perm = Perm.refl h.items;
            synced = y;
          })
          | inr sinks ↦
              let low = not_at_most→Precedes (at h.items i) (at h.items m) sinks in
              rw (sinks, swap-ok h i m here s.inside)
                (Sifts-swapped h i m here s.inside (
                  down_loop-Sifts fuel m (swapped h i m)
                    (omega (arith, length-swapped h i m here s.inside, s.child))
                    (swapped-DownInv h i m v s low)
                    (swapped-IsSynced h i m here s.inside y (omega (arith, s.child)))))
        ])
]

pub down-Sifts :
    (i : ℕ) (h : EventHeap) → DownInv h.items i → IsSynced h.items h.positions → Sifts h (down i h)
unfolding down
down-Sifts i h v y = down_loop-Sifts (length h.items) i h (omega arith) v y

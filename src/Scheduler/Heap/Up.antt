-- ===== src/Scheduler/Heap/Up.antt =====
-- `#up` brings a heap with one event too low in the tree into order.
use mathlib.Core.List.Perm
use distlab.Base.{
  ℕ, zero, suc, ◌<◌, ◌≡◌, refl, ◌≢◌, true, inl, inr, List, length, ok, ltb, lt→ltb, Bool-cases,
  arith,
}
use distlab.Contracts.Events.{ScheduledEvent}
use distlab.Scheduler.Heap.{EventHeap, at_most, parent, up_loop, up}
use distlab.Scheduler.Heap.Order.{
  Precedes, Precedes-trans, at_most→Precedes, not_at_most→Precedes, Precedes→at_most, at, UpInv,
  IsHeap,
}
use distlab.Scheduler.Heap.Sync.{
  IsSynced, Sifts, Sifts-swapped, read-ok, swap-ok, swapped, length-swapped, at-swapped,
  swapped-IsSynced,
}

module _ (h : EventHeap) (i : ℕ) (v : UpInv h.items i) (pos : 0 < i)
    (low : Precedes (at h.items i) (at h.items (parent i))) where
  above : parent i < length h.items
  above = omega (arith, v.inside)

  swapped_edge :
      (c : ℕ)
      → 0 < c
      → c < length h.items
      → c ≢ parent i
      → Precedes
          (at (swapped h (parent i) i).items (parent c))
          (at (swapped h (parent i) i).items c)
  swapped_edge c p q ne =
      let this = at h.items i in
      let over = at h.items (parent i) in
      let moved = at-swapped h (parent i) i above v.inside in
      ground (
        arith,
        moved c,
        moved (parent c),
        v.edges c,
        v.bridged c,
        Precedes-trans this over (at h.items c),
      )

  swapped_bridge :
      (c : ℕ)
      → 0 < c
      → c < length h.items
      → parent c ≡ parent i
      → 0 < parent i
      → Precedes
          (at (swapped h (parent i) i).items (parent (parent i)))
          (at (swapped h (parent i) i).items c)
  swapped_bridge c p q e r =
      let moved = at-swapped h (parent i) i above v.inside in
      let top = at h.items (parent (parent i)) in
      ground (
        arith,
        moved c,
        moved (parent (parent i)),
        v.edges c,
        v.edges (parent i),
        Precedes-trans top (at h.items (parent i)) (at h.items c),
      )

  swapped-UpInv : UpInv (swapped h (parent i) i).items (parent i)
  swapped-UpInv =
      let size = length-swapped h (parent i) i above v.inside in
      record {
        inside = rw size above;
        edges = λ c p q. swapped_edge c p (rw size at q);
        bridged = λ c p q. swapped_bridge c p (rw size at q);
      }

root_IsHeap :
    (items : List ScheduledEvent) (i : ℕ)
    → UpInv items i
    → (0 < i → Precedes (at items (parent i)) (at items i))
    → IsHeap items
root_IsHeap items i v settled c p q = ground (arith, v.edges c, settled)

pub up_loop-Sifts :
    (fuel i : ℕ) (h : EventHeap)
    → i < fuel
    → UpInv h.items i
    → IsSynced h.items h.positions
    → Sifts h (up_loop fuel i h)
unfolding up_loop
up_loop-Sifts zero i h f v y = elim f [ ]
up_loop-Sifts (suc fuel) zero h f v y = record {
  result = h;
  returned = refl;
  ordered = root_IsHeap h.items zero v (λ p. absurd (omega arith));
  perm = Perm.refl h.items;
  synced = y;
}
up_loop-Sifts (suc fuel) (suc j) h f v y =
    let i = suc j in
    let inner : parent i < length h.items = omega (arith, v.inside) in
    let test : ltb 0 i ≡ true = lt→ltb 0 i (omega arith) in
    elim (Bool-cases (at_most (at h.items (parent i)) (at h.items i))) [
      | inl settled ↦
          rw (test, read-ok h (parent i) inner, read-ok h i v.inside, settled)
            (record {
              result = h;
              returned = refl;
              ordered = root_IsHeap h.items i v (λ _. at_most→Precedes _ _ settled);
              perm = Perm.refl h.items;
              synced = y;
            })
      | inr rises ↦
          let low = not_at_most→Precedes (at h.items (parent i)) (at h.items i) rises in
          rw
            (
              test,
              read-ok h (parent i) inner,
              read-ok h i v.inside,
              rises,
              swap-ok h (parent i) i inner v.inside,
            )
            (Sifts-swapped h (parent i) i inner v.inside (
              up_loop-Sifts fuel (parent i) (swapped h (parent i) i) (omega arith)
                (swapped-UpInv h i v (omega arith) low)
                (swapped-IsSynced h (parent i) i inner v.inside y (omega arith))))
    ]

pub up-Sifts :
    (i : ℕ) (h : EventHeap) → UpInv h.items i → IsSynced h.items h.positions → Sifts h (up i h)
unfolding up
up-Sifts i h v y = up_loop-Sifts (suc i) i h (omega arith) v y

-- An event that is not due before its parent stays where it is.
pub up_stays :
    (i : ℕ) (h : EventHeap)
    → i < length h.items
    → (0 < i → Precedes (at h.items (parent i)) (at h.items i))
    → up i h ≡ ok h
unfolding up up_loop
up_stays zero h p settled = refl
up_stays (suc j) h p settled =
    let i = suc j in
    let order = Precedes→at_most (at h.items (parent i)) (at h.items i) (settled (omega arith)) in
    rw (lt→ltb 0 i (omega arith), read-ok h (parent i) (omega (arith, p)), read-ok h i p, order)

-- ===== src/Scheduler/Heap.antt =====
-- packages/kernel/src/scheduler.ts: the binary heap of pending events, `#heap` and `#positions`, and
-- the private methods that write both. A read past the end is `undefined`, whose use is a TypeError.
pub mod Order
pub mod Sync
pub mod Up
pub mod Down
pub mod Insertion
pub mod Removal
use Prim.Native.Nat.{compare, Ordering}
use distlab.Base.{
  ℕ, zero, suc, ◌+◌, ◌-◌, ◌*◌, ◌/◌, Bool, true, false, ◌&&◌, Option, none, some, List, [], ◌∷◌,
  ◌++◌, length, get_elem?, set, drop_last, Text, text_eq, Result, ok, type_error, bind, ltb,
  if◌then◌else◌,
}
use distlab.Contracts.Events.{ScheduledEvent}

-- `a.time - b.time || a.sequence - b.sequence`, by its sign
abbrev pub compare_events : ScheduledEvent → ScheduledEvent → Ordering
compare_events a b = elim (compare a.time b.time) [
  | Ordering.eq ↦ compare a.sequence b.sequence
  | other ↦ other
]

-- `compare(a, b) <= 0`
abbrev pub at_most : ScheduledEvent → ScheduledEvent → Bool
at_most a b = elim (compare_events a b) [ Ordering.gt ↦ false | _ ↦ true ]

-- `compare(a, b) < 0`
abbrev pub below : ScheduledEvent → ScheduledEvent → Bool
below a b = elim (compare_events a b) [ Ordering.lt ↦ true | _ ↦ false ]

pub record EventHeap : Type 0 where
  pub items : List ScheduledEvent
  pub positions : Text → Option ℕ

abbrev pub empty_heap : EventHeap
empty_heap = record { items = []; positions = λ _. none }

-- `#positions.set(id, i)` and `#positions.delete(id)`
abbrev pub set_position : (Text → Option ℕ) → Text → ℕ → Text → Option ℕ
set_position positions id i other = if text_eq id other then some i else positions other

abbrev pub delete_position : (Text → Option ℕ) → Text → Text → Option ℕ
delete_position positions id other = if text_eq id other then none else positions other

abbrev pub or_type_error : {A : Type 0} → Option A → Result A
or_type_error none = type_error
or_type_error (some a) = ok a

-- `this.#heap[i]!`
abbrev pub read : EventHeap → ℕ → Result ScheduledEvent
read h i = or_type_error (get_elem? h.items i)

abbrev pub parent : ℕ → ℕ
parent i = (i - 1) / 2

unfoldable pub swap : EventHeap → ℕ → ℕ → Result EventHeap
swap h a b = bind (read h a) λ first. bind (read h b) λ second. ok (record h {
  items = set (set h.items a second) b first;
  positions = set_position (set_position h.positions first.id b) second.id a;
})

-- A loop that has spent its fuel stays where it is.
unfoldable pub up_loop : ℕ → ℕ → EventHeap → Result EventHeap
up_loop zero index h = ok h
up_loop (suc fuel) index h =
    let rise = bind (swap h (parent index) index) (up_loop fuel (parent index)) in
    let step =
      bind (read h (parent index))
        λ above. bind (read h index) λ this. if at_most above this then ok h else rise in
    if ltb 0 index then step else ok h

unfoldable pub up : ℕ → EventHeap → Result EventHeap
unfolding up_loop swap
up index h = up_loop (suc index) index h

-- the smaller child: the right one only if it exists
unfoldable pub smaller_child : EventHeap → ℕ → Result ℕ
smaller_child h index =
    let child = index * 2 + 1 in
    if ltb (child + 1) (length h.items)
    then bind (read h (child + 1))
        (λ right. bind (read h child) λ left. ok (if below right left then child + 1 else child))
    else ok child

unfoldable pub down_loop : ℕ → ℕ → EventHeap → Result EventHeap
down_loop zero index h = ok h
down_loop (suc fuel) index h =
    let step = bind (smaller_child h index) λ child. bind (read h index) λ this.
      bind (read h child) λ low.
        let sink = bind (swap h index child) (down_loop fuel child) in
        if at_most this low then ok h else sink in
    if ltb (index * 2 + 1) (length h.items) then step else ok h

unfoldable pub down : ℕ → EventHeap → Result EventHeap
unfolding down_loop smaller_child swap
down index h = down_loop (length h.items) index h

unfoldable pub insert : ScheduledEvent → EventHeap → Result EventHeap
unfolding up
insert event h =
    let index = length h.items in
    up index (record {
      items = h.items ++ event ∷ [];
      positions = set_position h.positions event.id index;
    })

-- The tail of `#remove`, once `last` has been popped.
unfoldable pub refill : ℕ → ScheduledEvent → EventHeap → Result EventHeap
unfolding up down
refill index last h =
    let moved : EventHeap = record {
      items = set h.items index last;
      positions = set_position h.positions last.id index;
    } in
    let sift =
      bind (up index moved) λ h'. bind (or_type_error (h'.positions last.id)) λ at. down at h' in
    if ltb index (length h.items) then sift else ok h

-- `#remove(index)`: the removed event and the heap without it.
unfoldable pub remove : ℕ → EventHeap → Result (ScheduledEvent × EventHeap)
unfolding refill
remove index h = bind (read h index) λ removed. bind (read h (length h.items - 1)) λ last.
    let rest : EventHeap = record {
      items = drop_last h.items;
      positions = delete_position h.positions removed.id;
    } in
    bind (refill index last rest) λ h'. ok (removed, h')

-- ===== src/Scheduler/Dispatch.antt =====
-- The order in which events are taken: `takeNext` and `cancel` on a sound scheduler, and the whole
-- sequence of dispatches.
use mathlib.Core.List.{Mem}
use mathlib.Core.Logic.{∥∥₁_elim}
use distlab.Base.{
  ℕ, ◌<◌, ◌≡◌, refl, sym, ◌∙◌, ap, ◌≢◌, inl, inr, true, false, Option, none, some, Option-cases,
  ◌∷◌, length, Perm, Text, units, Result, ok, throw, type_error, bind, ◌==◌, arith,
}
use distlab.Base.Actions.{and_then, ◌>>=◌, pure}
use distlab.Contracts.Events.{ScheduledEvent}
use distlab.Contracts.Observation.{Observation, ObservationSink}
use distlab.Scheduler.{Scheduler, event_id, take_at, take_next, cancel, size, plain_observation}
use distlab.Scheduler.Heap.{EventHeap}
use distlab.Scheduler.Heap.Order.{Precedes, at, root_least}
use distlab.Scheduler.Heap.Removal.{Memᴰ-at, mem-at, mem_located}
use distlab.Scheduler.Sound.{IsSound, logged, unless_refused}
use distlab.Scheduler.Calls.{take_at-Takes}
use distlab.Scheduler.Sorting.{Precedes-prop, IsLeast, IsAntisymmetric}

ScheduledEvent-set : IsSet ScheduledEvent
ScheduledEvent-set = hlevel

same_sequence : (a b : ScheduledEvent) → Precedes a b → Precedes b a → a.sequence ≡ b.sequence
unfolding Precedes
same_sequence a b p q = ground arith

module _ {Log : Type 0} (s : Scheduler Log) (v : IsSound s) where
  open v use {well_formed, numbered}

  -- Events with one identity are one event.
  same_place :
      (a b : ScheduledEvent)
      → a.id ≡ b.id
      → (i : ℕ) × (i < length s.heap.items) × (at s.heap.items i ≡ a)
      → (i : ℕ) × (i < length s.heap.items) × (at s.heap.items i ≡ b)
      → a ≡ b
  same_place a b e (i, p, f) (j, q, g) =
      let known_a : s.heap.positions a.id ≡ some i = rw f at (well_formed.synced.recorded i p) in
      let known_b : s.heap.positions b.id ≡ some j = rw g at (well_formed.synced.recorded j q) in cc

  pub sound-IsAntisymmetric : IsAntisymmetric s.heap.items
  sound-IsAntisymmetric a b m n p q =
      let same : a.id ≡ b.id =
        (numbered a m).0 ∙ ap (event_id s.run_id) (same_sequence a b p q) ∙ sym (numbered b n).0 in
      ∥∥₁_elim m (ScheduledEvent-set a b) (λ m'.
        ∥∥₁_elim n (ScheduledEvent-set a b) (λ n'. same_place a b same (Memᴰ-at m') (Memᴰ-at n')))

  pub root-IsLeast : IsLeast (at s.heap.items 0) s.heap.items
  root-IsLeast e m =
      ∥∥₁_elim m (Precedes-prop _ e) (λ d.
        let (i, p, f) = Memᴰ-at d in rw f at (root_least s.heap.items i well_formed.ordered p))

module _ {Log : Type 0} (sink : ObservationSink Log) where
  and_then-pure :
      {A B : Type 0} (r : Result Observation) (a : A) (f : A → B) (s : Scheduler Log)
      → and_then (bind r (λ _. ok a)) (λ x s'. (ok (f x), s')) s ≡ (bind r (λ _. ok (f a)), s)
  and_then-pure (ok _) a f s = refl
  and_then-pure (throw _) a f s = refl
  and_then-pure type_error a f s = refl

  -- A call that takes the event out of the heap, records that and returns a value.
  pub record Extracts {A : Type 0} (type : Text) (value : A) (event : ScheduledEvent)
      (s : Scheduler Log) (r : Result A × Scheduler Log) : Type 0 where
    pub heap : EventHeap
    pub returned :
        let taken = record s { heap = heap } in
        let input = plain_observation type event in
        r ≡ (unless_refused sink input taken value, logged sink input taken)
    pub perm : Perm (event ∷ heap.items) s.heap.items

  extract :
      {A : Type 0} (type : Text) (f : ScheduledEvent → A) (i : ℕ) (s : Scheduler Log)
      → IsSound s
      → i < length s.heap.items
      → Extracts type
          (f (at s.heap.items i))
          (at s.heap.items i)
          s
          ((take_at sink type i >>= λ event. pure (f event)) s)
  extract type f i s v p =
      let t = take_at-Takes sink type i s v p in
      record {
        heap = t.heap;
        returned = rw t.returned (and_then-pure _ (at s.heap.items i) f _);
        perm = t.perm;
      }

  pub take_next_empty : (s : Scheduler Log) → size s ≡ 0 → take_next sink s ≡ (ok none, s)
  unfolding take_next size
  take_next_empty s e = let test : (length s.heap.items == 0) ≡ true = ground arith in rw test

  -- What `takeNext` does on a scheduler with pending events.
  pub record Dispatches (s : Scheduler Log) (r : Result (Option ScheduledEvent) × Scheduler Log)
      : Type 0 where
    pub event : ScheduledEvent
    pub least : IsLeast event s.heap.items
    pub extracts : Extracts (units "scheduler.event.dispatched") (some event) event s r

  -- On a sound scheduler with pending events `takeNext` removes exactly one event, one that no pending
  -- event precedes by time and sequence number, and returns it unless the sink refuses the record.
  pub take_next-Dispatches :
      (s : Scheduler Log) → IsSound s → 0 < size s → Dispatches s (take_next sink s)
  unfolding size take_next
  take_next-Dispatches s v p =
      let test : (length s.heap.items == 0) ≡ false = ground arith in
      rw test (record {
        event = at s.heap.items 0;
        least = root-IsLeast s v;
        extracts = extract (units "scheduler.event.dispatched") some 0 s v p;
      })

  pending_place :
      (s : Scheduler Log) (event : ScheduledEvent)
      → IsSound s
      → Mem event s.heap.items
      → (i : ℕ) × (s.heap.positions event.id ≡ some i)
        × (i < length s.heap.items)
        × (at s.heap.items i ≡ event)
  pending_place s event v m =
      let (i, found) = mem_located s.heap event v.well_formed.synced m in
      (
        i,
        found,
        (v.well_formed.synced.located _ i found).0,
        ∥∥₁_elim m (ScheduledEvent-set _ event) λ d.
            let (j, q, g) = Memᴰ-at d in
            let known : s.heap.positions event.id ≡ some j =
              rw g at (v.well_formed.synced.recorded j q) in
            let same : i ≡ j = cc in rw same g,
      )

  -- Cancelling the identity of a pending event removes that event and no other.
  pub cancel_pending :
      (s : Scheduler Log) (event : ScheduledEvent)
      → IsSound s
      → Mem event s.heap.items
      → Extracts (units "scheduler.event.cancelled") true event s (cancel sink event.id s)
  unfolding cancel
  cancel_pending s event v m =
      let (i, found, p, e) = pending_place s event v m in
      let x = extract (units "scheduler.event.cancelled") (λ _. true) i s v p in
      rw (found, cancel) (rw e at x)

  -- An identity that no pending event has is not cancelled, and nothing changes.
  pub cancel_absent :
      (s : Scheduler Log) (id : Text)
      → IsSound s
      → ((event : ScheduledEvent) → Mem event s.heap.items → event.id ≢ id)
      → cancel sink id s ≡ (ok false, s)
  unfolding cancel
  cancel_absent s id v absent = elim (Option-cases (s.heap.positions id)) [
    | inl e ↦ rw (e, cancel)
    | inr (i, e) ↦
        let (p, named) = v.well_formed.synced.located id i e in
        absurd (absent (at s.heap.items i) (mem-at s.heap.items i p) named)
  ]

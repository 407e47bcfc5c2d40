-- ===== src/Scheduler/Calls.antt =====
-- What each call of the scheduler does to the pending events, and that it keeps the invariant.
use distlab.Base.{
  ℕ, suc, ◌≤◌, ◌<◌, ◌≡◌, true, false, ◌∷◌, length, Perm, Text, Result, throw, leb, arith,
}
use distlab.Contracts.Errors.{sequence_overflow}
use distlab.Contracts.Events.{EventDraft, ScheduledEvent}
use distlab.Contracts.Observation.{ObservationSink}
use distlab.Values.{max_safe}
use distlab.Scheduler.{
  Scheduler, ScheduledHandle, event_id, enqueue, take_at, scheduled_observation, plain_observation,
}
use distlab.Scheduler.Heap.{EventHeap}
use distlab.Scheduler.Heap.Order.{at}
use distlab.Scheduler.Heap.Insertion.{IsWellFormed, insert-Leaves}
use distlab.Scheduler.Heap.Removal.{remove-Removes}
use distlab.Scheduler.Sound.{IsSound, fresh, observe-pure, logged, unless_refused}

-- The event that a draft becomes.
abbrev pub numbered_event : {Log : Type 0} → Scheduler Log → EventDraft → ScheduledEvent
numbered_event s draft = record { draft = draft; id = event_id s.run_id s.next; sequence = s.next }

module _ {Log : Type 0} (sink : ObservationSink Log) where
  -- A new event is queued under the next number; the record may still be refused.
  pub record Enqueues (draft : EventDraft) (s : Scheduler Log)
      (r : Result ScheduledHandle × Scheduler Log) : Type 0 where
    pub heap : EventHeap
    pub returned :
        let event = numbered_event s draft in
        let queued = record s { next = suc s.next; heap = heap; pristine = false } in
        let input = scheduled_observation event in
        let handle : ScheduledHandle = record {
          event_id = event.id;
          due_time = event.time;
          generation = s.generation;
        } in
        r ≡ (unless_refused sink input queued handle, logged sink input queued)
    pub well_formed : IsWellFormed heap
    pub perm : Perm heap.items (numbered_event s draft ∷ s.heap.items)

  -- On a sound scheduler whose next sequence number is below the largest safe integer, a checked
  -- draft is queued under that number and the identity made of it: the pending events are the old
  -- ones and the new one, in a well-formed heap, the scheduler is no longer pristine, the record is
  -- handed to the sink, and the handle names the event unless the sink refuses the record.
  pub enqueue-Enqueues :
      (draft : EventDraft) (s : Scheduler Log)
      → IsSound s
      → s.next < max_safe
      → Enqueues draft s (enqueue sink draft s)
  unfolding enqueue
  enqueue-Enqueues draft s v small =
      let l = insert-Leaves (numbered_event s draft) s.heap v.well_formed (fresh s v) in
      let below : leb max_safe s.next ≡ false = ground arith in
      record {
        heap = l.heap;
        returned = rw (below, l.returned) (observe-pure sink _ _ _);
        well_formed = l.well_formed;
        perm = l.perm;
      }

  -- From the largest safe integer on, a draft is refused with SEQUENCE_OVERFLOW and nothing changes.
  pub enqueue_overflow :
      (draft : EventDraft) (s : Scheduler Log)
      → max_safe ≤ s.next
      → enqueue sink draft s ≡ (throw sequence_overflow, s)
  unfolding enqueue
  enqueue_overflow draft s large = let above : leb max_safe s.next ≡ true = ground arith in rw above

  -- The event at a place leaves the heap.
  pub record Takes (type : Text) (index : ℕ) (s : Scheduler Log)
      (r : Result ScheduledEvent × Scheduler Log) : Type 0 where
    pub heap : EventHeap
    pub returned :
        let event = at s.heap.items index in
        let input = plain_observation type event in
        let taken = record s { heap = heap } in
        r ≡ (unless_refused sink input taken event, logged sink input taken)
    pub well_formed : IsWellFormed heap
    pub perm : Perm (at s.heap.items index ∷ heap.items) s.heap.items

  pub take_at-Takes :
      (type : Text) (index : ℕ) (s : Scheduler Log)
      → IsSound s
      → index < length s.heap.items
      → Takes type index s (take_at sink type index s)
  unfolding take_at
  take_at-Takes type index s v p =
      let m = remove-Removes s.heap index v.well_formed p in
      record {
        heap = m.heap;
        returned = rw m.returned (observe-pure sink _ _ _);
        well_formed = m.well_formed;
        perm = m.perm;
      }

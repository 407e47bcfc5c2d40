-- ===== src/Scheduler/Invariant.antt =====
-- Every call of the scheduler keeps its invariant, whatever the sink answers.
use mathlib.Core.List.Perm
use mathlib.Core.List.{mem-cons, mem-cons_of_mem, not-mem-nil}
use mathlib.Core.Logic.Or
use native.Mathlib.Bridge.{le_prop}
use distlab.Base.{
  ℕ, suc, ◌≤◌, ◌<◌, ◌≡◌, refl, inl, inr, true, some, Option-cases, length, Text, units, Result, ok,
  throw, type_error, ltb, ltb→lt, arith, Bool-cases, ◌==◌,
}
use distlab.Base.Actions.{and_then, and_then-state}
use distlab.Contracts.Events.{EventDraft, ScheduledEvent}
use distlab.Contracts.Observation.{ObservationSink}
use distlab.Values.{max_safe}
use distlab.Canonical.{Raw}
use distlab.Scheduler.{
  Scheduler, ScheduledHandle, enqueue, schedule, take_at, cancel, cancel_handle, take_next, reset,
}
use distlab.Scheduler.Validate.{Handlers, validate}
use distlab.Scheduler.Heap.{empty_heap}
use distlab.Scheduler.Heap.Insertion.{IsWellFormed}
use distlab.Scheduler.Calls.{enqueue-Enqueues, enqueue_overflow, take_at-Takes}
use distlab.Scheduler.Sound.{IsNumbered, IsSound}

pub IsNumbered-prop : (run : Text) (next : ℕ) (e : ScheduledEvent) → IsProp (IsNumbered run next e)
IsNumbered-prop run next e = hlevel le_prop

IsNumbered-suc :
    (run : Text) (next : ℕ) (e : ScheduledEvent)
    → IsNumbered run next e
    → IsNumbered run (suc next) e
IsNumbered-suc run next e (named, issued) = (named, omega arith)

module _ {Log : Type 0} (sink : ObservationSink Log) where
  pub enqueue-IsSound :
      (draft : EventDraft) (s : Scheduler Log) → IsSound s → IsSound (enqueue sink draft s).1
  enqueue-IsSound draft s v = elim (Bool-cases (ltb s.next max_safe)) [
    | inr full ↦ rw (enqueue_overflow sink draft s (ground arith)) v
    | inl small ↦
        let q = enqueue-Enqueues sink draft s v (ltb→lt _ _ small) in
        rw q.returned (record {
          well_formed = q.well_formed;
          numbered = λ e m.
              Or.elim (IsNumbered-prop s.run_id (suc s.next) e)
                (mem-cons.0 ((Perm.mem_iff q.perm).0 m)) (λ same. rw same (refl, omega arith))
                (λ old. IsNumbered-suc s.run_id s.next e (v.numbered e old));
          bounded = ground arith;
        })
  ]

  pub schedule-IsSound :
      (handlers : Handlers) (now : ℕ) (draft : Raw) (s : Scheduler Log)
      → IsSound s
      → IsSound (schedule sink handlers now draft s).1
  unfolding schedule
  schedule-IsSound handlers now draft s v = go (validate handlers now draft)
    where
      go : (r : Result EventDraft) → IsSound (and_then r (enqueue sink) s).1
      go (ok d) = enqueue-IsSound d s v
      go (throw e) = v
      go type_error = v

  pub take_at-IsSound :
      (type : Text) (index : ℕ) (s : Scheduler Log)
      → IsSound s
      → index < length s.heap.items
      → IsSound (take_at sink type index s).1
  take_at-IsSound type index s v p =
      let t = take_at-Takes sink type index s v p in
      rw t.returned (record {
        well_formed = t.well_formed;
        numbered = λ e m. v.numbered e ((Perm.mem_iff t.perm).0 (mem-cons_of_mem _ m));
        bounded = v.bounded;
      })

  pub cancel-IsSound : (id : Text) (s : Scheduler Log) → IsSound s → IsSound (cancel sink id s).1
  unfolding cancel
  cancel-IsSound id s v = elim (Option-cases (s.heap.positions id)) [
    | inl absent ↦ rw (absent, cancel) v
    | inr (i, found) ↦
        let (p, _) = v.well_formed.synced.located id i found in
        rw (found, cancel)
          (and_then-state IsSound (take_at sink (units "scheduler.event.cancelled") i s) (λ _. true)
            (take_at-IsSound (units "scheduler.event.cancelled") i s v p))
  ]

  pub cancel_handle-IsSound :
      (handle : ScheduledHandle) (s : Scheduler Log)
      → IsSound s
      → IsSound (cancel_handle sink handle s).1
  unfolding cancel_handle
  cancel_handle-IsSound handle s v = elim (Bool-cases (handle.generation == s.generation)) [
    | inl current ↦ rw current (cancel-IsSound handle.event_id s v)
    | inr stale ↦ rw stale v
  ]

  pub take_next-IsSound : (s : Scheduler Log) → IsSound s → IsSound (take_next sink s).1
  unfolding take_next
  take_next-IsSound s v = elim (Bool-cases (length s.heap.items == 0)) [
    | inl none_left ↦ rw none_left v
    | inr some_left ↦ rw some_left (
        and_then-state IsSound (take_at sink (units "scheduler.event.dispatched") 0 s) some
          (take_at-IsSound (units "scheduler.event.dispatched") 0 s v (ground arith)))
  ]

pub empty-IsWellFormed : IsWellFormed empty_heap
empty-IsWellFormed = record {
  ordered = λ c p q. absurd (omega arith);
  synced = record { recorded = λ i p. absurd (omega arith); located = λ t i q. cc };
}

-- A scheduler with nothing pending, as it is made and as `reset` leaves it.
pub empty-IsSound :
    {Log : Type 0} (s : Scheduler Log) → s.heap ≡ empty_heap → s.next ≤ max_safe → IsSound s
empty-IsSound s e bound = record {
  well_formed = rw e empty-IsWellFormed;
  numbered = λ event m. absurd (not-mem-nil (rw e at m));
  bounded = bound;
}

pub reset-IsSound : {Log : Type 0} (s : Scheduler Log) → IsSound (reset s)
unfolding reset
reset-IsSound s = empty-IsSound (reset s) refl (omega arith)

-- ===== src/Examples.antt =====
-- The calls of the scheduler on small inputs.
mod Drafts
mod Drawing
mod Identities
mod Injection
mod Keys
mod Histories
mod Transactions
mod Flights
mod Simulations
use mathlib.Core.List.{Mem, mem-cons_self, mem-cons_of_mem}
use distlab.Base.{
  ℕ, suc, ◌≤◌, ◌<◌, ◌≡◌, ◌≢◌, refl, true, false, Bool, Option, none, some, List, [], ◌∷◌, length,
  Perm, Text, units, text_eq, Result, ok, throw, ◌==◌, arith, ltb, leb,
}
use distlab.Contracts.Errors.{stale_capability, sequence_overflow, clock_rewind}
use distlab.Contracts.Events.{EventDraft, ScheduledEvent}
use distlab.Values.{Value, num, str, obj, whole, Fields, field, end, max_safe}
use distlab.Canonical.{Raw, embed}
use distlab.Scheduler
use distlab.Scheduler.Heap
use distlab.Scheduler.Heap.Insertion.{Leaves, insert-Leaves}
use distlab.Scheduler.Heap.Removal.{Removes, remove-Removes}
use distlab.Scheduler.Sound
use distlab.Scheduler.{
  Scheduler, ScheduledHandle, cancel, cancel_handle, take_next, pending, size, reset, event_id,
  enqueue,
}
use distlab.Scheduler.Sound.{IsSound, event_id-injective}
use distlab.Scheduler.Calls.{numbered_event, Enqueues, enqueue-Enqueues, enqueue_overflow}
use distlab.Scheduler.Dispatch.{
  Dispatches, Extracts, take_next-Dispatches, cancel_pending, cancel_absent,
}
use distlab.Scheduler.Restore.{export_state}
use distlab.Scheduler.Drain.{dispatch_all, dispatch_all-pending}
use distlab.Scheduler.Reach
use distlab.Scheduler.Reach.{Reach, schedules, here, next, takes, Reach-IsSound, stale_handle}
use distlab.Samples.{
  Records, keeping, keeping-Accepts, handlers, fresh, queued, queued-IsSound, draft, raw_draft,
}

created : Scheduler.create (units "r1") [] ≡ ok fresh
unfolding Scheduler.create
created = refl

calls : Reach keeping handlers fresh (
    Reach.after keeping handlers takes
      (Reach.after keeping handlers (schedules 0 (raw_draft 4)) fresh))
calls = next (next here (schedules 0 (raw_draft 4))) takes

Reach-IsSound_example : IsSound (
    Reach.after keeping handlers takes
      (Reach.after keeping handlers (schedules 0 (raw_draft 4)) fresh))
Reach-IsSound_example = Reach-IsSound keeping handlers (units "r1") [] created calls

dispatch_all-pending_example :
    ((dispatch_all keeping (size queued) queued).0 ≡ ok (pending queued))
    × ((dispatch_all keeping (size queued) queued).0 ≡ ok (export_state queued).pending)
dispatch_all-pending_example = dispatch_all-pending keeping keeping-Accepts queued queued-IsSound

size-queued : size queued ≡ 3
unfolding size queued enqueue Heap.insert Heap.up Heap.up_loop Heap.swap Scheduler.observe
size-queued = refl

take_next-Dispatches_example : Dispatches keeping queued (take_next keeping queued)
take_next-Dispatches_example =
    take_next-Dispatches keeping queued queued-IsSound (omega (arith, size-queued))

-- The event that stands first.
abbrev first : ScheduledEvent
first = record { draft = draft 3; id = event_id (units "r1") 1; sequence = 1 }

first-Mem : Mem first queued.heap.items
unfolding queued enqueue Heap.insert Heap.up Heap.up_loop Heap.swap Scheduler.observe
first-Mem = mem-cons_self

cancel_pending_example :
    Extracts keeping
      (units "scheduler.event.cancelled")
      true
      first
      queued
      (cancel keeping first.id queued)
cancel_pending_example = cancel_pending keeping queued first queued-IsSound first-Mem

unnamed : (event : ScheduledEvent) → Mem event queued.heap.items → event.id ≢ []
unfolding event_id
unnamed event m e = let n = (queued-IsSound.numbered event m).0 in cc

handle : ScheduledHandle
handle = record { event_id = first.id; due_time = 3; generation = 0 }

later : Reach keeping handlers (reset queued) (Reach.after keeping handlers takes (reset queued))
later = next here takes

stale_handle_example :
    cancel_handle keeping handle (Reach.after keeping handlers takes (reset queued))
    ≡ (throw stale_capability, Reach.after keeping handlers takes (reset queued))
unfolding handle queued
stale_handle_example =
    stale_handle keeping handlers queued (Reach.after keeping handlers takes (reset queued)) handle
      (omega arith) later

next-queued : queued.next ≡ 3
unfolding queued enqueue Heap.insert Heap.up Heap.up_loop Heap.swap Scheduler.observe
next-queued = refl

abbrev full : Scheduler Records
full = record fresh { next = max_safe }

remove-Removes_example : Removes queued.heap 1 (Heap.remove 1 queued.heap)
unfolding size
remove-Removes_example =
    remove-Removes queued.heap 1 queued-IsSound.well_formed (omega (arith, size-queued))

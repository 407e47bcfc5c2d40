-- ===== src/Scheduler/Reach.antt =====
-- The calls of a scheduler in any order, with any arguments and any answers of the sink.
use mathlib.Core.Path.{subst}
use distlab.Base.{
  ℕ, ◌≤◌, ◌≡◌, refl, inl, inr, true, false, [], ◌∷◌, Text, Result, ok, throw, type_error, bind,
  Bool-cases, if_false, ◌==◌, arith,
}
use distlab.Base.Actions.{and_then}
use distlab.Contracts.Errors.{stale_capability}
use distlab.Contracts.Events.{EventDraft}
use distlab.Contracts.Observation.{ObservationSink}
use distlab.Values.{Value}
use distlab.Canonical.{Raw, embed, canonical_copy}
use distlab.Scheduler.{
  Scheduler, ScheduledHandle, create, schedule, enqueue, cancel, cancel_handle, take_next, reset,
}
use distlab.Scheduler.Validate.{Handlers}
use distlab.Scheduler.Capability.{OwnerScheduler, own_draft, owner_schedule}
use distlab.Scheduler.Restore.{restore}
use distlab.Scheduler.Restored.{restore-IsSound, restore_generation}
use distlab.Scheduler.Heap.{empty_heap}
use distlab.Scheduler.Sound.{IsSound}
use distlab.Scheduler.Invariant.{
  schedule-IsSound, cancel-IsSound, cancel_handle-IsSound, take_next-IsSound, reset-IsSound,
  empty-IsSound,
}

pub data Call : Type 0 where
  schedules : (now : ℕ) → Raw → Call
  owner_schedules : OwnerScheduler → (now : ℕ) → Raw → Call
  cancels : Text → Call
  cancels_handle : ScheduledHandle → Call
  takes : Call
  restores : (now : ℕ) → Raw → Call
  resets : Call

module _ {Log : Type 0} (sink : ObservationSink Log) (handlers : Handlers) where
  unfoldable pub after : Call → Scheduler Log → Scheduler Log
  after (schedules now draft) s = (schedule sink handlers now draft s).1
  after (owner_schedules c now draft) s = (owner_schedule sink c handlers now draft s).1
  after (cancels id) s = (cancel sink id s).1
  after (cancels_handle handle) s = (cancel_handle sink handle s).1
  after takes s = (take_next sink s).1
  after (restores now state) s = (restore handlers now state s).1
  after resets s = reset s

  pub data Reach (s : Scheduler Log) : Scheduler Log → Type 0 where
    here : Reach s s
    next : {t : Scheduler Log} → Reach s t → (c : Call) → Reach s (after c t)

  -- An owner's call leaves the scheduler alone, or makes one call of `schedule`.
  owner_schedule_keeps :
      (P : Scheduler Log → Type 0) (c : OwnerScheduler) (now : ℕ) (draft : Raw) (s : Scheduler Log)
      → P s
      → ((own : Value) → P (schedule sink handlers now (embed own) s).1)
      → P (owner_schedule sink c handlers now draft s).1
  unfolding owner_schedule
  owner_schedule_keeps P c now draft s p each = elim (Bool-cases (c.generation == s.generation)) [
    | inr stale ↦ rw stale p
    | inl current ↦ rw current (passed (bind (canonical_copy draft) (own_draft c)))
  ]
    where
      passed :
          (r : Result Value) → P (and_then r (λ own. schedule sink handlers now (embed own)) s).1
      passed (ok own) = each own
      passed (throw e) = p
      passed type_error = p

  after-IsSound : (c : Call) (s : Scheduler Log) → IsSound s → IsSound (after c s)
  unfolding after
  after-IsSound (schedules now draft) s v = schedule-IsSound sink handlers now draft s v
  after-IsSound (owner_schedules c now draft) s v =
      owner_schedule_keeps IsSound c now draft s v
        (λ own. schedule-IsSound sink handlers now (embed own) s v)
  after-IsSound (cancels id) s v = cancel-IsSound sink id s v
  after-IsSound (cancels_handle handle) s v = cancel_handle-IsSound sink handle s v
  after-IsSound takes s v = take_next-IsSound sink s v
  after-IsSound (restores now state) s v = restore-IsSound s handlers now state v
  after-IsSound resets s v = reset-IsSound s

  Reach-kept : {s t : Scheduler Log} → IsSound s → Reach s t → IsSound t
  Reach-kept v here = v
  Reach-kept v (next {t} r c) = after-IsSound c t (Reach-kept v r)

  create-IsSound : (run : Text) (log : Log) {s : Scheduler Log} → create run log ≡ ok s → IsSound s
  unfolding create
  create-IsSound [] log h = cc
  create-IsSound (c ∷ run) log {s} h =
      let fresh : Scheduler Log = record {
        run_id = c ∷ run;
        heap = empty_heap;
        next = 0;
        generation = 0;
        pristine = true;
        log = log;
      } in
      let e : fresh ≡ s = cc in
      subst (λ (t : Scheduler Log). IsSound t) e (empty-IsSound fresh refl (omega arith))

  -- Whatever calls are made on a new scheduler, in any order, with any arguments and whatever the sink
  -- answers, its heap stays in order, its index of positions stays exact, and each pending event keeps
  -- the identity of its own, issued sequence number.
  pub Reach-IsSound :
      (run : Text) (log : Log) {s t : Scheduler Log} → create run log ≡ ok s → Reach s t → IsSound t
  Reach-IsSound run log made r = Reach-kept (create-IsSound run log made) r

  enqueue_generation :
      (d : EventDraft) (s : Scheduler Log) → (enqueue sink d s).1.generation ≡ s.generation
  unfolding enqueue
  enqueue_generation d s = ground arith

  schedule_generation :
      (now : ℕ) (draft : Raw) (s : Scheduler Log)
      → (schedule sink handlers now draft s).1.generation ≡ s.generation
  unfolding schedule
  schedule_generation now draft s = ground arith

  cancel_generation :
      (id : Text) (s : Scheduler Log) → (cancel sink id s).1.generation ≡ s.generation
  unfolding cancel
  cancel_generation id s = ground arith

  cancel_handle_generation :
      (handle : ScheduledHandle) (s : Scheduler Log)
      → (cancel_handle sink handle s).1.generation ≡ s.generation
  unfolding cancel_handle
  cancel_handle_generation handle s = ground (arith, cancel_generation handle.event_id s)

  take_next_generation : (s : Scheduler Log) → (take_next sink s).1.generation ≡ s.generation
  unfolding take_next
  take_next_generation s = ground arith

  -- No call takes an older generation back.
  after_generation : (c : Call) (s : Scheduler Log) → s.generation ≤ (after c s).generation
  unfolding after reset
  after_generation (schedules now draft) s = omega (arith, schedule_generation now draft s)
  after_generation (owner_schedules c now draft) s =
      owner_schedule_keeps (λ t. s.generation ≤ t.generation) c now draft s (omega arith)
        (λ own. omega (arith, schedule_generation now (embed own) s))
  after_generation (cancels id) s = omega (arith, cancel_generation id s)
  after_generation (cancels_handle handle) s = omega (arith, cancel_handle_generation handle s)
  after_generation takes s = omega (arith, take_next_generation s)
  after_generation (restores now state) s = restore_generation s handlers now state
  after_generation resets s = omega arith

  Reach-generation : {s t : Scheduler Log} → Reach s t → s.generation ≤ t.generation
  Reach-generation here = omega arith
  Reach-generation (next {t} r c) = omega (arith, Reach-generation r, after_generation c t)

  -- A handle that was issued before a reset cancels nothing after it, whatever calls come between.
  pub stale_handle :
      (s t : Scheduler Log) (handle : ScheduledHandle)
      → handle.generation ≤ s.generation
      → Reach (reset s) t
      → cancel_handle sink handle t ≡ (throw stale_capability, t)
  unfolding cancel_handle reset
  stale_handle s t handle old r =
      let test : (handle.generation == t.generation) ≡ false = ground (arith, Reach-generation r) in
      if_false _ _ test

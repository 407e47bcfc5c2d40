-- ===== src/Clock/Timely.antt =====
-- packages/kernel/src/simulation.ts: the head of `#dispatch`, which takes the next event and moves the
-- clock to it; and why the clock never has to go back.
use mathlib.Core.HLevel.{×_prop}
use mathlib.Core.List.Perm
use mathlib.Core.List.{Mem, mem-cons, mem-cons_self, mem-cons_of_mem}
use mathlib.Core.Logic.Or
use native.Mathlib.Bridge.{le_prop}
use distlab.Base.{
  ℕ, ◌≤◌, ◌<◌, ◌≡◌, refl, ap, inl, inr, Bool-cases, Option, none, some, ◌∷◌, Perm, Text, units,
  Result, ok, throw, type_error, bind, ltb, ltb→lt, arith,
}
use distlab.Base.Actions.{Action, and_then, ◌>>=◌, pure, and_then-state}
use distlab.Contracts.Events.{EventDraft, ScheduledEvent}
use distlab.Contracts.Observation.{Observation, ObservationSink}
use distlab.Values.{whole, max_safe, simulation_time}
use distlab.Canonical.{Raw}
use distlab.Scheduler.{Scheduler, take_next, schedule, enqueue, size, plain_observation}
use distlab.Scheduler.Validate.{Handlers, validate}
use distlab.Scheduler.Heap.Order.{Precedes}
use distlab.Scheduler.Sound.{IsSound, logged}
use distlab.Scheduler.Sorting.{IsLeast}
use distlab.Scheduler.Invariant.{take_next-IsSound, enqueue-IsSound}
use distlab.Scheduler.Dispatch.{take_next-Dispatches, take_next_empty}
use distlab.Scheduler.Calls.{enqueue-Enqueues, enqueue_overflow}
use distlab.Scheduler.Confined.{validate_due}
use distlab.Scheduler.Drain.{Accepts}
use distlab.Clock.{advanced_observation, Timeline, on_scheduler, advance_to}

module _ {Log : Type 0} (sink : ObservationSink Log) (handlers : Handlers) where
  -- `advanceTo(event.time, event.id)` if there is an event.
  unfoldable move_to : Option ScheduledEvent → Action (Timeline Log) (Option ScheduledEvent)
  move_to none = pure none
  move_to (some event) =
      advance_to sink handlers (whole event.time) (some event.id) >>= λ _. pure (some event)

  -- `takeNext`, and the move of the clock.
  unfoldable pub next_event : Action (Timeline Log) (Option ScheduledEvent)
  unfolding on_scheduler move_to
  next_event = on_scheduler sink handlers (take_next sink) >>= move_to

-- No pending event is due before the clock's time, and none beyond the safe integers.
abbrev pub IsPunctual : ℕ → ScheduledEvent → Type 0
IsPunctual now e = (now ≤ e.time) × (e.time ≤ max_safe)

pub record IsTimely {Log : Type 0} (t : Timeline Log) : Type 0 where
  pub sound : IsSound t.scheduler
  pub bounded : t.clock.time ≤ max_safe
  pub punctual : (e : ScheduledEvent) → Mem e t.scheduler.heap.items → IsPunctual t.clock.time e

Precedes-time : (a b : ScheduledEvent) → Precedes a b → a.time ≤ b.time
unfolding Precedes
Precedes-time a b p = ground arith

module _ {Log : Type 0} (sink : ObservationSink Log) (handlers : Handlers) where
  -- What the clock shows after a move to a time that is not past, whatever the sink answers.
  advance_to_time :
      (to : ℕ) (id : Text) (t : Timeline Log)
      → t.clock.time ≤ to
      → to ≤ max_safe
      → ((advance_to sink handlers (whole to) (some id) t).1.clock.time ≡ to)
        × ((advance_to sink handlers (whole to) (some id) t).1.scheduler.heap ≡ t.scheduler.heap)
        × ((advance_to sink handlers (whole to) (some id) t).1.scheduler.next ≡ t.scheduler.next)
        × ((advance_to sink handlers (whole to) (some id) t).1.scheduler.run_id
            ≡ t.scheduler.run_id)
  unfolding advance_to simulation_time
  advance_to_time to id t h k = (ground arith, ground arith, ground arith, ground arith)

  -- The pending events of a scheduler that differs in its log alone.
  IsSound-same :
      (s t : Scheduler Log)
      → t.heap ≡ s.heap
      → t.next ≡ s.next
      → t.run_id ≡ s.run_id
      → IsSound s
      → IsSound t
  IsSound-same s t h n r v = record {
    well_formed = rw h v.well_formed;
    numbered = λ e m. rw (r, n) (v.numbered e (rw h at m));
    bounded = rw n v.bounded;
  }

  -- After a dispatch: the events that are left are due no earlier than the one that was taken.
  moved-IsTimely :
      (t : Timeline Log) (event : ScheduledEvent) (s : Scheduler Log)
      → IsTimely t
      → IsLeast event t.scheduler.heap.items
      → Perm (event ∷ s.heap.items) t.scheduler.heap.items
      → IsSound s
      → IsTimely
          (advance_to sink handlers
            (whole event.time)
            (some event.id)
            (record t { scheduler = s })).1
  moved-IsTimely t event s v least p sound =
      let (from, to) = v.punctual event ((Perm.mem_iff p).0 mem-cons_self) in
      let (shown, heap, next, run) =
        advance_to_time event.time event.id (record t { scheduler = s }) from to in
      record {
        sound = IsSound-same s _ heap next run sound;
        bounded = rw shown to;
        punctual = λ e m.
            let old = (Perm.mem_iff p).0 (mem-cons_of_mem event (rw heap at m)) in
            rw shown (Precedes-time event e (least e old), (v.punctual e old).1);
      }

  left-IsTimely :
      (t : Timeline Log) (event : ScheduledEvent) (s : Scheduler Log)
      → IsTimely t
      → Perm (event ∷ s.heap.items) t.scheduler.heap.items
      → IsSound s
      → IsTimely (record t { scheduler = s })
  left-IsTimely t event s v p sound = record {
    sound = sound;
    bounded = v.bounded;
    punctual = λ e m. v.punctual e ((Perm.mem_iff p).0 (mem-cons_of_mem event m));
  }

  -- Taking the next event and moving the clock to it keeps every pending event due at or after the
  -- clock's time, whatever the sink answers.
  pub next_event-IsTimely :
      (t : Timeline Log) → IsTimely t → IsTimely (next_event sink handlers t).1
  unfolding next_event move_to
  next_event-IsTimely t v = elim (Bool-cases (ltb 0 (size t.scheduler))) [
    | inr empty ↦
        let none_left : size t.scheduler ≡ 0 = ground arith in
        rw (take_next_empty sink t.scheduler none_left) v
    | inl full ↦
        let d = take_next-Dispatches sink t.scheduler v.sound (ltb→lt _ _ full) in
        let taken = record (t.scheduler) { heap = d.extracts.heap } in
        let input = plain_observation (units "scheduler.event.dispatched") d.event in
        let s = logged sink input taken in
        let state =
          ap (λ (r : Result (Option ScheduledEvent) × Scheduler Log). r.1) d.extracts.returned in
        let sound : IsSound s = rw state at (take_next-IsSound sink t.scheduler v.sound) in
        rw d.extracts.returned (
          answered (sink.observe input t.scheduler.log).0 t d.event s v d.least d.extracts.perm
            sound)
  ]
    where
      answered :
          (r : Result Observation) (t : Timeline Log) (event : ScheduledEvent) (s : Scheduler Log)
          → IsTimely t
          → IsLeast event t.scheduler.heap.items
          → Perm (event ∷ s.heap.items) t.scheduler.heap.items
          → IsSound s
          → IsTimely
              (and_then
                (bind r (λ _. ok (some event)))
                (move_to sink handlers)
                (record t { scheduler = s })).1
      answered (ok _) t event s v least p sound =
          and_then-state IsTimely
            (advance_to sink handlers (whole event.time) (some event.id)
              (record t { scheduler = s }))
            (λ _. some event) (moved-IsTimely t event s v least p sound)
      answered (throw _) t event s v least p sound = left-IsTimely t event s v p sound
      answered type_error t event s v least p sound = left-IsTimely t event s v p sound

  -- What a dispatch returns: a least pending event, with the clock at its time.
  pub record Moves (t : Timeline Log) (r : Result (Option ScheduledEvent) × Timeline Log)
      : Type 0 where
    pub event : ScheduledEvent
    pub returned : r.0 ≡ ok (some event)
    pub shown : r.1.clock.time ≡ event.time
    pub forwards : t.clock.time ≤ event.time
    pub least : IsLeast event t.scheduler.heap.items

  advance_to_accepted :
      (accepts : Accepts sink) (to : ℕ) (id : Text) (t : Timeline Log)
      → t.clock.time ≤ to
      → to ≤ max_safe
      → (advance_to sink handlers (whole to) (some id) t).0 ≡ ok tt
  unfolding advance_to simulation_time
  advance_to_accepted accepts to id t h k =
      let (o, e) = accepts (advanced_observation t.clock.time to (some id)) t.scheduler.log in
      ground arith

  -- While events are pending and the sink refuses no record, the next dispatch returns a least pending
  -- event with the clock moved forwards to its time: the clock is never told to go back.
  pub next_event-Moves :
      (accepts : Accepts sink) (t : Timeline Log)
      → IsTimely t
      → 0 < size t.scheduler
      → Moves t (next_event sink handlers t)
  unfolding next_event move_to
  next_event-Moves accepts t v full =
      let d = take_next-Dispatches sink t.scheduler v.sound full in
      let taken = record (t.scheduler) { heap = d.extracts.heap } in
      let input = plain_observation (units "scheduler.event.dispatched") d.event in
      let s = logged sink input taken in
      let (o, accepted) = accepts input t.scheduler.log in
      let (from, to) = v.punctual d.event ((Perm.mem_iff d.extracts.perm).0 mem-cons_self) in
      let t' : Timeline Log = record t { scheduler = s } in
      let (shown, _, _, _) = advance_to_time d.event.time d.event.id t' from to in
      let done = advance_to_accepted accepts d.event.time d.event.id t' from to in
      rw (d.extracts.returned, accepted)
        (record {
          event = d.event;
          returned = rw done;
          shown =
              and_then-state (λ (x : Timeline Log). x.clock.time ≡ d.event.time)
                (advance_to sink handlers (whole d.event.time) (some d.event.id) t')
                (λ _. some d.event) shown;
          forwards = from;
          least = d.least;
        })

  pub enqueue-IsTimely :
      (d : EventDraft) (t : Timeline Log)
      → IsTimely t
      → t.clock.time ≤ d.time
      → d.time ≤ max_safe
      → IsTimely (record t { scheduler = (enqueue sink d t.scheduler).1 })
  enqueue-IsTimely d t v due safe = elim (Bool-cases (ltb t.scheduler.next max_safe)) [
    | inr full ↦ rw (enqueue_overflow sink d t.scheduler (ground arith)) v
    | inl small ↦
        let q = enqueue-Enqueues sink d t.scheduler v.sound (ltb→lt _ _ small) in
        let sound = enqueue-IsSound sink d t.scheduler v.sound in
        rw q.returned (record {
          sound = rw q.returned at sound;
          bounded = v.bounded;
          punctual = λ e m.
              Or.elim (×_prop le_prop le_prop) (mem-cons.0 ((Perm.mem_iff q.perm).0 m))
                (λ same. rw same (due, safe)) (v.punctual e);
        })
  ]

  -- What is scheduled at the clock's time, through any draft, is due at or after it.
  pub schedule-IsTimely :
      (draft : Raw) (t : Timeline Log)
      → IsTimely t
      → IsTimely (on_scheduler sink handlers (schedule sink handlers t.clock.time draft) t).1
  unfolding schedule on_scheduler
  schedule-IsTimely draft t v = checked (validate handlers t.clock.time draft) refl
    where
      checked :
          (r : Result EventDraft)
          → validate handlers t.clock.time draft ≡ r
          → IsTimely (record t { scheduler = (and_then r (enqueue sink) t.scheduler).1 })
      checked (ok d) e =
          let (due, safe) = validate_due handlers t.clock.time draft d e in
          enqueue-IsTimely d t v due safe
      checked (throw x) e = v
      checked type_error e = v

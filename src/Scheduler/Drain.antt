-- ===== src/Scheduler/Drain.antt =====
-- The whole sequence of dispatches: `takeNext` again and again, as the run loop of the simulation does.
use mathlib.Core.List.Perm
use mathlib.Core.List.{mem-cons_of_mem}
use distlab.Base.{
  ℕ, zero, suc, ◌≤◌, ◌<◌, ◌≡◌, refl, sym, ◌∙◌, ap, inl, inr, ltb, ltb→lt, Bool-cases, Option, none,
  some, List, [], ◌∷◌, length, length-perm, Perm, units, Result, ok, arith,
}
use distlab.Base.Actions.{Action, ◌>>=◌, pure}
use distlab.Contracts.Events.{ScheduledEvent}
use distlab.Contracts.Observation.{ObservationInput, Observation, ObservationSink}
use distlab.Scheduler.{Scheduler, take_next, pending, size, plain_observation}
use distlab.Scheduler.Restore.{export_state}
use distlab.Scheduler.Sound.{IsSound, logged}
use distlab.Scheduler.Invariant.{take_next-IsSound}
use distlab.Scheduler.Dispatch.{take_next-Dispatches, take_next_empty, sound-IsAntisymmetric}
use distlab.Scheduler.Sorting.{IsLeast, IsSorted, sort-perm, sort-IsSorted, sorted_unique}

length-eq-zero : (items : List ScheduledEvent) → length items ≡ 0 → items ≡ []
length-eq-zero [] e = refl
length-eq-zero (x ∷ items) e = absurd (omega arith)

-- The sink refuses no record.
abbrev pub Accepts : {Log : Type 0} → ObservationSink Log → Type 0
Accepts {Log} sink =
    (input : ObservationInput) (log : Log) → (o : Observation) × ((sink.observe input log).0 ≡ ok o)

module _ {Log : Type 0} (sink : ObservationSink Log) where
  unfoldable pub dispatch_all : ℕ → Action (Scheduler Log) (List ScheduledEvent)
  dispatch_all zero s = (ok [], s)
  dispatch_all (suc rounds) s =
      (take_next sink >>= λ next. elim next [
        | none ↦ pure []
        | some event ↦ dispatch_all rounds >>= λ events. pure (event ∷ events)
      ])
        s

  record Drains (s : Scheduler Log) (r : Result (List ScheduledEvent) × Scheduler Log)
      : Type 0 where
    events : List ScheduledEvent
    returned : r.0 ≡ ok events
    perm : Perm events s.heap.items
    sorted : IsSorted events

  -- A dispatch whose record is accepted.
  record Steps (s : Scheduler Log) : Type 0 where
    event : ScheduledEvent
    after : Scheduler Log
    returned : take_next sink s ≡ (ok (some event), after)
    least : IsLeast event s.heap.items
    perm : Perm (event ∷ after.heap.items) s.heap.items

  after_step :
      (rounds : ℕ) (s : Scheduler Log) (t : Steps s)
      → Drains t.after (dispatch_all rounds t.after)
      → Drains s (dispatch_all (suc rounds) s)
  unfolding dispatch_all
  after_step rounds s t rest = rw t.returned (record {
    events = t.event ∷ rest.events;
    returned = rw rest.returned refl;
    perm = Perm.trans (Perm.cons t.event rest.perm) t.perm;
    sorted = (
      λ e m. t.least e ((Perm.mem_iff t.perm).0 (mem-cons_of_mem _ ((Perm.mem_iff rest.perm).0 m))),
      rest.sorted,
    );
  })

  module _ (accepts : Accepts sink) where
    step : (s : Scheduler Log) → IsSound s → 0 < size s → Steps s
    step s v p =
        let d = take_next-Dispatches sink s v p in
        let taken = record s { heap = d.extracts.heap } in
        let input = plain_observation (units "scheduler.event.dispatched") d.event in
        let (o, accepted) = accepts input taken.log in
        record {
          event = d.event;
          after = logged sink input taken;
          returned = d.extracts.returned ∙ rw accepted refl;
          least = d.least;
          perm = d.extracts.perm;
        }

    dispatch_all-Drains :
        (rounds : ℕ) (s : Scheduler Log)
        → IsSound s
        → size s ≤ rounds
        → Drains s (dispatch_all rounds s)
    unfolding dispatch_all size
    dispatch_all-Drains zero s v p = record {
      events = [];
      returned = refl;
      perm = Perm.symm (rw (length-eq-zero s.heap.items (omega arith)) (Perm.refl []));
      sorted = tt;
    }
    dispatch_all-Drains (suc rounds) s v p = elim (Bool-cases (ltb 0 (size s))) [
      | inr empty ↦
          let e : length s.heap.items ≡ 0 = ground arith in
          rw (take_next_empty sink s e) (record {
            events = [];
            returned = refl;
            perm = rw (length-eq-zero s.heap.items e) (Perm.refl []);
            sorted = tt;
          })
      | inl full ↦
          let t = step s v (ltb→lt _ _ full) in
          let kept : IsSound t.after =
            rw (ap (λ (r : Result (Option ScheduledEvent) × Scheduler Log). r.1) t.returned) at
              (take_next-IsSound sink s v) in
          let size' : length s.heap.items ≡ suc (length t.after.heap.items) =
            sym (length-perm t.perm) in
          after_step rounds s t (dispatch_all-Drains rounds t.after kept (omega arith))
    ]

    -- On a sound scheduler whose sink refuses nothing, dispatching until nothing is left yields the
    -- events in the order in which `pending` and `exportState` list them.
    pub dispatch_all-pending :
        (s : Scheduler Log)
        → IsSound s
        → ((dispatch_all (size s) s).0 ≡ ok (pending s))
          × ((dispatch_all (size s) s).0 ≡ ok (export_state s).pending)
    unfolding pending export_state
    dispatch_all-pending s v =
        let d = dispatch_all-Drains (size s) s v (omega arith) in
        let same =
          sorted_unique d.events _ (Perm.trans d.perm (Perm.symm (sort-perm s.heap.items))) d.sorted
            (sort-IsSorted s.heap.items)
            (λ a b m n.
              sound-IsAntisymmetric s v a b ((Perm.mem_iff d.perm).0 m)
                ((Perm.mem_iff d.perm).0 n)) in
        (d.returned ∙ ap ok same, d.returned ∙ ap ok same)

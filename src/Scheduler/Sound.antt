-- ===== src/Scheduler/Sound.antt =====
-- The invariant of the scheduler: the heap is in order and indexed, and every pending event has the
-- identity of its sequence number, which has been issued.
use mathlib.Core.List.{Mem}
use distlab.Base.{
  ℕ, ◌≤◌, ◌<◌, ◌≡◌, refl, sym, ◌∙◌, inl, inr, none, Option-cases, Text, units, decimal-injective,
  append-cancel, Result, ok, throw, type_error, bind, arith,
}
use distlab.Base.Actions.{and_then, ◌>>=◌, pure}
use distlab.Contracts.Events.{ScheduledEvent}
use distlab.Contracts.Observation.{ObservationInput, Observation, ObservationSink}
use distlab.Values.{max_safe}
use distlab.Scheduler.{Scheduler, event_id, observe}
use distlab.Scheduler.Heap.Order.{at}
use distlab.Scheduler.Heap.Insertion.{IsWellFormed}
use distlab.Scheduler.Heap.Removal.{mem-at}

-- An event keeps the identity of its number, and the number has been issued.
abbrev pub IsNumbered : Text → ℕ → ScheduledEvent → Type 0
IsNumbered run next event = (event.id ≡ event_id run event.sequence) × (event.sequence < next)

-- Within one run, two sequence numbers with the same identity are the same number.
pub event_id-injective : (run : Text) (m n : ℕ) → event_id run m ≡ event_id run n → m ≡ n
unfolding event_id
event_id-injective run m n e =
    let tail = append-cancel run _ _ (append-cancel (units "event:") _ _ e) in
    decimal-injective m n (append-cancel (units ":") _ _ tail)

pub record IsSound {Log : Type 0} (s : Scheduler Log) : Type 0 where
  pub well_formed : IsWellFormed s.heap
  pub numbered :
      (event : ScheduledEvent) → Mem event s.heap.items → IsNumbered s.run_id s.next event
  pub bounded : s.next ≤ max_safe

module _ {Log : Type 0} (s : Scheduler Log) (v : IsSound s) where
  -- The next identity is not taken.
  pub fresh : s.heap.positions (event_id s.run_id s.next) ≡ none
  fresh = elim (Option-cases (s.heap.positions (event_id s.run_id s.next))) [
    | inl absent ↦ absent
    | inr (i, taken) ↦
        let (p, e) = v.well_formed.synced.located _ i taken in
        let (named, issued) = v.numbered (at s.heap.items i) (mem-at s.heap.items i p) in
        let same = event_id-injective s.run_id _ _ (sym e ∙ named) in absurd (omega (arith, same))
  ]

module _ {Log : Type 0} (sink : ObservationSink Log) where
  -- The scheduler after a record, and what the record makes of a result.
  abbrev pub logged : ObservationInput → Scheduler Log → Scheduler Log
  logged input s = record s { log = (sink.observe input s.log).1 }

  abbrev pub unless_refused : {A : Type 0} → ObservationInput → Scheduler Log → A → Result A
  unless_refused input s a = bind (sink.observe input s.log).0 (λ _. ok a)

  and_then-bind :
      {S A : Type 0} (r : Result Observation) (a : A) (s : S)
      → and_then (bind r (λ _. ok tt)) (λ (_ : Unit {0}) s'. (ok a, s')) s ≡ (bind r (λ _. ok a), s)
  and_then-bind (ok _) a s = refl
  and_then-bind (throw _) a s = refl
  and_then-bind type_error a s = refl

  pub observe-pure :
      {A : Type 0} (input : ObservationInput) (a : A) (s : Scheduler Log)
      → (observe sink input >>= λ _. pure a) s ≡ (unless_refused input s a, logged input s)
  unfolding observe
  observe-pure input a s = and_then-bind (sink.observe input s.log).0 a (logged input s)

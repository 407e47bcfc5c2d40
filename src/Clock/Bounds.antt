-- ===== src/Clock/Bounds.antt =====
-- `addDuration` adds within the safe integers or refuses, and the clock moves only forwards.
use distlab.Base.{
  ℕ, ◌+◌, ◌≤◌, ◌<◌, ◌≡◌, refl, false, Bool-cases, inl, inr, ◌⊎◌, Option, Text, ok, throw, leb,
  leb→le, arith,
}
use distlab.Contracts.Errors.{time_overflow, clock_rewind, invalid_duration}
use distlab.Contracts.Observation.{ObservationSink}
use distlab.Values.{
  Number, whole, negative, negative_zero, fraction, non_finite, is_nonnegative, max_safe,
  simulation_time, duration,
}
use distlab.Scheduler.Validate.{Handlers}
use distlab.Clock.{Timeline, add_duration, advance_to}

-- From a time that is a safe integer `addDuration` gives the exact sum if the delay is a
-- non-negative safe integer and so is the sum; it refuses any other delay, and any larger sum, with a
-- code of its own.
pub add_duration_lem :
    (now : ℕ) (delay : Number)
    → now ≤ max_safe
    → ((d : ℕ) × (delay ≡ whole d) × (now + d ≤ max_safe) × (add_duration now delay ≡ ok (now + d)))
      ⊎ (((d : ℕ) × (delay ≡ whole d)
            × (d ≤ max_safe)
            × (max_safe < now + d)
            × (add_duration now delay ≡ throw time_overflow))
          ⊎ ((is_nonnegative delay ≡ false) × (add_duration now delay ≡ throw invalid_duration)))
unfolding add_duration simulation_time duration
add_duration_lem now (whole d) h = elim (Bool-cases (leb d max_safe)) [
  | inr large ↦ inr (inr (large, ground arith))
  | inl small ↦ elim (Bool-cases (leb (now + d) max_safe)) [
    | inl fits ↦ inl (d, refl, leb→le _ _ fits, ground arith)
    | inr over ↦ inr (inl (d, refl, leb→le _ _ small, ground arith, ground arith))
  ]
]
add_duration_lem now (negative n) h = inr (inr (refl, ground arith))
add_duration_lem now negative_zero h = inr (inr (refl, ground arith))
add_duration_lem now (fraction n) h = inr (inr (refl, ground arith))
add_duration_lem now (non_finite n) h = inr (inr (refl, ground arith))

module _ {Log : Type 0} (sink : ObservationSink Log) (handlers : Handlers) where
  -- The clock never goes back, whatever time it is told, and it never leaves the safe integers.
  pub advance_to-forwards :
      (time : Number) (cause : Option Text) (t : Timeline Log)
      → t.clock.time ≤ max_safe
      → (t.clock.time ≤ (advance_to sink handlers time cause t).1.clock.time)
        × ((advance_to sink handlers time cause t).1.clock.time ≤ max_safe)
  unfolding advance_to simulation_time
  advance_to-forwards time cause t h = ground arith

  -- A time before the clock's is refused, and changes nothing.
  pub advance_to_rewind :
      (time : ℕ) (cause : Option Text) (t : Timeline Log)
      → t.clock.time ≤ max_safe
      → time < t.clock.time
      → advance_to sink handlers (whole time) cause t ≡ (throw clock_rewind, t)
  unfolding advance_to simulation_time
  advance_to_rewind time cause t h late = ground arith

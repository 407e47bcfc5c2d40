-- ===== src/Clock.antt =====
-- packages/kernel/src/clock.ts: `addDuration` and `DeterministicVirtualClock`. The clock writes to the
-- scheduler and to the history, so its calls act on the three together.
pub mod Timely
pub mod Bounds
use distlab.Base.{
  ℕ, suc, ◌+◌, Bool, true, false, not, ◌&&◌, ◌||◌, Option, none, some, List, [], ◌∷◌, Text, units,
  text_eq, decimal, Result, ok, throw, bind, ltb, leb, ◌==◌, if◌then◌else◌,
}
use distlab.Base.Actions.{Action, and_then, ◌>>=◌, ◌>>◌, pure, get, put, lift, raise}
use distlab.Contracts.Errors.{
  ErrorCode, time_overflow, clock_rewind, stale_capability, no_active_task, invalid_event_type,
  invalid_simulation_time,
}
use distlab.Contracts.Observation.{ObservationInput, ObservationSink, observation}
use distlab.Values.{
  Number, whole, Value, str, num, arr, obj, Items, nil, cons, Fields, field, end, get_field,
  put_field, is_safe, simulation_time, duration,
}
use distlab.Canonical.{Raw, canonical_copy, embed}
use distlab.Scheduler.{Scheduler, ScheduledHandle}
use distlab.Scheduler
use distlab.Scheduler.Validate.{Handlers}

-- `addDuration(now, delay)`, on a time that the clock has checked.
unfoldable pub add_duration : ℕ → Number → Result ℕ
add_duration now delay = bind (simulation_time (whole now)) λ start.
    bind (duration delay)
      λ d. if is_safe (start + d) then simulation_time (whole (start + d)) else throw time_overflow

pub record Clock : Type 0 where
  pub time : ℕ
  pub generation : ℕ
  pub start_time : Number

-- The clock and the parts that it writes to.
pub record Timeline (Log : Type 0) : Type 0 where
  pub clock : Clock
  pub scheduler : Scheduler Log

-- `{ from, to: time, causingEventId }`
abbrev advanced_data : ℕ → ℕ → Option Text → Value
advanced_data from to cause =
    let last : Fields = elim cause [
      | none ↦ end
      | some id ↦ field (units "causingEventId") (str id) end
    ] in
    obj (field (units "from") (num (whole from)) (field (units "to") (num (whole to)) last))

abbrev pub advanced_observation : ℕ → ℕ → Option Text → ObservationInput
advanced_observation from to cause =
    let bare =
      observation (units "clock.advanced") (units "simulation")
        (some (advanced_data from to cause)) in
    record bare { event_id = cause }

-- `{ time, type, payload, ...metadata }`: a key of the metadata takes the place of an earlier one.
unfoldable pub overlay : Fields → Fields → Fields
overlay fs end = fs
overlay fs (field k v more) = overlay (put_field k v fs) more

abbrev clock_draft : ℕ → Text → Value → Fields → Value
clock_draft due type payload metadata = obj (
    overlay
      (field (units "time") (num (whole due))
        (field (units "type") (str type) (field (units "payload") payload end)))
      metadata)

-- The properties that `{ ...value }` copies: those of an object, the items of an array and the code
-- units of a text under their indices.
spread_items : ℕ → Items → Fields
spread_items i nil = end
spread_items i (cons v items) = field (decimal i) v (spread_items (suc i) items)

spread_text : ℕ → Text → Fields
spread_text i [] = end
spread_text i (c ∷ s) = field (decimal i) (str (c ∷ [])) (spread_text (suc i) s)

spread : Value → Fields
unfolding spread_items spread_text
spread (obj fs) = fs
spread (arr items) = spread_items 0 items
spread (str s) = spread_text 0 s
spread _ = end

pub record ClockHandle : Type 0 where
  pub handle : ScheduledHandle
  pub clock_generation : ℕ

module _ {Log : Type 0} (sink : ObservationSink Log) (handlers : Handlers) where
  abbrev Call : Type 0 → Type 0
  Call A = Action (Timeline Log) A

  -- A call of the scheduler.
  unfoldable pub on_scheduler : {A : Type 0} → Action (Scheduler Log) A → Call A
  on_scheduler m t = let (result, s) = m t.scheduler in (result, record t { scheduler = s })

  unfoldable pub advance_to : Number → Option Text → Call (Unit {0})
  unfolding on_scheduler Scheduler.observe
  advance_to time cause t =
      and_then (simulation_time time)
        (λ to t'.
          if ltb to t'.clock.time
          then (throw clock_rewind, t')
          else (let moved = record t' { clock = record (t'.clock) { time = to } } in
              if to == t'.clock.time
              then (ok tt, moved)
              else on_scheduler
                  (Scheduler.observe sink (advanced_observation t'.clock.time to cause)) moved))
        t

  unfoldable pub reset : Option Number → Call (Unit {0})
  reset start t =
      let from : Number = elim start [ none ↦ t.clock.start_time | some n ↦ n ] in
      and_then (simulation_time from)
        (λ time t'. (
          ok tt,
          record t' {
            clock = record (t'.clock) { time = time; generation = suc t'.clock.generation };
          },
        ))
        t

  unfoldable pub schedule : Number → Text → Value → Option Raw → Call ClockHandle
  unfolding on_scheduler spread
  schedule delay type payload metadata = do
    t ← get
    due ← lift (add_duration t.clock.time delay)
    copied ← lift (elim metadata [ none ↦ ok (obj end) | some raw ↦ canonical_copy raw ])
    handle ← on_scheduler (
        Scheduler.schedule sink handlers t.clock.time
          (embed (clock_draft due type payload (spread copied))))
    pure (record { handle = handle; clock_generation = t.clock.generation })

  -- `handle.cancel()` of a handle that the clock issued.
  unfoldable pub cancel_handle : ClockHandle → Call Bool
  unfolding on_scheduler
  cancel_handle h t =
      if h.clock_generation == t.clock.generation
      then on_scheduler (Scheduler.cancel_handle sink h.handle) t
      else (throw stale_capability, t)

-- ===== src/Scheduler/Capability.antt =====
-- packages/kernel/src/scheduler.ts: `forOwner`, the capability that model code holds in place of the
-- scheduler.
use distlab.Base.{
  ℕ, Bool, true, false, not, ◌||◌, Option, none, some, Text, units, text_eq, Result, ok, throw,
  type_error, bind, ◌==◌, if◌then◌else◌,
}
use distlab.Base.Actions.{Action, and_then}
use distlab.Contracts.Errors.{stale_capability, invalid_event_type}
use distlab.Contracts.Observation.{ObservationSink}
use distlab.Values.{Value, null, str, obj, get_field, put_field}
use distlab.Canonical.{Raw, canonical_copy, embed}
use distlab.Scheduler.{Scheduler, ScheduledHandle, schedule}
use distlab.Scheduler.Validate.{Handlers}

pub record OwnerScheduler : Type 0 where
  pub owner : Text
  pub allowed : Text → Bool
  pub generation : ℕ

pub for_owner : {Log : Type 0} → Text → (Text → Bool) → Scheduler Log → OwnerScheduler
for_owner owner allowed s = record { owner = owner; allowed = allowed; generation = s.generation }

-- `copy.source !== undefined && copy.source !== owner`
abbrev pub names_other : Option Value → Text → Bool
names_other none owner = false
names_other (some (str t)) owner = not (text_eq t owner)
names_other (some _) owner = true

-- `allowedTypes.has(copy.type)`
abbrev pub allows : (Text → Bool) → Option Value → Bool
allows allowed (some (str t)) = allowed t
allows allowed _ = false

-- The draft that is passed on, under the owner's name. Only an object has the properties that are
-- read; a read on null is the host's TypeError.
unfoldable pub own_draft : OwnerScheduler → Value → Result Value
own_draft c (obj fs) =
    if not (allows c.allowed (get_field (units "type") fs))
      || names_other (get_field (units "source") fs) c.owner
      || names_other (get_field (units "target") fs) c.owner
    then throw invalid_event_type
    else ok (
        obj
          (put_field (units "target") (str c.owner) (put_field (units "source") (str c.owner) fs)))
own_draft c null = type_error
own_draft c _ = throw invalid_event_type

module _ {Log : Type 0} (sink : ObservationSink Log) where
  unfoldable pub owner_schedule :
      OwnerScheduler → Handlers → ℕ → Raw → Action (Scheduler Log) ScheduledHandle
  unfolding own_draft
  owner_schedule c handlers now draft s =
      if c.generation == s.generation
      then and_then (bind (canonical_copy draft) (own_draft c))
          (λ own. schedule sink handlers now (embed own)) s
      else (throw stale_capability, s)

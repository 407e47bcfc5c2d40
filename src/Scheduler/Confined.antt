-- ===== src/Scheduler/Confined.antt =====
-- What an accepted draft is, and that an owner's capability queues nothing in another's name.
use mathlib.Core.Path.{subst}
use distlab.Base.{
  ℕ, ◌≤◌, ◌≡◌, refl, sym, ◌∙◌, ◌≢◌, ◌⊎◌, inl, inr, true, false, Bool, not, Option, none, some, [],
  ◌∷◌, Text, units, text_eq, text_eq_iff, Result, ok, throw, type_error, bind, bind-eq-ok,
  fail_if-eq-ok, or_fail, fail_if, Bool-cases, ◌==◌, if◌then◌else◌, arith, ltb,
}
use distlab.Base.Actions.{and_then}
use distlab.Contracts.Errors.{
  ErrorCode, invalid_event_payload, invalid_simulation_time, event_in_past, invalid_event_type,
}
use distlab.Contracts.Events.{ScheduleMetadata, EventDraft}
use distlab.Contracts.Observation.{ObservationSink}
use distlab.Values.{
  Value, obj, str, Fields, field, end, get_field, put_field, keys_within, simulation_time, max_safe,
}
use distlab.Canonical.{Raw, embed, canonical_copy}
use distlab.Canonical.RoundTrip.{
  is_canonical, fields_canonical, canonical_copy-is_canonical, canonical_copy-embed,
}
use distlab.Scheduler.{Scheduler, ScheduledHandle, schedule, enqueue}
use distlab.Scheduler.Validate.{
  Handlers, draft_keys, metadata_field, metadata_of, time_of, type_of, or_throw, is_uncorrelated,
  is_other, validate_copy, validate,
}
use distlab.Scheduler.Capability.{OwnerScheduler, allows, own_draft, owner_schedule}

-- What the checks establish of the draft that they pass on.
pub record IsValid (handlers : Handlers) (now : ℕ) (fs : Fields) (d : EventDraft) : Type 0 where
  pub due : now ≤ d.time
  pub safe : d.time ≤ max_safe
  pub typed : get_field (units "type") fs ≡ some (str d.type)
  pub payload : get_field (units "payload") fs ≡ some d.payload
  pub metadata : metadata_of fs ≡ ok d.metadata
  pub correlated : is_uncorrelated d.metadata ≡ false
  pub owner : Text
  pub handled : handlers d.type ≡ some owner
  pub aimed : (d.target ≡ none) ⊎ (d.target ≡ some owner)

type_of-eq-some :
    (handlers : Handlers) (v : Option Value) (type owner : Text)
    → type_of handlers v ≡ some (type, owner)
    → (v ≡ some (str type)) × (handlers type ≡ some owner)
unfolding type_of
type_of-eq-some handlers v type owner h = ground arith

or_throw-eq-ok {ℓ} :
    {A : Type ℓ} (o : Option A) (e : ErrorCode) {a : A} → or_throw o e ≡ ok a → o ≡ some a
unfolding or_throw
or_throw-eq-ok (some x) e h = cc
or_throw-eq-ok none e h = cc

time_of-safe :
    (v : Option Value) (t : ℕ) → or_fail (time_of v) invalid_simulation_time ≡ ok t → t ≤ max_safe
unfolding time_of simulation_time
time_of-safe v t h = ground arith

is_other-false :
    (target : Option Text) (owner : Text)
    → is_other target owner ≡ false
    → (target ≡ none) ⊎ (target ≡ some owner)
is_other-false none owner h = inl refl
is_other-false (some t) owner h = inr (ground (arith, text_eq_iff t owner))

module _ (handlers : Handlers) (now : ℕ) where
  -- An object that passes the checks of a draft has a time between the clock's and the largest safe
  -- integer, a type that some owner handles, its payload and its metadata as they stand in it, a trace
  -- for each span and a span for each parent span, and no target but that owner.
  pub validate_copy-IsValid :
      (fs : Fields) (d : EventDraft)
      → validate_copy handlers now (obj fs) ≡ ok d
      → IsValid handlers now fs d
  unfolding validate_copy
  validate_copy-IsValid fs d h =
      let (_, _, h₁) =
        bind-eq-ok (fail_if (not (keys_within draft_keys fs)) invalid_event_payload) _ h in
      let (payload, held, h₂) =
        bind-eq-ok (or_throw (get_field (units "payload") fs) invalid_event_payload) _ h₁ in
      let (time, safe, h₃) =
        bind-eq-ok (or_fail (time_of (get_field (units "time") fs)) invalid_simulation_time) _ h₂ in
      let (_, early, h₄) = bind-eq-ok (fail_if (ltb time now) event_in_past) _ h₃ in
      let ((type, owner), typed, h₅) =
        bind-eq-ok (or_throw (type_of handlers (get_field (units "type") fs)) invalid_event_type) _
          h₄ in
      let (metadata, read, h₆) = bind-eq-ok (metadata_of fs) _ h₅ in
      let (_, loose, h₇) =
        bind-eq-ok (fail_if (is_uncorrelated metadata) invalid_event_payload) _ h₆ in
      let (_, other, h₈) =
        bind-eq-ok (fail_if (is_other metadata.target owner) invalid_event_type) _ h₇ in
      let made : EventDraft = record {
        metadata = metadata;
        time = time;
        type = type;
        payload = payload;
      } in
      let same : made ≡ d = cc in
      let (named, handled) = type_of-eq-some handlers _ type owner (or_throw-eq-ok _ _ typed) in
      let early' = fail_if-eq-ok (ltb time now) _ early in
      subst (λ (e : EventDraft). IsValid handlers now fs e) same
        (record {
          due = ground arith;
          safe = time_of-safe _ time safe;
          typed = named;
          payload = or_throw-eq-ok _ _ held;
          metadata = read;
          correlated = fail_if-eq-ok _ _ loose;
          owner = owner;
          handled = handled;
          aimed = is_other-false metadata.target owner (fail_if-eq-ok _ _ other);
        })

  -- A draft that is accepted as it comes is not due in the past, nor beyond the safe integers.
  pub validate_due :
      (draft : Raw) (d : EventDraft)
      → validate handlers now draft ≡ ok d
      → (now ≤ d.time) × (d.time ≤ max_safe)
  unfolding validate validate_copy
  validate_due draft d h =
      let (v, _, h') = bind-eq-ok (or_fail (canonical_copy draft) invalid_event_payload) _ h in
      due_of v h'
    where
      due_of :
          (v : Value) → validate_copy handlers now v ≡ ok d → (now ≤ d.time) × (d.time ≤ max_safe)
      due_of (obj fs) e = let k = validate_copy-IsValid fs d e in (k.due, k.safe)
      due_of Value.null e = cc
      due_of _ e = cc

get_field-put_field :
    (k j : Text) (v : Value) (fs : Fields)
    → get_field k (put_field j v fs) ≡ (if text_eq j k then some v else get_field k fs)
unfolding get_field put_field
get_field-put_field k j v end = refl
get_field-put_field k j v (field i w fs) =
    ground (arith, text_eq_iff i j, text_eq_iff i k, text_eq_iff j k, get_field-put_field k j v fs)

fields_canonical-put_field :
    (k : Text) (v : Value) (fs : Fields)
    → is_canonical v ≡ true
    → fields_canonical fs ≡ true
    → fields_canonical (put_field k v fs) ≡ true
unfolding fields_canonical put_field
fields_canonical-put_field k v end p q = ground arith
fields_canonical-put_field k v (field j w fs) p q =
    ground (arith, fields_canonical-put_field k v fs p)

-- The owner's name in a field of a draft.
metadata_named :
    (fs : Fields) (key owner : Text) (o : Option Text)
    → get_field key fs ≡ some (str owner)
    → owner ≢ []
    → metadata_field fs key ≡ ok o
    → o ≡ some owner
unfolding metadata_field
metadata_named fs key [] o e ne h = absurd (ne refl)
metadata_named fs key (c ∷ owner) o e ne h = ground arith

metadata_parts :
    (fs : Fields) (m : ScheduleMetadata)
    → metadata_of fs ≡ ok m
    → (metadata_field fs (units "source") ≡ ok m.source)
      × (metadata_field fs (units "target") ≡ ok m.target)
unfolding metadata_of
metadata_parts fs m h =
    let (source, s, h₁) = bind-eq-ok (metadata_field fs (units "source")) _ h in
    let (target, t, h₂) = bind-eq-ok (metadata_field fs (units "target")) _ h₁ in
    let (trace, _, h₃) = bind-eq-ok (metadata_field fs (units "traceId")) _ h₂ in
    let (span, _, h₄) = bind-eq-ok (metadata_field fs (units "spanId")) _ h₃ in
    let (parent, _, h₅) = bind-eq-ok (metadata_field fs (units "parentSpanId")) _ h₄ in
    let (cause, _, h₆) = bind-eq-ok (metadata_field fs (units "causationId")) _ h₅ in (cc, cc)

-- The draft that the capability passes on.
abbrev owned : Text → Fields → Fields
owned owner fs = put_field (units "target") (str owner) (put_field (units "source") (str owner) fs)

module _ (owner : Text) (fs : Fields) where
  abbrev sourced_fields : Fields
  sourced_fields = put_field (units "source") (str owner) fs

  owned_source : get_field (units "source") (owned owner fs) ≡ some (str owner)
  unfolding text_eq
  owned_source =
      get_field-put_field (units "source") (units "target") (str owner) sourced_fields
      ∙ get_field-put_field (units "source") (units "source") (str owner) fs

  owned_target : get_field (units "target") (owned owner fs) ≡ some (str owner)
  unfolding text_eq
  owned_target = get_field-put_field (units "target") (units "target") (str owner) sourced_fields

  owned_type : get_field (units "type") (owned owner fs) ≡ get_field (units "type") fs
  unfolding text_eq
  owned_type =
      get_field-put_field (units "type") (units "target") (str owner) sourced_fields
      ∙ get_field-put_field (units "type") (units "source") (str owner) fs

record IsOwn (c : OwnerScheduler) (v w : Value) : Type 0 where
  fs : Fields
  given : v ≡ obj fs
  passed : w ≡ obj (owned c.owner fs)
  type : Text
  typed : get_field (units "type") fs ≡ some (str type)
  allowed : c.allowed type ≡ true

allows-eq-true :
    (allowed : Text → Bool) (o : Option Value)
    → allows allowed o ≡ true
    → (t : Text) × (o ≡ some (str t)) × (allowed t ≡ true)
allows-eq-true allowed (some (str t)) h = (t, refl, h)
allows-eq-true allowed none h = cc
allows-eq-true allowed (some _) h = cc

own_draft-IsOwn : (c : OwnerScheduler) (v w : Value) → own_draft c v ≡ ok w → IsOwn c v w
unfolding own_draft
own_draft-IsOwn c (obj fs) w h =
    let may : allows c.allowed (get_field (units "type") fs) ≡ true = ground arith in
    let (type, typed, allowed) = allows-eq-true c.allowed (get_field (units "type") fs) may in
    record {
      fs = fs;
      given = refl;
      passed = ground arith;
      type = type;
      typed = typed;
      allowed = allowed;
    }
own_draft-IsOwn c Value.null w h = cc
own_draft-IsOwn c _ w h = cc

-- A draft in the owner's name, of a type that the owner may use.
pub record IsConfined (c : OwnerScheduler) (now : ℕ) (d : EventDraft) : Type 0 where
  pub sourced : d.source ≡ some c.owner
  pub targeted : d.target ≡ some c.owner
  pub permitted : c.allowed d.type ≡ true
  pub due : now ≤ d.time

module _ (handlers : Handlers) (now : ℕ) (c : OwnerScheduler) (named : c.owner ≢ []) where
  owned-IsConfined :
      (fs : Fields) (type : Text) (d : EventDraft)
      → get_field (units "type") fs ≡ some (str type)
      → c.allowed type ≡ true
      → IsValid handlers now (owned c.owner fs) d
      → IsConfined c now d
  owned-IsConfined fs type d typed allowed v =
      let (source, target) = metadata_parts _ d.metadata v.metadata in
      let read : some (str type) ≡ some (str d.type) =
        sym typed ∙ sym (owned_type c.owner fs) ∙ v.typed in
      let same : type ≡ d.type = cc in
      record {
        sourced =
            metadata_named _ (units "source") c.owner d.source (owned_source c.owner fs) named
              source;
        targeted =
            metadata_named _ (units "target") c.owner d.target (owned_target c.owner fs) named
              target;
        permitted = rw same at allowed;
        due = v.due;
      }

  -- A canonical draft goes straight to the checks.
  schedule-embed :
      {Log : Type 0} (sink : ObservationSink Log) (v : Value) (s : Scheduler Log)
      → is_canonical v ≡ true
      → schedule sink handlers now (embed v) s
        ≡ and_then (validate_copy handlers now v) (enqueue sink) s
  unfolding schedule validate
  schedule-embed sink v s good = rw (canonical_copy-embed v good)

  and_then-eq-ok :
      {S A B : Type 0} (r : Result A) (f : A → S → Result B × S) (s : S) {b : B}
      → (and_then r f s).0 ≡ ok b
      → (a : A) × (r ≡ ok a)
  and_then-eq-ok (ok a) f s h = (a, refl)
  and_then-eq-ok (throw e) f s h = cc
  and_then-eq-ok type_error f s h = cc

  own-IsConfined :
      {Log : Type 0} (sink : ObservationSink Log) (v own : Value) (s : Scheduler Log)
      (handle : ScheduledHandle)
      → is_canonical v ≡ true
      → own_draft c v ≡ ok own
      → (schedule sink handlers now (embed own) s).0 ≡ ok handle
      → (d : EventDraft) × IsConfined c now d
        × (schedule sink handlers now (embed own) s ≡ enqueue sink d s)
  unfolding is_canonical
  own-IsConfined sink v own s handle good drafted h =
      let o = own_draft-IsOwn c v own drafted in
      let fs_good : fields_canonical o.fs ≡ true = rw o.given at good in
      let sourced = fields_canonical-put_field (units "source") (str c.owner) o.fs refl fs_good in
      let own_good : is_canonical own ≡ true =
        rw o.passed (fields_canonical-put_field (units "target") (str c.owner) _ refl sourced) in
      let step = schedule-embed sink own s own_good in
      let (d, checked) =
        and_then-eq-ok (validate_copy handlers now own) (enqueue sink) s (rw step at h) in
      let valid =
        validate_copy-IsValid handlers now (owned c.owner o.fs) d (rw o.passed at checked) in
      (d, owned-IsConfined o.fs o.type d o.typed o.allowed valid, step ∙ rw checked)

  -- What an owner's call queues, if it is accepted: a draft in the owner's name, of a type that the
  -- owner may use and not due in the past, queued as any other; and the capability is not stale.
  pub owner_schedule-IsConfined :
      {Log : Type 0} (sink : ObservationSink Log) (draft : Raw) (s : Scheduler Log)
      (handle : ScheduledHandle)
      → (owner_schedule sink c handlers now draft s).0 ≡ ok handle
      → (c.generation ≡ s.generation)
        × (d : EventDraft) × IsConfined c now d
        × (owner_schedule sink c handlers now draft s ≡ enqueue sink d s)
  unfolding owner_schedule
  owner_schedule-IsConfined sink draft s handle h =
      elim (Bool-cases (c.generation == s.generation)) [
        | inr stale ↦ absurd (let bad = rw stale at h in cc)
        | inl current ↦
            let h' = rw current at h in
            let (own, passed) = and_then-eq-ok (bind (canonical_copy draft) (own_draft c)) _ s h' in
            let (v, copied, drafted) = bind-eq-ok (canonical_copy draft) (own_draft c) passed in
            let (d, confined, queued) =
              own-IsConfined sink v own s handle (canonical_copy-is_canonical draft v copied)
                drafted (rw passed at h') in
            rw current (ground arith, d, confined, rw passed queued)
      ]

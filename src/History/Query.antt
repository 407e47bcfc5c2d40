-- ===== src/History/Query.antt =====
-- packages/kernel/src/history.ts: `query`, which looks one index up and filters what stands there.
use distlab.Base.{
  ℕ, Bool, true, false, not, ◌&&◌, ◌||◌, Option, none, some, List, [], ◌∷◌, Text, text_eq, Result,
  ok, throw, ltb, leb, if◌then◌else◌,
}
use distlab.Contracts.Errors.{invalid_observation_filter}
use distlab.Contracts.Observation.{EntityRef, Observation}
use distlab.Values.{is_safe}
use distlab.History.{History, entity_key, entities_of}
use distlab.History.Validation.{is_named}

pub record ObservationFilter : Type 0 where
  pub from_time : Option ℕ
  pub to_time : Option ℕ
  pub type : Option Text
  pub component : Option Text
  pub trace_id : Option Text
  pub event_id : Option Text
  pub entity : Option EntityRef

unfoldable pub keep : (Observation → Bool) → List Observation → List Observation
keep p [] = []
keep p (r ∷ rs) = let rest = keep p rs in if p r then r ∷ rest else rest

-- `wanted === undefined || given === wanted`
unfoldable pub is_text : Option Text → Text → Bool
is_text none given = true
is_text (some wanted) given = text_eq given wanted

unfoldable pub is_some_text : Option Text → Text → Bool
is_some_text none wanted = false
is_some_text (some given) wanted = text_eq given wanted

unfoldable pub is_option : Option Text → Option Text → Bool
unfolding is_some_text
is_option none given = true
is_option (some wanted) given = is_some_text given wanted

unfoldable pub names_component : Option Text → Observation → Bool
unfolding is_some_text
names_component none r = true
names_component (some wanted) r = text_eq r.source wanted || is_some_text r.target wanted

unfoldable pub has_entity : List EntityRef → EntityRef → Bool
has_entity [] entity = false
has_entity (e ∷ es) entity =
    (text_eq e.kind entity.kind && text_eq e.id entity.id) || has_entity es entity

unfoldable pub names_entity : Option EntityRef → Observation → Bool
unfolding has_entity
names_entity none r = true
names_entity (some entity) r = has_entity (entities_of r.entity_refs) entity

unfoldable pub in_time : Option ℕ → Option ℕ → ℕ → Bool
in_time none none time = true
in_time (some from) none time = not (ltb time from)
in_time none (some to) time = not (ltb to time)
in_time (some from) (some to) time = not (ltb time from) && not (ltb to time)

-- `matches(record, filter)`
unfoldable pub matches : ObservationFilter → Observation → Bool
unfolding is_text is_option names_component names_entity in_time
matches f r =
    in_time f.from_time f.to_time r.time
    && is_text f.type r.type
    && names_component f.component r
    && is_option f.trace_id r.trace_id
    && is_option f.event_id r.event_id
    && names_entity f.entity r

unfoldable pub is_time : Option ℕ → Bool
is_time none = true
is_time (some t) = is_safe t

unfoldable pub is_interval : Option ℕ → Option ℕ → Bool
is_interval (some from) (some to) = leb from to
is_interval _ _ = true

-- `validateFilter(filter)`
unfoldable pub is_filter : ObservationFilter → Bool
unfolding is_named is_time is_interval
is_filter f =
    is_time f.from_time
    && is_time f.to_time
    && is_interval f.from_time f.to_time
    && is_named f.type
    && is_named f.component
    && is_named f.trace_id
    && is_named f.event_id
    && elim f.entity [ none ↦ true | some e ↦ is_named (some e.kind) && is_named (some e.id) ]

-- The index that is looked up: by type, trace, event, component or entity, the first that is asked for.
unfoldable pub indexed : ObservationFilter → History → Option (List Observation)
unfolding entity_key
indexed f h = elim f.type [
  | some type ↦ h.by_type type
  | none ↦ elim f.trace_id [
    | some trace ↦ h.by_trace trace
    | none ↦ elim f.event_id [
      | some event ↦ h.by_event event
      | none ↦ elim f.component [
        | some component ↦ h.by_component component
        | none ↦ elim f.entity [ none ↦ none | some entity ↦ h.by_entity (entity_key entity) ]
      ]
    ]
  ]
]

-- `if (indexed) candidate = indexed`
unfoldable pub candidates : ObservationFilter → History → List Observation
unfolding indexed
candidates f h = elim (indexed f h) [ none ↦ h.records | some records ↦ records ]

-- `query(filter)`
unfoldable pub query : ObservationFilter → History → Result (List Observation)
unfolding is_filter candidates keep matches
query f h =
    if is_filter f then ok (keep (matches f) (candidates f h)) else throw invalid_observation_filter

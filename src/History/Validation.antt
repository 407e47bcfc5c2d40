-- ===== src/History/Validation.antt =====
-- packages/kernel/src/history.ts: `validate`, the checks on a record and what its visibility leaves
-- of it.
use distlab.Base.{
  ℕ, Bool, true, false, not, ◌&&◌, ◌||◌, Option, none, some, List, [], ◌∷◌, Text, units, Result, ok,
  throw, bind, fail_if, or_fail, leb, ◌==◌, ◌>>=◌, ◌>>◌, if◌then◌else◌,
}
use distlab.Contracts.Errors.{
  invalid_observation, unknown_observation_type, invalid_observation_schema,
}
use distlab.Contracts.Observation.{EntityRef, ObservationInput, Observation}
use distlab.Values.{Value, bool, obj, Fields, field, end, get_field}
use distlab.Canonical.{embed, canonical_copy}
use distlab.History.{
  VisibilityMode, visible, summary, redacted, omitted, VisibilityPolicy, Schema, History,
  entities_of,
}

abbrev is_lower : ℕ → Bool
is_lower c = leb 97 c && leb c 122

abbrev is_digit : ℕ → Bool
is_digit c = leb 48 c && leb c 57

-- The rest of a type: whether a dot was seen, and whether a segment starts here.
unfoldable pub segments : (dotted starts : Bool) → Text → Bool
segments dotted starts [] = dotted && not starts
segments dotted true (c ∷ s) = is_lower c && segments dotted false s
segments dotted false (c ∷ s) =
    let next = segments true true s in
    let same = segments dotted false s in
    if c == 46 then next else (is_lower c || is_digit c || c == 45) && same

-- `validType(value)`
unfoldable pub valid_type : Text → Bool
unfolding segments
valid_type s = segments false true s

-- `value === undefined || isIdentifier(value)`
unfoldable pub is_named : Option Text → Bool
is_named none = true
is_named (some []) = false
is_named (some (c ∷ s)) = true

abbrev is_missing : Option Text → Bool
is_missing none = true
is_missing (some _) = false

abbrev pub is_known : (Text → Option Observation) → Option Text → Bool
is_known by_id none = true
is_known by_id (some id) = elim (by_id id) [ none ↦ false | some _ ↦ true ]

-- `validateCorrelation(raw, byId)`
unfoldable pub is_correlated : ObservationInput → (Text → Option Observation) → Bool
unfolding is_named
is_correlated input by_id =
    is_named input.trace_id
    && is_named input.span_id
    && is_named input.parent_span_id
    && is_named input.causation_id
    && is_named input.event_id
    && not (not (is_missing input.span_id) && is_missing input.trace_id)
    && not (
        not (is_missing input.parent_span_id)
        && (is_missing input.span_id || is_missing input.trace_id))
    && is_known by_id input.causation_id

-- `freezeEntities(value)`
unfoldable pub are_entities : List EntityRef → Bool
unfolding is_named
are_entities [] = true
are_entities (e ∷ es) = is_named (some e.kind) && is_named (some e.id) && are_entities es

unfoldable pub summary_of : List Text → Fields → Fields
summary_of [] fs = end
summary_of (key ∷ keys) fs =
    let rest = summary_of keys fs in
    elim (get_field key fs) [ none ↦ rest | some v ↦ field key v rest ]

-- `transformData(type, data, policy)`
unfoldable pub transform : Text → Option Value → VisibilityPolicy → Result (Option Value)
unfolding summary_of
transform type content policy =
    let mode : VisibilityMode = elim (policy.by_type type) [
      | none ↦ policy.default_mode
      | some m ↦ m
    ] in
    elim mode [
      | omitted ↦ ok none
      | redacted ↦ ok (some (obj (field (units "redacted") (bool true) end)))
      | visible ↦ ok content
      | summary ↦ elim (policy.summary_fields type) [
        | none ↦ throw invalid_observation
        | some keys ↦ elim content [
          | some (obj fs) ↦ ok (some (obj (summary_of keys fs)))
          | _ ↦ throw invalid_observation
        ]
      ]
    ]

-- The data, copied.
unfoldable pub content_of : Option Value → Result (Option Value)
content_of none = ok none
content_of (some v) =
    bind (or_fail (canonical_copy (embed v)) invalid_observation) (λ copy. ok (some copy))

-- What the schema says of the data, an exception included.
unfoldable pub accepts : Schema → Option Value → Bool
accepts schema content = elim (schema content) [ ok b ↦ b | _ ↦ false ]

-- `validate(input)`
unfoldable pub validate : ObservationInput → History → Result ObservationInput
unfolding valid_type is_named content_of accepts is_correlated are_entities transform
validate input h = do
  fail_if
      (not (valid_type input.type)
        || not (is_named (some input.source))
        || not (is_named input.target))
      invalid_observation
  schema ← elim (h.schemas input.type) [ none ↦ throw unknown_observation_type | some s ↦ ok s ]
  content ← content_of input.content
  fail_if (not (accepts schema content)) invalid_observation_schema
  fail_if (not (is_correlated input h.by_id)) invalid_observation
  fail_if (not (are_entities (entities_of input.entity_refs))) invalid_observation
  shown ← transform input.type content h.visibility
  ok (record input { content = shown })

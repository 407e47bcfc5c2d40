-- ===== src/Examples/Histories.antt =====
-- A history with one record, whose source is its target.
use distlab.Base.{
  ℕ, ◌≡◌, refl, true, false, none, some, List, [], units, text_eq, Result, ok, throw, length,
  if◌then◌else◌,
}
use distlab.Contracts.Errors.{invalid_observation_filter}
use distlab.Contracts.Observation.{ObservationInput, Observation, observation}
use distlab.History.{History, visible}
use distlab.History.Recording.{append}
use distlab.History.Query.{ObservationFilter, keep, matches, is_filter, query}
use distlab.History.Indexes.{IsIndexed, append-IsIndexed, query_lem, uses_key}

abbrev history : History
history = record {
  limit = 10;
  visibility = record { default_mode = visible; by_type = λ _. none; summary_fields = λ _. none };
  ids = record { prefix = units "observation"; run_id = units "r1"; next = 0 };
  schemas = λ _. some (λ _. ok true);
  records = [];
  by_id = λ _. none;
  by_type = λ _. none;
  by_component = λ _. none;
  by_trace = λ _. none;
  by_event = λ _. none;
  by_entity = λ _. none;
  pending = [];
  delivering = false;
  sealed = false;
}

abbrev input : ObservationInput
input =
    let bare = observation (units "a.b") (units "shop") none in
    record bare { target = some (units "shop") }

history-IsIndexed : IsIndexed history
unfolding keep
history-IsIndexed = record { types = λ k. refl; traces = λ k n. refl; events = λ k n. refl }

abbrev recorded : History
recorded = (append 4 input history).1

append-IsIndexed_example : IsIndexed recorded
append-IsIndexed_example = append-IsIndexed 4 input history history-IsIndexed

abbrev anything : ObservationFilter
anything = record {
  from_time = none;
  to_time = none;
  type = none;
  component = none;
  trace_id = none;
  event_id = none;
  entity = none;
}

abbrev by_type : ObservationFilter
by_type = record anything { type = some (units "a.b") }

by_type_uses : uses_key by_type ≡ true
unfolding uses_key
by_type_uses = refl

recorded-IsIndexed : IsIndexed recorded
recorded-IsIndexed = append-IsIndexed 4 input history history-IsIndexed

query_lem_example : query by_type recorded ≡ (
    if is_filter by_type
    then ok (keep (matches by_type) recorded.records)
    else throw invalid_observation_filter)
query_lem_example = query_lem by_type recorded recorded-IsIndexed by_type_uses

-- The number of records that an answer holds.
count : Result (List Observation) → ℕ
count (ok records) = length records
count _ = 0

-- A query for the component gives the one record twice.
count-query : count (query (record anything { component = some (units "shop") }) recorded) ≡ 2
unfolding query append count text_eq
count-query = refl

-- ===== src/Contracts/Observation.antt =====
-- packages/contracts/src/kernel/observability.ts: what is recorded, and the sink that records it.
use distlab.Base.{ℕ, Option, none, List, Text, Action}
use distlab.Values.{Value}

pub record EntityRef : Type 0 where
  pub kind : Text
  pub id : Text

pub record ObservationInput : Type 0 where
  pub type : Text
  pub source : Text
  pub target : Option Text
  pub trace_id : Option Text
  pub span_id : Option Text
  pub parent_span_id : Option Text
  pub causation_id : Option Text
  pub event_id : Option Text
  pub entity_refs : Option (List EntityRef)
  pub content : Option Value

pub record Observation : Type 0 where
  pub input : ObservationInput
  pub open input use *
  pub id : Text
  pub time : ℕ
  pub sequence : ℕ

-- A component holds only this capability of the history; `Log` is the history's state, and a
-- refused record throws.
pub record ObservationSink (Log : Type 0) : Type 0 where
  pub observe : ObservationInput → Action Log Observation

-- An input with a type, a source and data alone.
abbrev pub observation : Text → Text → Option Value → ObservationInput
observation type source content = record {
  type = type;
  source = source;
  target = none;
  trace_id = none;
  span_id = none;
  parent_span_id = none;
  causation_id = none;
  event_id = none;
  entity_refs = none;
  content = content;
}

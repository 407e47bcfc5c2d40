-- ===== src/Contracts/Events.antt =====
-- packages/contracts/src/kernel/events.ts: queued work.
use distlab.Base.{ℕ, Option, Text}
use distlab.Values.{Value}

pub record ScheduleMetadata : Type 0 where
  pub source : Option Text
  pub target : Option Text
  pub trace_id : Option Text
  pub span_id : Option Text
  pub parent_span_id : Option Text
  pub causation_id : Option Text

pub record EventDraft : Type 0 where
  pub metadata : ScheduleMetadata
  pub open metadata use *
  pub time : ℕ
  pub type : Text
  pub payload : Value

pub record ScheduledEvent : Type 0 where
  pub draft : EventDraft
  pub open draft use *
  pub id : Text
  pub sequence : ℕ

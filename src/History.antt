-- ===== src/History.antt =====
-- packages/kernel/src/history.ts: `ExecutionHistory`, its records and its indexes. Inputs and
-- filters are taken at their declared types.
pub mod Validation
pub mod Recording
pub mod Query
pub mod Indexes
use distlab.Base.{
  ℕ, Bool, true, false, not, ◌&&◌, ◌||◌, Option, none, some, List, [], ◌∷◌, ◌++◌, Text, text_eq,
  Result, if◌then◌else◌,
}
use distlab.Contracts.Observation.{EntityRef, Observation}
use distlab.Values.{Value}
use distlab.Identity.{Allocator}

pub data VisibilityMode : Type 0 where
  visible summary redacted omitted : VisibilityMode

pub record VisibilityPolicy : Type 0 where
  pub default_mode : VisibilityMode
  pub by_type : Text → Option VisibilityMode
  pub summary_fields : Text → Option (List Text)

-- A schema is a function of the caller, and may throw.
abbrev pub Schema : Type 0
Schema = Option Value → Result Bool

abbrev pub Index : Type 0
Index = Text → Option (List Observation)

pub record History : Type 0 where
  pub limit : ℕ
  pub visibility : VisibilityPolicy
  pub ids : Allocator
  pub schemas : Text → Option Schema
  pub records : List Observation
  pub by_id : Text → Option Observation
  pub by_type : Index
  pub by_component : Index
  pub by_trace : Index
  pub by_event : Index
  pub by_entity : Index
  pub pending : List Observation
  pub delivering : Bool
  pub sealed : Bool

abbrev pub held : Option (List Observation) → List Observation
held none = []
held (some records) = records

-- `add(map, key, value)`
unfoldable pub add_index : Index → Text → Observation → Index
add_index index key value other =
    if text_eq key other then some (held (index other) ++ value ∷ []) else index other

-- `if (key) add(map, key, value)`
unfoldable pub add_some : Index → Option Text → Observation → Index
unfolding add_index
add_some index (some (c ∷ key)) value = add_index index (c ∷ key) value
add_some index _ value = index

-- `entityKey(entity)`
unfoldable pub entity_key : EntityRef → Text
entity_key entity = entity.kind ++ 0 ∷ entity.id

unfoldable pub add_entities : Index → List EntityRef → Observation → Index
unfolding add_index entity_key
add_entities index [] value = index
add_entities index (entity ∷ entities) value =
    add_entities (add_index index (entity_key entity) value) entities value

abbrev pub entities_of : Option (List EntityRef) → List EntityRef
entities_of none = []
entities_of (some entities) = entities

-- `index(record)`
unfoldable pub index_record : Observation → History → History
unfolding add_index add_some add_entities
index_record r h = record h {
  by_id = λ id. if text_eq r.id id then some r else h.by_id id;
  by_type = add_index h.by_type r.type r;
  by_component = add_some (add_index h.by_component r.source r) r.target r;
  by_trace = add_some h.by_trace r.trace_id r;
  by_event = add_some h.by_event r.event_id r;
  by_entity = add_entities h.by_entity (entities_of r.entity_refs) r;
}

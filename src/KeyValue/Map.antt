-- ===== src/KeyValue/Map.antt =====
-- packages/kernel/src/key-value-store.ts: the entries of a store, a Map in the order of insertion, and
-- what the store keeps of an event's correlation.
use distlab.Base.{
  ℕ, Bool, false, not, Option, none, some, List, [], ◌∷◌, Text, text_eq, if◌then◌else◌, ltb,
}
use distlab.Contracts.Events.{ScheduledEvent}
use distlab.Values.{Value, truthy}
use distlab.Scheduler.{ScheduledHandle}

pub record Link : Type 0 where
  pub event_id : Option Text
  pub trace_id : Option Text
  pub span_id : Option Text
  pub parent_span_id : Option Text
  pub causation_id : Option Text

-- `{}`
abbrev pub no_link : Link
no_link = record {
  event_id = none;
  trace_id = none;
  span_id = none;
  parent_span_id = none;
  causation_id = none;
}

pub record Entry : Type 0 where
  pub value : Value
  pub expires_at : Option ℕ
  pub generation : ℕ
  pub handle : Option ScheduledHandle
  pub cause : Option Link

-- `#link(event)`
unfoldable pub link_of : Option ScheduledEvent → Link
unfolding truthy
link_of none = no_link
link_of (some event) = record {
  event_id = none;
  trace_id = truthy event.trace_id;
  span_id = truthy event.span_id;
  parent_span_id = truthy event.parent_span_id;
  causation_id = truthy event.causation_id;
}

abbrev pub Entries : Type 0
Entries = List (Text × Entry)

-- `#entries.get(key)`
unfoldable pub find_entry : Text → Entries → Option Entry
find_entry key [] = none
find_entry key ((k, e) ∷ es) = if text_eq k key then some e else find_entry key es

-- `#entries.set(key, entry)`: an old key keeps its place.
unfoldable pub put_entry : Text → Entry → Entries → Entries
put_entry key entry [] = (key, entry) ∷ []
put_entry key entry ((k, e) ∷ es) =
    let later = (k, e) ∷ put_entry key entry es in if text_eq k key then (k, entry) ∷ es else later

-- `#entries.delete(key)`
unfoldable pub drop_entry : Text → Entries → Entries
drop_entry key [] = []
drop_entry key ((k, e) ∷ es) =
    let later = drop_entry key es in if text_eq k key then later else (k, e) ∷ later

-- `expiresAt !== undefined && now >= expiresAt`
unfoldable pub has_expired : ℕ → Entry → Bool
has_expired now e = elim e.expires_at [ none ↦ false | some at ↦ not (ltb now at) ]

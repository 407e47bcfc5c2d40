-- ===== src/KeyValue/Operations.antt =====
-- packages/kernel/src/key-value-store.ts: the calls of a store.
use distlab.Base.{
  ◌==◌, ℕ, Bool, true, false, not, ◌&&◌, Option, none, some, [], ◌∷◌, Text, units, text_eq, Result,
  ok, throw, bind, fail_if, if◌then◌else◌,
}
use distlab.Base.Actions.{Action, and_then, ◌>>=◌, ◌>>◌, pure, get, put, lift}
use distlab.Contracts.Errors.{kv_not_integer, kv_counter_overflow}
use distlab.Values.{Number, whole, Value, num, str, obj, field, end, with_field, is_safe_integer}
use distlab.Canonical.{Raw}
use distlab.Canonical.Encode.{encode}
use distlab.KeyValue.{
  Store, Host, SetOptions, ExpectedValue, absent, present, copied, ttl_of, tag, successor, active,
  due, next, arm, note, cancel_expiry, drop_expired, live, value_of,
}
use distlab.KeyValue.Map.{
  Entries, Link, no_link, Entry, link_of, find_entry, put_entry, drop_entry, has_expired,
}

unfoldable pub read_data : Text → Option Value → Value
unfolding tag
read_data key v = elim (tag v) [ obj fs ↦ obj (field (units "key") (str key) fs) | other ↦ other ]

unfoldable pub changed_data : Text → Text → Option Value → Option Value → Option ℕ → Value
unfolding tag
changed_data key operation before after expires_at = obj (
    field (units "key") (str key) (
      field (units "operation") (str operation) (
        field (units "before") (tag before) (
          field (units "after") (tag after) (
            with_field (units "expiresAt")
              (elim expires_at [ none ↦ none | some at ↦ some (num (whole at)) ]) end)))))

unfoldable pub condition_data : Text → Text → Value
condition_data key operation =
    obj (field (units "key") (str key) (field (units "operation") (str operation) end))

abbrev pub is_present : Option Entry → Bool
is_present none = false
is_present (some _) = true

abbrev pub is_set : Option Bool → Bool
is_set (some b) = b
is_set none = false

-- The number that a value is.
unfoldable pub counter : Value → Result Number
counter (num n) = if is_safe_integer n then ok n else throw kv_not_integer
counter _ = throw kv_not_integer

-- The number that an entry holds, or 0.
unfoldable pub counter_of : Option Entry → Result Number
unfolding counter
counter_of none = ok (whole 0)
counter_of (some entry) = counter entry.value

-- `{ ...previous?.cause }` without its event
unfoldable pub retained : Option Entry → Link
retained none = no_link
retained (some entry) = elim entry.cause [
  | none ↦ no_link
  | some link ↦ record link { event_id = none }
]

abbrev pub expiry_of : Option Entry → Option ℕ
expiry_of none = none
expiry_of (some entry) = entry.expires_at

-- `expectedOf(expected)`
unfoldable pub expected_of : ExpectedValue → Result (Option Value)
unfolding copied
expected_of absent = ok none
expected_of (present v) = bind (copied v) (λ copy. ok (some copy))

module _ {Log : Type 0} (host : Host Log) where
  abbrev Call : Type 0 → Type 0
  Call A = Action (Store Log) A

  -- `get(key)`
  unfoldable pub get_key : Text → Call (Option Value)
  unfolding active live note read_data
  get_key key = do
    lift (active host key)
    entry ← live host key
    note host (units "kv.read") (read_data key (value_of entry)) none
    pure (value_of entry)

  -- The tail of a write: the new expiry is armed before the old one is cancelled.
  unfoldable pub replace_entry :
      Text → ℕ → Value → Option ℕ → Link → Text → Option Entry → Call (Unit {0})
  unfolding arm cancel_expiry note changed_data
  replace_entry key generation value expires_at trace operation previous = do
    armed ← arm host key generation expires_at trace
    cancel_expiry host previous
    s ← get
    put (record s {
      entries =
          put_entry key
            (record {
              value = value;
              expires_at = armed.expires_at;
              generation = generation;
              handle = armed.handle;
              cause = armed.cause;
            })
            s.entries;
      generations = λ k. if text_eq key k then some generation else s.generations k;
    })
    note host (units "kv.changed")
        (changed_data key operation (value_of previous) (some value) expires_at) none

  -- `#write(key, value, ttl, operation, previous)`
  unfoldable pub write : Text → Value → Option ℕ → Text → Option Entry → Call (Unit {0})
  unfolding next due replace_entry
  write key value ttl operation previous = do
    s ← get
    generation ← lift (next host key s)
    expires_at ← lift (due host ttl)
    replace_entry key generation value expires_at (link_of host.active_event) operation previous

  -- `set(key, value, options)`
  unfoldable pub set_key : Text → Raw → SetOptions → Call Bool
  unfolding active copied ttl_of next due live note write condition_data
  set_key key value options = do
    lift (active host key)
    copy ← lift (copied value)
    ttl ← lift (ttl_of options.ttl)
    s ← get
    _ ← lift (next host key s)
    _ ← lift (due host ttl)
    previous ← live host key
    if is_set options.if_absent && is_present previous
        then (note host (units "kv.condition.failed") (condition_data key (units "set")) none
            >>= λ _. pure false)
        else (write key copy ttl (units "set") previous >>= λ _. pure true)

  -- The tail of `delete`, when there is an entry.
  unfoldable pub erase : Text → Option Entry → Call Bool
  unfolding cancel_expiry note changed_data
  erase key previous = do
    cancel_expiry host previous
    s ← get
    put (record s { entries = drop_entry key s.entries })
    note host (units "kv.changed") (changed_data key (units "delete") (value_of previous) none none)
        none
    pure true

  -- `delete(key)`
  unfoldable pub delete_key : Text → Call Bool
  unfolding active live erase
  delete_key key = do
    lift (active host key)
    previous ← live host key
    if not (is_present previous) then pure false else erase key previous

  -- `increment(key)`
  unfoldable pub increment : Text → Call Number
  unfolding active next live counter_of replace_entry retained
  increment key = do
    lift (active host key)
    s ← get
    _ ← lift (next host key s)
    previous ← live host key
    n ← lift (counter_of previous)
    lift (fail_if (not (is_safe_integer (successor n))) kv_counter_overflow)
    t ← get
    generation ← lift (next host key t)
    replace_entry key generation (num (successor n)) (expiry_of previous) (retained previous)
        (units "increment") previous
    pure (successor n)

  -- What is expected, by the encodings.
  unfoldable pub matches : Option Value → Option Entry → Bool
  matches none previous = not (is_present previous)
  matches (some v) none = false
  matches (some v) (some entry) =
      text_eq (encode host.number_text entry.value) (encode host.number_text v)

  -- `compareAndSet(key, expected, next, options)`
  unfoldable pub compare_and_set : Text → ExpectedValue → Raw → Option Number → Call Bool
  unfolding active expected_of copied ttl_of next due live matches note condition_data write
  compare_and_set key expected value ttl = do
    lift (active host key)
    checked ← lift (expected_of expected)
    copy ← lift (copied value)
    ttl ← lift (ttl_of ttl)
    s ← get
    _ ← lift (next host key s)
    _ ← lift (due host ttl)
    previous ← live host key
    if not (matches checked previous)
        then (note host (units "kv.condition.failed") (condition_data key (units "compareAndSet"))
              none
            >>= λ _. pure false)
        else (write key copy ttl (units "compareAndSet") previous >>= λ _. pure true)

  -- An entry of that generation that has expired is dropped.
  unfoldable pub expire_found : Text → ℕ → Option Entry → Call (Unit {0})
  unfolding drop_expired
  expire_found key generation none s = (ok tt, s)
  expire_found key generation (some entry) s =
      if entry.generation == generation && has_expired host.now entry
      then drop_expired host key entry s
      else (ok tt, s)

  -- `expire(event)`, with the key and the generation of the event's payload
  unfoldable pub expire : Text → ℕ → Call (Unit {0})
  unfolding expire_found
  expire key generation s =
      and_then host.check (λ _ t. expire_found key generation (find_entry key t.entries) t) s

  -- One round of `scheduleInitialExpiries`.
  unfoldable pub arm_initial : Text × Entry → Call (Unit {0})
  unfolding arm
  arm_initial (key, entry) = elim entry.expires_at [
    | none ↦ pure tt
    | some at ↦ elim entry.handle [
      | some _ ↦ pure tt
      | none ↦ (do
        armed ← arm host key entry.generation (some at) no_link
        s ← get
        put (record s {
          entries =
              put_entry key (record entry { handle = armed.handle; cause = armed.cause }) s.entries;
        }))
    ]
  ]

  unfoldable pub arm_all : Entries → Call (Unit {0})
  unfolding arm_initial
  arm_all [] = pure tt
  arm_all (e ∷ es) = arm_initial e >>= λ _. arm_all es

  -- `scheduleInitialExpiries()`
  unfoldable pub schedule_initial_expiries : Call (Unit {0})
  unfolding arm_all
  schedule_initial_expiries s =
      if s.initial_expiries_scheduled
      then (ok tt, s)
      else arm_all s.entries (record s { initial_expiries_scheduled = true })

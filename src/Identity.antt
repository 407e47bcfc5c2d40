-- ===== src/Identity.antt =====
-- packages/kernel/src/identity.ts: `DeterministicIdAllocator` and `DeterministicCorrelationController`.
pub mod Allocation
pub mod Spans
pub mod Controller
use distlab.Base.{
  ℕ, suc, ◌+◌, Bool, true, false, not, ◌&&◌, ◌||◌, Option, none, some, List, [], ◌∷◌, ◌++◌, Text,
  units, text_eq, decimal, Result, ok, throw, ltb, if◌then◌else◌,
}
use distlab.Base.Actions.{Action, ◌>>=◌, ◌>>◌, pure, get, put, lift, raise}
use distlab.Contracts.Errors.{identity_overflow, invalid_run_input, invalid_observation}
use distlab.Values.{Number, whole, is_safe, max_safe}

pub record Allocator : Type 0 where
  pub prefix : Text
  pub run_id : Text
  pub next : ℕ

-- The constructor: a start that is not a safe integer, is negative or is -0 is refused.
unfoldable pub create : Text → Text → Number → Result Allocator
create (c ∷ prefix) (d ∷ run) (whole n) =
    if is_safe n
    then ok (record { prefix = c ∷ prefix; run_id = d ∷ run; next = n })
    else throw invalid_run_input
create _ _ _ = throw invalid_run_input

unfoldable pub can_allocate : Allocator → Bool
can_allocate a = is_safe a.next && ltb a.next max_safe

-- `${prefix}:${runId}:${next}`
unfoldable pub identity : Text → Text → ℕ → Text
identity prefix run n = prefix ++ (units ":" ++ (run ++ (units ":" ++ decimal n)))

unfoldable pub allocate : Action Allocator Text
unfolding can_allocate
allocate a =
    if can_allocate a
    then (ok (identity a.prefix a.run_id a.next), record a { next = suc a.next })
    else (throw identity_overflow, a)

pub record CorrelationContext : Type 0 where
  pub trace_id : Text
  pub span_id : Text
  pub parent_span_id : Option Text

pub record Correlation : Type 0 where
  pub traces : Allocator
  pub spans : Allocator
  pub contexts : Text → Option CorrelationContext

-- The constructor of the controller.
unfoldable pub create_controller : Text → Result Correlation
create_controller [] = throw invalid_run_input
create_controller (c ∷ run) = ok (record {
  traces = record { prefix = units "trace"; run_id = c ∷ run; next = 0 };
  spans = record { prefix = units "span"; run_id = c ∷ run; next = 0 };
  contexts = λ _. none;
})

-- `#contexts.set(context.spanId, context)`
unfoldable pub store : CorrelationContext → Action Correlation CorrelationContext
store context c = (
  ok context,
  record c { contexts = λ id. if text_eq context.span_id id then some context else c.contexts id },
)

-- `#traces.allocate()` and `#spans.allocate()`
unfoldable pub next_trace : Action Correlation Text
unfolding allocate
next_trace c = let (result, traces) = allocate c.traces in (result, record c { traces = traces })

unfoldable pub next_span : Action Correlation Text
unfolding allocate
next_span c = let (result, spans) = allocate c.spans in (result, record c { spans = spans })

unfoldable pub root : Action Correlation CorrelationContext
unfolding store next_trace next_span can_allocate
root = do
  c ← get
  if not (can_allocate c.traces) || not (can_allocate c.spans)
      then raise identity_overflow
      else pure tt
  trace_id ← next_trace
  span_id ← next_span
  store (record { trace_id = trace_id; span_id = span_id; parent_span_id = none })

-- `a === b` of optional texts
unfoldable pub same_option : Option Text → Option Text → Bool
same_option none none = true
same_option (some s) (some t) = text_eq s t
same_option _ _ = false

unfoldable pub child : CorrelationContext → Action Correlation CorrelationContext
unfolding store next_span same_option
child parent c = elim (c.contexts parent.span_id) [
  | none ↦ (throw invalid_observation, c)
  | some known ↦
      if not (text_eq known.trace_id parent.trace_id)
        || not (same_option known.parent_span_id parent.parent_span_id)
      then (throw invalid_observation, c)
      else (next_span >>= λ span_id. store (record {
        trace_id = known.trace_id;
        span_id = span_id;
        parent_span_id = some known.span_id;
      }))
          c
]

unfoldable pub has_span : Text → Text → Option Text → Correlation → Bool
unfolding same_option
has_span trace span parent c = elim (c.contexts span) [
  | none ↦ false
  | some context ↦ text_eq context.trace_id trace && same_option context.parent_span_id parent
]

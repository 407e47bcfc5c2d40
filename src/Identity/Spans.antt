-- ===== src/Identity/Spans.antt =====
-- The correlation contexts of a run: each is stored under a span of its own, and the parents lead back,
-- inside one trace, to a root.
use mathlib.Core.Path.{subst}
use distlab.Base.{
  ℕ, suc, ◌≤◌, ◌<◌, ◌≡◌, refl, ◌∙◌, ap, ◌≢◌, ◌⊎◌, ◌↔◌, inl, inr, true, Bool, not, ◌||◌, Bool-cases,
  Option, none, some, Option-cases, Text, text_eq, text_eq_iff, Result, ok, throw, arith,
  if◌then◌else◌,
}
use distlab.Base.Actions.{◌>>=◌}
use distlab.Contracts.Errors.{identity_overflow, invalid_observation}
use distlab.Values.{max_safe}
use distlab.Identity.{
  Allocator, allocate, can_allocate, identity, Correlation, CorrelationContext, root, child, store,
  next_trace, next_span, same_option,
}
use distlab.Identity.Allocation.{identity-injective}

-- A stored context stands under its own span, which was given out after its parent's, and its parent is
-- stored and is in the same trace.
pub record IsLinked (c : Correlation) (span : Text) (context : CorrelationContext) : Type 0 where
  pub own : context.span_id ≡ span
  pub number : ℕ
  pub issued : span ≡ identity c.spans.prefix c.spans.run_id number
  pub earlier : number < c.spans.next
  pub rooted :
      (parent : Text)
      → context.parent_span_id ≡ some parent
      → (above : CorrelationContext) × (k : ℕ) × (c.contexts parent ≡ some above)
        × (above.trace_id ≡ context.trace_id)
        × (parent ≡ identity c.spans.prefix c.spans.run_id k)
        × (k < number)

abbrev pub IsForest : Correlation → Type 0
IsForest c =
    (span : Text) (context : CorrelationContext)
    → c.contexts span ≡ some context
    → IsLinked c span context

-- The next span is not taken.
pub unused :
    (c : Correlation)
    → IsForest c
    → c.contexts (identity c.spans.prefix c.spans.run_id c.spans.next) ≡ none
unused c f =
    elim (Option-cases (c.contexts (identity c.spans.prefix c.spans.run_id c.spans.next))) [
      | inl free ↦ free
      | inr (context, taken) ↦
          let l = f _ context taken in
          let same = identity-injective c.spans.prefix c.spans.run_id _ _ l.issued in
          absurd (omega (arith, same, l.earlier))
    ]

-- The state after a new context was stored under the next span.
abbrev pub extended : Correlation → Allocator → CorrelationContext → Correlation
extended c traces context = record {
  traces = traces;
  spans = record (c.spans) { next = suc c.spans.next };
  contexts = λ id. if text_eq context.span_id id then some context else c.contexts id;
}

-- What the new context has to show.
pub record Fits (c : Correlation) (context : CorrelationContext) : Type 0 where
  pub fresh : context.span_id ≡ identity c.spans.prefix c.spans.run_id c.spans.next
  pub rooted :
      (parent : Text)
      → context.parent_span_id ≡ some parent
      → (above : CorrelationContext) × (c.contexts parent ≡ some above)
        × (above.trace_id ≡ context.trace_id)

module _ (c : Correlation) (f : IsForest c) (traces : Allocator) (context : CorrelationContext)
    (fits : Fits c context) where
  pub kept :
      (span : Text) (old : CorrelationContext)
      → c.contexts span ≡ some old
      → (extended c traces context).contexts span ≡ some old
  kept span old e = ground (arith, text_eq_iff context.span_id span, unused c f, fits.fresh)

  extended-IsLinked :
      (span : Text) (old : CorrelationContext)
      → c.contexts span ≡ some old
      → IsLinked (extended c traces context) span old
  extended-IsLinked span old e =
      let l = f span old e in
      record {
        own = l.own;
        number = l.number;
        issued = l.issued;
        earlier = omega (arith, l.earlier);
        rooted = λ parent p.
            let (above, k, found, trace, named, less) = l.rooted parent p in
            (above, k, kept parent above found, trace, named, less);
      }

  new-IsLinked : IsLinked (extended c traces context) context.span_id context
  new-IsLinked = record {
    own = refl;
    number = c.spans.next;
    issued = fits.fresh;
    earlier = omega arith;
    rooted = λ parent p.
        let (above, found, trace) = fits.rooted parent p in
        let l = f parent above found in
        (above, l.number, kept parent above found, trace, l.issued, l.earlier);
  }

  pub extended-IsForest : IsForest (extended c traces context)
  extended-IsForest span old e = elim (Bool-cases (text_eq context.span_id span)) [
    | inl here ↦
        let same : context.span_id ≡ span = (text_eq_iff context.span_id span).0 here in
        let stored : context ≡ old = ground arith in
        subst (λ (s : Text). IsLinked (extended c traces context) s old) same
          (subst
            (λ (x : CorrelationContext). IsLinked (extended c traces context) context.span_id x)
            stored new-IsLinked)
    | inr other ↦ extended-IsLinked span old (ground arith)
  ]

abbrev pub root_context : Correlation → CorrelationContext
root_context c = record {
  trace_id = identity c.traces.prefix c.traces.run_id c.traces.next;
  span_id = identity c.spans.prefix c.spans.run_id c.spans.next;
  parent_span_id = none;
}

abbrev pub child_context : Correlation → CorrelationContext → CorrelationContext
child_context c known = record {
  trace_id = known.trace_id;
  span_id = identity c.spans.prefix c.spans.run_id c.spans.next;
  parent_span_id = some known.span_id;
}

pub root_ok :
    (c : Correlation)
    → c.traces.next < max_safe
    → c.spans.next < max_safe
    → root c ≡ (
      ok (root_context c),
      extended c (record (c.traces) { next = suc c.traces.next }) (root_context c),
    )
unfolding root can_allocate allocate next_trace next_span store
root_ok c t s = ground arith

-- Without a number left for the trace and for the span, no number is spent and nothing is stored.
pub root_overflow :
    (c : Correlation)
    → (max_safe ≤ c.traces.next) ⊎ (max_safe ≤ c.spans.next)
    → root c ≡ (throw identity_overflow, c)
unfolding root can_allocate
root_overflow c (inl h) = ground arith
root_overflow c (inr h) = ground arith

pub same_option_iff : (s t : Option Text) → (same_option s t ≡ true) ↔ (s ≡ t)
unfolding same_option
same_option_iff none none = (λ _. refl, λ _. refl)
same_option_iff none (some t) = (λ h. cc, λ h. cc)
same_option_iff (some s) none = (λ h. cc, λ h. cc)
same_option_iff (some s) (some t) = ground (arith, text_eq_iff s t)

-- How a call of `child` can go.
pub data Answers (parent : CorrelationContext) (c : Correlation)
    (r : Result CorrelationContext × Correlation) : Type 0 where
  unknown :
      ((known : CorrelationContext)
        → c.contexts parent.span_id ≡ some known
        → known.trace_id ≡ parent.trace_id
        → known.parent_span_id ≢ parent.parent_span_id)
      → r ≡ (throw invalid_observation, c)
      → Answers parent c r
  spent : max_safe ≤ c.spans.next → r ≡ (throw identity_overflow, c) → Answers parent c r
  stored :
      (known : CorrelationContext)
      → c.contexts parent.span_id ≡ some known
      → known.trace_id ≡ parent.trace_id
      → known.parent_span_id ≡ parent.parent_span_id
      → r ≡ (ok (child_context c known), extended c c.traces (child_context c known))
      → Answers parent c r

abbrev is_other : CorrelationContext → CorrelationContext → Bool
is_other known parent =
    not (text_eq known.trace_id parent.trace_id)
    || not (same_option known.parent_span_id parent.parent_span_id)

child_found :
    (parent known : CorrelationContext) (c : Correlation)
    → c.contexts parent.span_id ≡ some known
    → child parent c ≡ (
        if is_other known parent
        then (throw invalid_observation, c)
        else (next_span >>= λ span_id. store (record {
          trace_id = known.trace_id;
          span_id = span_id;
          parent_span_id = some known.span_id;
        }))
            c)
unfolding child
child_found parent known c found = rw (found, child)

pub child-Answers :
    (parent : CorrelationContext) (c : Correlation) → Answers parent c (child parent c)
unfolding child allocate can_allocate next_span store
child-Answers parent c = elim (Option-cases (c.contexts parent.span_id)) [
  | inl absent ↦ unknown (λ known found. cc) (rw (absent, child))
  | inr (known, found) ↦
      let trace = text_eq_iff known.trace_id parent.trace_id in
      let up = same_option_iff known.parent_span_id parent.parent_span_id in
      elim (Bool-cases (is_other known parent)) [
        | inl other ↦
            unknown
              (λ k at e f.
                let same : known ≡ k = cc in
                let t = trace.1 (ap (λ (x : CorrelationContext). x.trace_id) same ∙ e) in
                let u = up.1 (ap (λ (x : CorrelationContext). x.parent_span_id) same ∙ f) in
                ground arith)
              (child_found parent known c found ∙ rw other)
        | inr same ↦ elim (Bool-cases (can_allocate c.spans)) [
          | inl free ↦
              stored known found (ground arith) (ground arith)
                (child_found parent known c found ∙ rw same (ground arith))
          | inr full ↦
              spent (ground arith) (child_found parent known c found ∙ rw same (ground arith))
        ]
      ]
]

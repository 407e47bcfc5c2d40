-- ===== src/Identity/Controller.antt =====
-- The calls of the correlation controller, in any order.
use mathlib.Core.Path.{subst}
use distlab.Base.{
  ◌≡◌, refl, sym, ◌∙◌, ap, inl, inr, true, Bool-cases, Option, none, some, Option-cases, [], ◌∷◌,
  Text, units, text_eq_iff, ok, arith, leb,
}
use distlab.Values.{max_safe}
use distlab.Identity.{
  Allocator, Correlation, CorrelationContext, root, child, has_span, create_controller,
}
use distlab.Identity.Spans.{
  IsForest, Fits, kept, unused, extended, extended-IsForest, root_context, child_context, root_ok,
  root_overflow, unknown, spent, stored, child-Answers, same_option_iff,
}

-- The calls of the controller.
pub data ControllerCall : Type 0 where
  opens : ControllerCall
  nests : CorrelationContext → ControllerCall

unfoldable pub after : ControllerCall → Correlation → Correlation
after opens c = (root c).1
after (nests parent) c = (child parent c).1

-- A call leaves the contexts as they are, or adds one that fits.
data Grows (c : Correlation) : Correlation → Type 0 where
  same : Grows c c
  grown : (traces : Allocator) (x : CorrelationContext) → Fits c x → Grows c (extended c traces x)

root-Fits : (c : Correlation) → Fits c (root_context c)
root-Fits c = record { fresh = refl; rooted = λ parent p. cc }

child-Fits :
    (c : Correlation) (span : Text) (known : CorrelationContext)
    → IsForest c
    → c.contexts span ≡ some known
    → Fits c (child_context c known)
child-Fits c span known f found = record {
  fresh = refl;
  rooted = λ parent p.
      let own = (f span known found).own in
      let here : span ≡ parent = sym own ∙ cc in (known, rw here at found, refl);
}

root-Grows : (c : Correlation) → Grows c (root c).1
root-Grows c = elim (Bool-cases (leb max_safe c.traces.next)) [
  | inl full ↦ rw (root_overflow c (inl (ground arith))) same
  | inr free ↦ elim (Bool-cases (leb max_safe c.spans.next)) [
    | inl full ↦ rw (root_overflow c (inr (ground arith))) same
    | inr free' ↦
        rw (root_ok c (ground arith) (ground arith)) (grown _ (root_context c) (root-Fits c))
  ]
]

child-Grows :
    (parent : CorrelationContext) (c : Correlation) → IsForest c → Grows c (child parent c).1
child-Grows parent c f = elim (child-Answers parent c) [
  | unknown _ gone ↦ rw gone same
  | spent _ gone ↦ rw gone same
  | stored known found _ _ e ↦
      rw e (grown c.traces (child_context c known) (child-Fits c parent.span_id known f found))
]

after-Grows : (call : ControllerCall) (c : Correlation) → IsForest c → Grows c (after call c)
unfolding after
after-Grows opens c f = root-Grows c
after-Grows (nests parent) c f = child-Grows parent c f

Grows-IsForest : (c : Correlation) {d : Correlation} → IsForest c → Grows c d → IsForest d
Grows-IsForest c f same = f
Grows-IsForest c f (grown traces x fits) = extended-IsForest c f traces x fits

-- What the stored context shows is found again.
stored_found :
    (c : Correlation) (traces : Allocator) (x : CorrelationContext)
    → has_span x.trace_id x.span_id x.parent_span_id (extended c traces x) ≡ true
unfolding has_span
stored_found c traces x = ground (
  arith,
  text_eq_iff x.span_id x.span_id,
  text_eq_iff x.trace_id x.trace_id,
  same_option_iff x.parent_span_id x.parent_span_id,
)

Grows-has_span :
    (trace span : Text) (parent : Option Text) (c : Correlation) {d : Correlation}
    → IsForest c
    → Grows c d
    → has_span trace span parent c ≡ true
    → has_span trace span parent d ≡ true
unfolding has_span
Grows-has_span trace span parent c f same h = h
Grows-has_span trace span parent c f (grown traces x fits) h =
    elim (Option-cases (c.contexts span)) [
      | inl absent ↦ absurd (let h' = rw (has_span, absent) at h in cc)
      | inr (old, found) ↦
          let still = kept c f traces x fits span old found in
          let h' = rw (has_span, found) at h in rw (has_span, still) h'
    ]

pub data Runs (c : Correlation) : Correlation → Type 0 where
  start : Runs c c
  call : {d : Correlation} → Runs c d → (k : ControllerCall) → Runs c (after k d)

create_controller-IsForest :
    (run : Text) {c : Correlation} → create_controller run ≡ ok c → IsForest c
unfolding create_controller
create_controller-IsForest [] h = cc
create_controller-IsForest (a ∷ run) {c} h =
    let e' : ◌≡◌ {A = Correlation}
        (record {
          traces = record { prefix = units "trace"; run_id = a ∷ run; next = 0 };
          spans = record { prefix = units "span"; run_id = a ∷ run; next = 0 };
          contexts = λ _. none;
        })
        c =
      cc in
    subst (λ (d : Correlation). IsForest d) e' (λ span context e. absurd (cc))

Runs-IsForest : {c d : Correlation} → IsForest c → Runs c d → IsForest d
Runs-IsForest f start = f
Runs-IsForest f (call {d} r k) = let g = Runs-IsForest f r in Grows-IsForest d g (after-Grows k d g)

-- Whatever roots and children are asked for, from a new controller on: each stored context stands
-- under its own span, an issued one, and its parent is stored, in the same trace, under a span that
-- was issued earlier. So the parents of a context end at a root.
pub controller-IsForest :
    (run : Text) {c d : Correlation} → create_controller run ≡ ok c → Runs c d → IsForest d
controller-IsForest run made r = Runs-IsForest (create_controller-IsForest run made) r

-- A span that is known, with its trace and its parent, is known after any further calls.
pub has_span-kept :
    (trace span : Text) (parent : Option Text) {c d : Correlation}
    → IsForest c
    → has_span trace span parent c ≡ true
    → Runs c d
    → has_span trace span parent d ≡ true
has_span-kept trace span parent f h start = h
has_span-kept trace span parent f h (call {d} r k) =
    let g = Runs-IsForest f r in
    Grows-has_span trace span parent d g (after-Grows k d g) (has_span-kept trace span parent f h r)

-- The context that `child` returns continues the trace of the parent under the parent's span, and is
-- known from then on.
pub child_known :
    (parent x : CorrelationContext) (c : Correlation)
    → IsForest c
    → (child parent c).0 ≡ ok x
    → (x.trace_id ≡ parent.trace_id)
      × (x.parent_span_id ≡ some parent.span_id)
      × (c.contexts x.span_id ≡ none)
      × (has_span x.trace_id x.span_id x.parent_span_id (child parent c).1 ≡ true)
child_known parent x c f h = elim (child-Answers parent c) [
  | unknown _ gone ↦ absurd (let h' = rw gone at h in cc)
  | spent _ gone ↦ absurd (let h' = rw gone at h in cc)
  | stored known found trace _ e ↦
      let same : child_context c known ≡ x = let h' = rw e at h in cc in
      subst
        (λ (y : CorrelationContext).
          (y.trace_id ≡ parent.trace_id)
          × (y.parent_span_id ≡ some parent.span_id)
          × (c.contexts y.span_id ≡ none)
          × (has_span y.trace_id y.span_id y.parent_span_id (child parent c).1 ≡ true))
        same
        (
          trace,
          ap some (f parent.span_id known found).own,
          unused c f,
          rw e (stored_found c c.traces (child_context c known)),
        )
]

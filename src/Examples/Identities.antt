-- ===== src/Examples/Identities.antt =====
-- Identities and correlation contexts on small inputs.
use distlab.Base.{◌≡◌, refl, true, none, some, units, text_eq, decimal, ok, arith}
use distlab.Values.{max_safe}
use distlab.Identity.{
  Allocator, Correlation, CorrelationContext, create_controller, root, child, has_span, identity,
}
use distlab.Identity.Allocation.{Allocates, allocate_all, allocate_all-Allocates}
use distlab.Identity.Spans.{IsForest}
use distlab.Identity.Controller.{
  opens, nests, after, Runs, start, call, controller-IsForest, child_known,
}

abbrev allocator : Allocator
allocator = record { prefix = units "task"; run_id = units "r1"; next = 7 }

allocate_all-Allocates_example : Allocates 3 allocator (allocate_all 3 allocator)
allocate_all-Allocates_example = allocate_all-Allocates 3 allocator (omega arith)

abbrev controller : Correlation
controller = record {
  traces = record { prefix = units "trace"; run_id = units "r1"; next = 0 };
  spans = record { prefix = units "span"; run_id = units "r1"; next = 0 };
  contexts = λ _. none;
}

made : create_controller (units "r1") ≡ ok controller
unfolding create_controller
made = refl

abbrev first : CorrelationContext
first = record {
  trace_id = identity (units "trace") (units "r1") 0;
  span_id = identity (units "span") (units "r1") 0;
  parent_span_id = none;
}

abbrev opened : Correlation
opened = after opens controller

abbrev nested : Correlation
nested = after (nests first) opened

opening : Runs controller opened
opening = call start opens

nesting : Runs opened nested
nesting = call start (nests first)

controller-IsForest_example : IsForest opened
controller-IsForest_example = controller-IsForest (units "r1") made opening

known : has_span first.trace_id first.span_id none opened ≡ true
unfolding has_span after root text_eq identity decimal
known = refl

opened-IsForest : IsForest opened
opened-IsForest = controller-IsForest (units "r1") made opening

abbrev second : CorrelationContext
second = record {
  trace_id = first.trace_id;
  span_id = identity (units "span") (units "r1") 1;
  parent_span_id = some first.span_id;
}

answered : (child first opened).0 ≡ ok second
unfolding child after root text_eq identity decimal
answered = refl

child_known_example :
    (second.trace_id ≡ first.trace_id)
    × (second.parent_span_id ≡ some first.span_id)
    × (opened.contexts second.span_id ≡ none)
    × (has_span second.trace_id second.span_id second.parent_span_id (child first opened).1 ≡ true)
child_known_example = child_known first second opened opened-IsForest answered

abbrev spent_controller : Correlation
spent_controller = record controller { spans = record (controller.spans) { next = max_safe } }

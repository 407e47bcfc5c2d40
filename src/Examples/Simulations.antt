-- ===== src/Examples/Simulations.antt =====
-- A simulation whose scheduler is the list of pending events: one order and a handler for it.
use distlab.Base.{
  ◌≡◌, text_eq, refl, true, false, Option, none, some, List, [], ◌∷◌, Text, units, length, ok,
}
use distlab.Base.Actions.{Action, pure}
use distlab.Contracts.Errors.{handler_failed}
use distlab.Contracts.Events.{ScheduledEvent}
use distlab.Values
use distlab.Values.{Value, num, obj, field, end, whole}
use distlab.Simulation
use distlab.Simulation.{Simulation, Failure, Ports, Code, Returned}
use distlab.Canonical
use distlab.Canonical.{embed}
use distlab.Base.Dicts
use distlab.Simulation.Operations
use distlab.Simulation.Operations.{Outcome, success, unknown, complete_checked}
use distlab.Simulation.Settled.{Releases, complete_checked-once}
use distlab.Simulation.Control
use distlab.Simulation.Events.{dispatch, boundary}
use distlab.Simulation.Control.{run, read_options}
use distlab.Simulation.Ends.{Ends, Keeps}
use distlab.Simulation.Latch.{dispatch-Ends}
use distlab.Simulation.Runs.{Runs, run-Runs}
use distlab.Simulation.Refusals.{
  Entry, steps, pauses, runs, creates, registers, enter_by, after_all, refusal, failed_run-Refuses,
}
use distlab.Simulation.Boundary.{Decides, boundary-Decides}
use distlab.Samples.{shop, order_placed, draft}

abbrev Queue : Type 0
Queue = List ScheduledEvent

abbrev event : ScheduledEvent
event = record { draft = draft 1; id = units "e"; sequence = 0 }

abbrev take : Action Queue (Option ScheduledEvent)
take [] = (ok none, [])
take (e ∷ es) = (ok (some e), es)

abbrev look : Queue → Option ScheduledEvent
look [] = none
look (e ∷ es) = some e

abbrev ports : Ports Queue
ports = record {
  take_next = take;
  peek = look;
  size = λ es. length es;
  now = λ _. 1;
  advance_to = λ _ _. pure tt;
  resume_sleep = λ _ _. pure tt;
  cancel = λ _. pure true;
  sink = record {
    observe =
        λ input es. (ok (record { input = input; id = units "o"; time = 1; sequence = 0 }), es);
  };
  last = λ _. none;
  seal_failure = λ _ es. es;
  flush = λ es. es;
  renew = pure [];
}

abbrev code : Code Queue
code = record {
  handle = λ _ _. pure Returned.nothing;
  resume = λ _ _. pure Simulation.finishes;
  initialize = pure tt;
  after_initialization = pure tt;
  after_event = λ _. pure tt;
  on_completion = pure tt;
  on_failure = λ _. pure tt;
  turn = λ s. s;
}

hook : (f : Failure) (s : Simulation Queue) → Keeps s (code.on_failure f s).1
hook f s = record { failure = λ g e. e }

abbrev begun : Simulation Queue
begun = record {
  run_id = units "r1";
  status = Simulation.ready;
  locked = false;
  pausing = false;
  failure = none;
  generation = 1;
  total = 0;
  processed = 0;
  active = none;
  dispatching = false;
  event = none;
  origin_event = none;
  tasks = [];
  live = [];
  operations = [];
  process_generations = (shop, 0) ∷ [];
  handlers = (order_placed, shop) ∷ [];
  sealed = true;
  initializing = false;
  task_ids = record { prefix = units "task"; run_id = units "r1"; next = 0 };
  operation_ids = record { prefix = units "operation"; run_id = units "r1"; next = 0 };
  world = event ∷ [];
}

abbrev failure : Failure
failure = record { code = handler_failed; event_id = none; dispatched_id = none; rejected = none }

abbrev broken : Simulation Queue
broken = record begun { failure = some failure; status = Simulation.failed }

-- A task waits and nothing is pending.
abbrev stuck : Simulation Queue
stuck = record begun { live = units "task:r1:0" ∷ []; world = [] }

dispatch-Ends_example : Ends (dispatch ports code begun)
dispatch-Ends_example = dispatch-Ends ports code hook begun

abbrev options : Option Value
options = some (obj (field (units "maxEvents") (num (whole 3)) end))

read : read_options options ≡ ok (3, 1000)
unfolding read_options Values.keys_within Values.includes text_eq Control.limits Control.limit_of
    Values.get_field
read = refl

run-Runs_example : Runs 3 (run ports code options begun)
run-Runs_example = run-Runs ports code hook options begun refl read

-- Calls of both controls, of this attempt and of another one.
abbrev entries : List (Entry Queue)
entries = steps ∷ pauses ∷ creates 1 ∷ creates 0 ∷ registers 1 order_placed shop ∷ []

failed_run-Refuses_example :
    (after_all ports code entries broken ≡ broken)
    × (enter_by ports code (runs none) (after_all ports code entries broken)
        ≡ (refusal broken failure (runs none), broken))
failed_run-Refuses_example =
    failed_run-Refuses ports code broken failure refl entries (runs none) refl

boundary-Decides_example : Decides ports stuck (boundary ports code stuck)
boundary-Decides_example = boundary-Decides ports code hook stuck refl

abbrev operation : Text
operation = units "operation:r1:0"

abbrev waiter : Text
waiter = units "task:r1:0"

-- A task waits for its operation while another event is dispatched.
abbrev waiting : Simulation Queue
waiting = record begun {
  dispatching = true;
  tasks =
      (
        waiter,
        record {
          id = waiter;
          owner = shop;
          event = event;
          waiting = some operation;
          created = none;
          process_generation = some 0;
        },
      )
      ∷ [];
  live = waiter ∷ [];
  operations = (operation, record { task = waiter; settled = false; wake = none }) ∷ [];
}

nothing : Outcome
nothing = success (embed Value.null)

woken :
    (t : Simulation Queue) × (complete_checked 1 operation nothing waiting
      ≡ (ok (some (waiter, Simulation.succeeds Value.null)), t))
unfolding complete_checked nothing Simulation.check Simulation.refuse_failed
    Operations.operation_or_fail Dicts.find text_eq Operations.resume_for Operations.is_live
    Operations.task_of Operations.settle_for Operations.is_text Operations.read_outcome
    Canonical.canonical_copy embed Operations.settle Operations.write_task
woken = (_, refl)

complete_checked-once_example :
    Releases operation nothing waiter (Simulation.succeeds Value.null) waiting woken.0
    × (complete_checked 1 operation unknown woken.0 ≡ (ok none, woken.0))
complete_checked-once_example =
    complete_checked-once 1 operation nothing unknown waiting woken.0 woken.1

-- ===== src/Examples/Injection.antt =====
-- A fault engine with one rule, which delays the first request.
use distlab.Base.{ℕ, suc, ◌≡◌, refl, true, false, none, some, [], ◌∷◌, units, ok, arith, text_eq}
use distlab.Values.{whole}
use distlab.Values
use distlab.Faults
use distlab.Faults.{
  FaultProbe, FaultRule, FaultDecision, Engine, Ports, network_request, delay, probe_identity,
}
use distlab.Faults.Evaluation.{evaluate}
use distlab.Faults.Applications.{IsWithin, evaluate-IsWithin}
use distlab.Faults.Probes.{Refused, Evaluates, here, next, evaluate_once}
use distlab.Samples.{Records, keeping}

abbrev ports : Ports ℕ Records
ports = record {
  sink = keeping;
  random = record { draw = λ label n. (ok n, suc n) };
  unit_below = λ bits p. false;
  components = units "web" ∷ units "shop" ∷ [];
  now = 4;
  dispatching = some true;
  active_event = none;
}

abbrev rule : FaultRule
rule = record {
  id = units "slow";
  point = network_request;
  source = none;
  target = some (units "shop");
  name = none;
  from = 2;
  until = some 9;
  occurrence = none;
  probability = whole 1;
  max_applications = 1;
  effect = delay 3;
}

abbrev probe : FaultProbe
probe = record {
  point = network_request;
  subject_id = units "request:1";
  source = units "web";
  target = units "shop";
  name = units "buy";
}

abbrev engine : Engine ℕ Records
engine = record {
  states = record { rule = rule; candidates = 0; applications = 0 } ∷ [];
  generation = 0;
  probes = [];
  applied = [];
  random = 0;
  log = [];
}

abbrev evaluated : Engine ℕ Records
evaluated = (evaluate ports 0 probe engine).1

abbrev delayed : FaultDecision
delayed = record {
  rule_ids = units "slow" ∷ [];
  extra_delay = 3;
  drop = false;
  additional_copies = 0;
  copy_spacing = 0;
  fail = false;
}

engine-IsWithin : IsWithin engine.states
unfolding IsWithin
engine-IsWithin = (omega arith, tt)

evaluate-IsWithin_example : IsWithin evaluated.states
evaluate-IsWithin_example = evaluate-IsWithin ports 0 probe engine engine-IsWithin

evaluation : evaluate ports 0 probe engine ≡ (ok delayed, evaluated)
unfolding evaluate Faults.is_missing Values.includes text_eq
evaluation = refl

-- Another probe is evaluated in between.
abbrev other : FaultProbe
other = record probe { subject_id = units "request:2" }

between : Evaluates evaluated (evaluate ports 0 other evaluated).1
between = next here ports 0 other

evaluate_once_example : Refused ports 0 probe (evaluate ports 0 other evaluated).1
evaluate_once_example = evaluate_once ports ports 0 0 probe engine evaluated evaluation between

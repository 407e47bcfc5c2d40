-- ===== src/Network/Policies.antt =====
-- packages/kernel/src/network.ts: the policy of a link and the constructor. Policies are taken as
-- canonical values.
use distlab.Base.{
  ℕ, Bool, true, false, not, ◌||◌, Option, none, some, List, [], ◌∷◌, Text, units, Result, ok,
  throw, bind, fail_if, leb, ◌==◌, if◌then◌else◌,
}
use distlab.Base.Dicts.{Dict, find, enter, is_some}
use distlab.Contracts.Errors.{invalid_run_input, invalid_registration}
use distlab.Values.{
  Number, whole, negative_zero, fraction, Value, null, num, obj, Fields, end, get_field,
  keys_within, includes, is_safe,
}
use distlab.Network.{NetworkPolicy, Network, Call, link_key, Host}
use distlab.Base.Actions.{◌>>=◌, ◌>>◌, get, put, lift}

policy_keys : List Text
policy_keys =
    units "requestLatency"
    ∷ units "responseLatency"
    ∷ units "jitter"
    ∷ units "timeout"
    ∷ units "failureRate"
    ∷ []

-- `input?.key ?? default`
unfoldable pub or_default : Option Value → ℕ → Value
or_default none d = num (whole d)
or_default (some null) d = num (whole d)
or_default (some v) d = v

-- `nonnegative(value)`
unfoldable pub natural : Value → Result ℕ
natural (num (whole n)) = if is_safe n then ok n else throw invalid_run_input
natural _ = throw invalid_run_input

-- A finite number in [0, 1]. The bits of a positive double grow with it, and those of 1 are 0x3FF
-- << 52; a negative double has its highest bit set.
unfoldable pub rate_of : Value → Result Number
rate_of (num (whole n)) = if leb n 1 then ok (whole n) else throw invalid_run_input
rate_of (num negative_zero) = ok negative_zero
rate_of (num (fraction bits)) =
    if leb bits 4607182418800017408 then ok (fraction bits) else throw invalid_run_input
rate_of _ = throw invalid_run_input

unfoldable pub policy_of : Fields → Result NetworkPolicy
policy_of fs =
    bind (natural (or_default (get_field (units "requestLatency") fs) 0)) λ request_latency.
      bind (natural (or_default (get_field (units "responseLatency") fs) 0)) λ response_latency.
        bind (natural (or_default (get_field (units "jitter") fs) 0)) λ jitter.
          bind (natural (or_default (get_field (units "timeout") fs) 1000)) λ timeout.
            bind (rate_of (or_default (get_field (units "failureRate") fs) 0)) λ failure_rate.
              if timeout == 0
              then throw invalid_run_input
              else ok (record {
                request_latency = request_latency;
                response_latency = response_latency;
                jitter = jitter;
                timeout = timeout;
                failure_rate = failure_rate;
              })

-- `policy(input)`
unfoldable pub policy : Option Value → Result NetworkPolicy
unfolding policy_keys
policy none = policy_of end
policy (some (obj fs)) =
    if keys_within policy_keys fs then policy_of fs else throw invalid_run_input
policy (some _) = throw invalid_run_input

pub record Link : Type 0 where
  pub source : Text
  pub target : Text
  pub policy : Option Value

-- `new Set(targets).size !== targets.length`
unfoldable pub has_repeat : List Text → Bool
has_repeat [] = false
has_repeat (t ∷ ts) = includes ts t || has_repeat ts

unfoldable pub has_empty : List Text → Bool
has_empty [] = false
has_empty ([] ∷ ts) = true
has_empty (_ ∷ ts) = has_empty ts

-- The loop over the links; a link is between targets, and there is one at most from one to another.
unfoldable pub read_links : List Text → List Link → Dict NetworkPolicy → Result (Dict NetworkPolicy)
read_links targets [] links = ok links
read_links targets (l ∷ ls) links =
    let key = link_key l.source l.target in
    if not (includes targets l.source)
      || not (includes targets l.target)
      || is_some (find key links)
    then throw invalid_run_input
    else bind (policy l.policy) λ p. read_links targets ls (enter key p links)

-- A network in which nothing was sent.
unfoldable pub start : {W : Type 0} → List Text → Text → W → Dict NetworkPolicy → Network W
start targets run w links = record {
  targets = targets;
  links = links;
  receivers = [];
  flights = [];
  traces = record { prefix = units "trace"; run_id = run; next = 0 };
  spans = record { prefix = units "span"; run_id = run; next = 0 };
  sealed = false;
  world = w;
}

-- The constructor; the registration of the schemas is the history's.
unfoldable pub create : {W : Type 0} → List Text → List Link → Text → W → Result (Network W)
create targets links [] w = throw invalid_run_input
create targets links (c ∷ run) w =
    if has_repeat targets || has_empty targets
    then throw invalid_run_input
    else bind (read_links targets links []) λ read. ok (start targets (c ∷ run) w read)

module _ {W : Type 0} (host : Host W) where
  -- `controller.register(target, receiver)`, of a receiver with an `accept`
  unfoldable pub register : Text → Call W (Unit {0})
  register target = do
    lift host.check
    n ← get
    lift (
        fail_if (n.sealed || not (includes n.targets target) || includes n.receivers target)
          invalid_registration)
    put (record n { receivers = target ∷ n.receivers })

module _ {W : Type 0} where
  unfoldable pub seal : Network W → Network W
  seal n = record n { sealed = true }

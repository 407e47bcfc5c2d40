-- ===== src/Examples/Keys.antt =====
-- A key-value store on small inputs: a write with a time to live, a read, a deletion and a counter.
use distlab.Base.{◌≡◌, refl, true, none, some, [], Text, units, text_eq, ok, if◌then◌else◌, decimal}
use distlab.Values
use distlab.Values.{Number, whole, Value, num, str}
use distlab.Canonical
use distlab.Canonical.{Raw}
use distlab.Scheduler
use distlab.Scheduler.{Scheduler, event_id}
use distlab.Scheduler.Heap
use distlab.Scheduler.Validate
use distlab.Clock
use distlab.KeyValue
use distlab.KeyValue.{Store, Host, SetOptions, no_options, absent, present}
use distlab.KeyValue.Map
use distlab.KeyValue.Operations.{get_key, set_key, delete_key, increment, compare_and_set, expire}
use distlab.KeyValue.Refinement.{IsSame}
use distlab.KeyValue.Writes.{Sets, set_key-Sets}
use distlab.KeyValue.Deletion.{Deletes, delete_key-Deletes, Compares, compare_and_set-Compares}
use distlab.KeyValue.Counting.{Counts, increment-Counts}
use distlab.KeyValue.Expiry.{expire-IsSame}
use distlab.Samples.{Records, keeping, shop, fresh}

abbrev host : Host Records
host = record {
  sink = keeping;
  handlers = λ type. if text_eq type (units "kv.expiry.shop") then some shop else none;
  owner = shop;
  number_text = λ n. elim n [ whole n ↦ decimal n | _ ↦ [] ];
  now = 4;
  check = ok tt;
  dispatching = true;
  active_owner = some shop;
  active_event = none;
}

abbrev store : Store Records
store = record {
  entries = [];
  generations = λ _. none;
  initial_expiries_scheduled = true;
  scheduler = fresh;
}

abbrev stock : Text
stock = units "stock"

abbrev for_five : SetOptions
for_five = record { ttl = some (whole 5); if_absent = some true }

abbrev stocked : Store Records
stocked = (set_key host stock (Raw.num (whole 8)) for_five store).1

set_ok : set_key host stock (Raw.num (whole 8)) for_five store ≡ (ok true, stocked)
unfolding set_key text_eq Canonical.canonical_copy Clock.add_duration Values.simulation_time
    Values.duration Map.find_entry Scheduler.schedule Validate.validate Canonical.embed Map.link_of
    Values.keys_within Values.includes Values.get_field Heap.insert
set_ok = refl

set_key-Sets_example : Sets host stock (Raw.num (whole 8)) for_five store true stocked
set_key-Sets_example = set_key-Sets host stock (Raw.num (whole 8)) for_five store set_ok

abbrev counted : Store Records
counted = (increment host stock store).1

increment_ok : increment host stock store ≡ (ok (whole 1), counted)
unfolding increment text_eq Map.find_entry KeyValue.successor Scheduler.observe
increment_ok = refl

increment-Counts_example : Counts host stock (whole 1) store counted
increment-Counts_example = increment-Counts host stock store increment_ok

get_ok : get_key host stock counted ≡ (ok (some (num (whole 1))), (get_key host stock counted).1)
unfolding get_key increment text_eq Map.find_entry KeyValue.successor Scheduler.observe
    Map.put_entry Map.has_expired
get_ok = refl

delete_ok : delete_key host stock counted ≡ (ok true, (delete_key host stock counted).1)
unfolding delete_key increment text_eq Map.find_entry KeyValue.successor Scheduler.observe
    Map.put_entry Map.has_expired
delete_ok = refl

delete_key-Deletes_example : Deletes host stock counted true (delete_key host stock counted).1
delete_key-Deletes_example = delete_key-Deletes host stock counted delete_ok

abbrev compared : Store Records
compared = (compare_and_set host stock (present (Raw.num (whole 1))) (Raw.str stock) none counted).1

compare_ok :
    compare_and_set host stock (present (Raw.num (whole 1))) (Raw.str stock) none counted
    ≡ (ok true, compared)
unfolding compare_and_set increment text_eq Canonical.canonical_copy Map.find_entry
    KeyValue.successor Scheduler.observe Map.put_entry Map.has_expired
    distlab.Canonical.Encode.encode decimal
compare_ok = refl

compare_and_set-Compares_example :
    Compares host stock (present (Raw.num (whole 1))) (Raw.str stock) counted true compared
compare_and_set-Compares_example =
    compare_and_set-Compares host stock (present (Raw.num (whole 1))) (Raw.str stock) none counted
      compare_ok

expire-IsSame_example : IsSame host stocked (expire host stock 1 stocked).1
expire-IsSame_example = expire-IsSame host stock 1 stocked

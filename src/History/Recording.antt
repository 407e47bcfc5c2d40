-- ===== src/History/Recording.antt =====
-- packages/kernel/src/history.ts: `record`, which appends, and `sealFailure` without its comparison.
use distlab.Base.{ℕ, not, [], ◌∷◌, ◌++◌, Text, length, fail_if, leb}
use distlab.Base.Actions.{Action, ◌>>=◌, ◌>>◌, pure, get, put, lift}
use distlab.Contracts.Errors.{
  observer_reentrancy, history_sealed, history_limit_exceeded, invalid_observation,
}
use distlab.Contracts.Observation.{ObservationInput, Observation}
use distlab.Values.{is_safe}
use distlab.Identity.{allocate}
use distlab.History.{History, index_record}
use distlab.History.Validation.{validate}

-- `#ids.allocate()`
unfoldable pub next_id : Action History Text
unfolding allocate
next_id h = let (result, ids) = allocate h.ids in (result, record h { ids = ids })

-- `record(input)`, at the clock's time
unfoldable pub append : ℕ → ObservationInput → Action History Observation
unfolding next_id validate index_record
append now input = do
  h ← get
  lift (fail_if h.delivering observer_reentrancy)
  lift (fail_if h.sealed history_sealed)
  lift (fail_if (leb h.limit (length h.records)) history_limit_exceeded)
  normal ← lift (validate input h)
  lift (fail_if (not (is_safe now)) invalid_observation)
  id ← next_id
  t ← get
  let r : Observation = record { input = normal; id = id; time = now; sequence = length t.records }
  put (index_record r (record t { records = t.records ++ r ∷ []; pending = t.pending ++ r ∷ [] }))
  pure r

-- ===== src/History/Indexes.antt =====
-- A query by type, trace or event, which reads an index, answers as a filter of all the records would.
use distlab.Base.{
  ℕ, ◌≡◌, refl, sym, ◌∙◌, ap, ◌≢◌, inl, inr, true, false, Bool, Bool-cases, not, Option, none, some,
  Option-cases, List, [], ◌∷◌, ◌++◌, Text, text_eq, text_eq_iff, ok, throw, fail_if, leb, length,
  arith, if◌then◌else◌,
}
use distlab.Base.Actions.{lift, chain-keeps}
use distlab.Contracts.Errors.{
  observer_reentrancy, history_sealed, history_limit_exceeded, invalid_observation,
  invalid_observation_filter,
}
use distlab.Contracts.Observation.{ObservationInput, Observation}
use distlab.Values.{is_safe}
use distlab.History.{History, Index, held, add_index, add_some, index_record}
use distlab.History.Validation.{validate, is_named}
use distlab.History.Recording.{append, next_id}
use distlab.History.Query.{
  ObservationFilter, keep, is_text, is_some_text, is_option, matches, is_filter, indexed,
  candidates, query,
}

abbrev has_type : Text → Observation → Bool
has_type k r = text_eq r.type k

abbrev in_trace : Text → Observation → Bool
in_trace k r = is_some_text r.trace_id k

abbrev of_event : Text → Observation → Bool
of_event k r = is_some_text r.event_id k

-- The indexes hold the records that they should, in order.
pub record IsIndexed (h : History) : Type 0 where
  pub types : (k : Text) → held (h.by_type k) ≡ keep (has_type k) h.records
  pub traces : (k : Text) → k ≢ [] → held (h.by_trace k) ≡ keep (in_trace k) h.records
  pub events : (k : Text) → k ≢ [] → held (h.by_event k) ≡ keep (of_event k) h.records

keep-append :
    (p : Observation → Bool) (rs : List Observation) (r : Observation)
    → keep p (rs ++ r ∷ []) ≡ (if p r then keep p rs ++ r ∷ [] else keep p rs)
unfolding keep
keep-append p [] r = ground arith
keep-append p (x ∷ rs) r = ground (arith, keep-append p rs r)

keep-through :
    (m p : Observation → Bool) (rs : List Observation)
    → ((r : Observation) → m r ≡ true → p r ≡ true)
    → keep m (keep p rs) ≡ keep m rs
unfolding keep
keep-through m p [] h = refl
keep-through m p (r ∷ rs) h = elim (Bool-cases (p r)) [
  | inl takes ↦ rw (takes, keep-through m p rs h)
  | inr leaves ↦
      let other : m r ≡ false = ground (arith, h r) in
      rw (leaves, other, keep) (keep-through m p rs h)
]

add_index-held :
    (index : Index) (key k : Text) (r : Observation)
    → held (add_index index key r k)
      ≡ (if text_eq key k then held (index k) ++ r ∷ [] else held (index k))
unfolding add_index
add_index-held index key k r = ground (arith, text_eq_iff key k)

add_some-held :
    (index : Index) (key : Option Text) (k : Text) (r : Observation)
    → k ≢ []
    → held (add_some index key r k)
      ≡ (if is_some_text key k then held (index k) ++ r ∷ [] else held (index k))
unfolding add_some is_some_text text_eq
add_some-held index none k r h = refl
add_some-held index (some []) [] r h = absurd (h refl)
add_some-held index (some []) (c ∷ k) r h = refl
add_some-held index (some (c ∷ key)) k r h = add_index-held index (c ∷ key) k r

extended :
    (p : Observation → Bool) (rs list : List Observation) (r : Observation)
    → list ≡ keep p rs
    → (if p r then list ++ r ∷ [] else list) ≡ keep p (rs ++ r ∷ [])
extended p rs list r e =
    ap (λ (l : List Observation). if p r then l ++ r ∷ [] else l) e ∙ sym (keep-append p rs r)

appended-IsIndexed :
    (r : Observation) (h : History)
    → IsIndexed h
    → IsIndexed
        (index_record r (record h { records = h.records ++ r ∷ []; pending = h.pending ++ r ∷ [] }))
unfolding index_record
appended-IsIndexed r h v = record {
  types =
      λ k. add_index-held h.by_type r.type k r ∙ extended (has_type k) h.records _ r (v.types k);
  traces = λ k n.
      add_some-held h.by_trace r.trace_id k r n
      ∙ extended (in_trace k) h.records _ r (v.traces k n);
  events = λ k n.
      add_some-held h.by_event r.event_id k r n
      ∙ extended (of_event k) h.records _ r (v.events k n);
}

next_id-IsIndexed : (h : History) → IsIndexed h → IsIndexed (next_id h).1
unfolding next_id
next_id-IsIndexed h v = record { types = v.types; traces = v.traces; events = v.events }

-- Recording, however it ends, keeps the indexes by type, trace and event exact.
pub append-IsIndexed :
    (now : ℕ) (input : ObservationInput) (h : History)
    → IsIndexed h
    → IsIndexed (append now input h).1
unfolding append
append-IsIndexed now input h v =
    chain-keeps IsIndexed (lift (fail_if h.delivering observer_reentrancy)) _ h v λ _ a va.
      chain-keeps IsIndexed (lift (fail_if h.sealed history_sealed)) _ a va λ _ b vb.
        chain-keeps IsIndexed
          (lift (fail_if (leb h.limit (length h.records)) history_limit_exceeded)) _ b vb
          λ _ c vc. chain-keeps IsIndexed (lift (validate input h)) _ c vc λ normal d vd.
            chain-keeps IsIndexed (lift (fail_if (not (is_safe now)) invalid_observation)) _ d vd
              λ _ e ve. chain-keeps IsIndexed next_id _ e (next_id-IsIndexed e ve) λ id t vt.
                appended-IsIndexed
                  (record { input = normal; id = id; time = now; sequence = length t.records }) t vt

-- The filter names a type, a trace or an event.
unfoldable pub uses_key : ObservationFilter → Bool
uses_key f = elim f.type [
  | some _ ↦ true
  | none ↦ elim f.trace_id [
    | some _ ↦ true
    | none ↦ elim f.event_id [ some _ ↦ true | none ↦ false ]
  ]
]

looked_up :
    (m p : Observation → Bool) (o : Option (List Observation)) (rs : List Observation)
    → held o ≡ keep p rs
    → ((r : Observation) → m r ≡ true → p r ≡ true)
    → keep m (elim o [ none ↦ rs | some l ↦ l ]) ≡ keep m rs
looked_up m p none rs e h = refl
looked_up m p (some l) rs e h = ap (keep m) e ∙ keep-through m p rs h

module _ (f : ObservationFilter) where
  matches-type :
      (r : Observation) {k : Text} → f.type ≡ some k → matches f r ≡ true → has_type k r ≡ true
  unfolding matches is_text
  matches-type r e m =
      let wanted : is_text f.type r.type ≡ true = ground arith in rw (is_text, e) at wanted

  matches-trace :
      (r : Observation) {k : Text} → f.trace_id ≡ some k → matches f r ≡ true → in_trace k r ≡ true
  unfolding matches is_option
  matches-trace r e m =
      let wanted : is_option f.trace_id r.trace_id ≡ true = ground arith in
      rw (is_option, e) at wanted

  matches-event :
      (r : Observation) {k : Text} → f.event_id ≡ some k → matches f r ≡ true → of_event k r ≡ true
  unfolding matches is_option
  matches-event r e m =
      let wanted : is_option f.event_id r.event_id ≡ true = ground arith in
      rw (is_option, e) at wanted

  named : (o : Option Text) {k : Text} → is_named o ≡ true → o ≡ some k → k ≢ []
  unfolding is_named
  named (some []) h e g = cc
  named (some (c ∷ t)) h e g = cc
  named none h e g = cc

  chosen :
      (h : History) (o : Option (List Observation)) (p : Observation → Bool)
      → indexed f h ≡ o
      → held o ≡ keep p h.records
      → ((r : Observation) → matches f r ≡ true → p r ≡ true)
      → keep (matches f) (candidates f h) ≡ keep (matches f) h.records
  unfolding candidates
  chosen h o p e exact implied =
      ap
        (λ (x : Option (List Observation)).
          keep (matches f) (elim x [ none ↦ h.records | some l ↦ l ]))
        e
      ∙ looked_up (matches f) p o h.records exact implied

  candidates_enough :
      (h : History)
      → IsIndexed h
      → uses_key f ≡ true
      → is_filter f ≡ true
      → keep (matches f) (candidates f h) ≡ keep (matches f) h.records
  unfolding uses_key is_filter indexed
  candidates_enough h v u valid = elim (Option-cases f.type) [
    | inr (k, e) ↦
        chosen h (h.by_type k) (has_type k) (simp (indexed, e)) (v.types k)
          (λ r m. matches-type r e m)
    | inl no_type ↦ elim (Option-cases f.trace_id) [
      | inr (k, e) ↦
          chosen h (h.by_trace k) (in_trace k) (simp (indexed, no_type, e))
            (v.traces k (named f.trace_id (ground arith) e)) (λ r m. matches-trace r e m)
      | inl no_trace ↦ elim (Option-cases f.event_id) [
        | inr (k, e) ↦
            chosen h (h.by_event k) (of_event k) (simp (indexed, no_type, no_trace, e))
              (v.events k (named f.event_id (ground arith) e)) (λ r m. matches-event r e m)
        | inl no_event ↦ absurd (let u' = rw (uses_key, no_type, no_trace, no_event) at u in cc)
      ]
    ]
  ]

-- A query by type, trace or event, alone or with further conditions, gives what filtering all records
-- would give, each once and in the order of recording; an invalid filter is refused.
pub query_lem :
    (f : ObservationFilter) (h : History)
    → IsIndexed h
    → uses_key f ≡ true
    → query f h
      ≡ (if is_filter f then ok (keep (matches f) h.records) else throw invalid_observation_filter)
unfolding query
query_lem f h v u = elim (Bool-cases (is_filter f)) [
  | inl valid ↦ rw (valid, candidates_enough f h v u valid)
  | inr invalid ↦ rw invalid
]

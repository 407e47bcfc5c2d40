-- ===== src/KeyValue/View.antt =====
-- What a store holds at a time, as a function from keys to values: an expired entry counts as absent.
use mathlib.Core.Path.{subst}
use distlab.Base.{
  ℕ, ◌≡◌, refl, ◌∙◌, inl, inr, true, false, Bool-cases, Option, none, some, Option-cases, [], ◌∷◌,
  Text, text_eq, text_eq_iff, text_eq_refl, Result, ok, arith, if◌then◌else◌, if_true, if_false,
}
use distlab.Base.Actions.{◌>>=◌, pure, chain-eq-ok}
use distlab.Values.{Value}
use distlab.KeyValue.{Store, Host, note, cancel_expiry, drop_expired, live, value_of, on_scheduler}
use distlab.KeyValue.Map.{Entry, Entries, find_entry, put_entry, drop_entry, has_expired, Link}

unfoldable pub visible : ℕ → Option Entry → Option Value
visible now none = none
visible now (some e) = if has_expired now e then none else some e.value

unfoldable pub view : ℕ → Entries → Text → Option Value
unfolding visible
view now entries key = visible now (find_entry key entries)

pub find_entry-put_entry :
    (key k : Text) (e : Entry) (es : Entries)
    → find_entry k (put_entry key e es) ≡ (if text_eq key k then some e else find_entry k es)
unfolding find_entry put_entry
find_entry-put_entry key k e [] = refl
find_entry-put_entry key k e ((j, d) ∷ es) =
    ground (
      arith,
      text_eq_iff j key,
      text_eq_iff j k,
      text_eq_iff key k,
      find_entry-put_entry key k e es,
    )

pub find_entry-drop_entry :
    (key k : Text) (es : Entries)
    → find_entry k (drop_entry key es) ≡ (if text_eq key k then none else find_entry k es)
unfolding find_entry drop_entry
find_entry-drop_entry key k [] = ground arith
find_entry-drop_entry key k ((j, d) ∷ es) =
    ground
      (arith, text_eq_iff j key, text_eq_iff j k, text_eq_iff key k, find_entry-drop_entry key k es)

module _ {Log : Type 0} (host : Host Log) where
  -- Records and cancellations leave the entries alone.
  pub note_entries :
      (type : Text) (payload : Value) (link : Option Link) (s : Store Log)
      → ((note host type payload link s).1.entries ≡ s.entries)
        × ((note host type payload link s).1.generations ≡ s.generations)
  unfolding note on_scheduler
  note_entries type payload link s = (refl, refl)

  pub cancel_expiry_entries :
      (entry : Option Entry) (s : Store Log)
      → ((cancel_expiry host entry s).1.entries ≡ s.entries)
        × ((cancel_expiry host entry s).1.generations ≡ s.generations)
  unfolding cancel_expiry on_scheduler
  cancel_expiry_entries none s = (refl, refl)
  cancel_expiry_entries (some e) s = ground arith

  pub drop_expired_entries :
      (key : Text) (entry : Entry) (s : Store Log)
      → ((drop_expired host key entry s).1.entries ≡ drop_entry key s.entries)
        × ((drop_expired host key entry s).1.generations ≡ s.generations)
  unfolding drop_expired note on_scheduler cancel_expiry
  drop_expired_entries key entry s = ground arith

  -- Dropping an expired entry changes nothing that is visible.
  pub view-drop_entry :
      (key k : Text) (entry : Entry) (es : Entries)
      → find_entry key es ≡ some entry
      → has_expired host.now entry ≡ true
      → view host.now (drop_entry key es) k ≡ view host.now es k
  unfolding view visible live
  view-drop_entry key k entry es found old = elim (Bool-cases (text_eq key k)) [
    | inl here ↦
        let same : key ≡ k = (text_eq_iff key k).0 here in
        let found' : find_entry k es ≡ some entry = rw same at found in
        let gone : find_entry k (drop_entry key es) ≡ none =
          find_entry-drop_entry key k es ∙ if_true _ _ here in
        rw (gone, found', old)
    | inr other ↦
        let kept : find_entry k (drop_entry key es) ≡ find_entry k es =
          find_entry-drop_entry key k es ∙ if_false _ _ other in
        rw kept
  ]

  abbrev pub IsFresh : Option Entry → Type 0
  IsFresh none = Unit
  IsFresh (some entry) = has_expired host.now entry ≡ false

  -- What the look-up of a live entry returns and leaves.
  pub record Finds (key : Text) (s : Store Log) (previous : Option Entry) (t : Store Log)
      : Type 0 where
    pub shown : value_of previous ≡ view host.now s.entries key
    pub same : (k : Text) → view host.now t.entries k ≡ view host.now s.entries k
    pub held : find_entry key t.entries ≡ previous
    pub fresh : IsFresh previous
    pub generations : t.generations ≡ s.generations

  pub live-Finds :
      (key : Text) (s : Store Log) {previous : Option Entry} {t : Store Log}
      → live host key s ≡ (ok previous, t)
      → Finds key s previous t
  unfolding view visible live
  live-Finds key s {previous} {t} h = elim (Option-cases (find_entry key s.entries)) [
    | inl absent ↦
        let h' : ◌≡◌ {A = Result (Option Entry) × Store Log} (ok none, s) (ok previous, t) =
          rw (live, absent) at h in
        let p : none ≡ previous = cc in
        let q : s ≡ t = cc in
        subst (λ (x : Option Entry). Finds key s x t) p
          (subst (λ (x : Store Log). Finds key s none x) q
            (record {
              shown = rw absent;
              same = λ k. refl;
              held = absent;
              fresh = tt;
              generations = refl;
            }))
    | inr (entry, found) ↦ elim (Bool-cases (has_expired host.now entry)) [
      | inr fresh ↦
          let h' : ◌≡◌ {A = Result (Option Entry) × Store Log} (ok (some entry), s)
              (ok previous, t) =
            rw (live, found, fresh) at h in
          let p : some entry ≡ previous = cc in
          let q : s ≡ t = cc in
          subst (λ (x : Option Entry). Finds key s x t) p
            (subst (λ (x : Store Log). Finds key s (some entry) x) q
              (record {
                shown = rw (found, fresh);
                same = λ k. refl;
                held = found;
                fresh = fresh;
                generations = refl;
              }))
      | inl old ↦
          let h' : (drop_expired host key entry >>= λ _. pure none) s ≡ (ok previous, t) =
            rw (live, found, old) at h in
          let (_, u, dropped, k) =
            chain-eq-ok (drop_expired host key entry) (λ _. pure none) s h' in
          let p : none ≡ previous = cc in
          let q : u ≡ t = cc in
          let (entries, generations) = drop_expired_entries key entry s in
          let left : u.entries ≡ drop_entry key s.entries = rw dropped at entries in
          let kept : u.generations ≡ s.generations = rw dropped at generations in
          subst (λ (x : Option Entry). Finds key s x t) p
            (subst (λ (x : Store Log). Finds key s none x) q
              (record {
                shown = rw (found, old);
                same = λ k. rw left (view-drop_entry key k entry s.entries found old);
                held =
                    rw left
                      (find_entry-drop_entry key key s.entries ∙ if_true _ _ (text_eq_refl key));
                fresh = tt;
                generations = kept;
              }))
    ]
  ]

-- ===== src/KeyValue/Refinement.antt =====
-- Each call of a store, if it succeeds, does to what is visible what a map from keys to values
-- would do.
use distlab.Base.{
  ℕ, ◌≡◌, refl, sym, ◌∙◌, ap, Option, none, some, Text, text_eq, Result, ok, if◌then◌else◌,
}
use distlab.Base.Actions.{Action, pure, lift, chain-eq-ok, lift-eq-ok}
use distlab.Values.{Value}
use distlab.Canonical.{embed}
use distlab.Scheduler.{Scheduler, ScheduledHandle, schedule}
use distlab.KeyValue.{
  Store, Host, note, cancel_expiry, live, value_of, on_scheduler, active, arm, Armed, expiry_draft,
}
use distlab.KeyValue.Map.{Entry, Entries, put_entry, Link}
use distlab.KeyValue.Operations.{get_key, replace_entry}
use distlab.KeyValue.View.{view, note_entries, cancel_expiry_entries, live-Finds}

module _ {Log : Type 0} (host : Host Log) where
  -- Two stores show the same.
  abbrev pub IsSame : Store Log → Store Log → Type 0
  IsSame s t = (k : Text) → view host.now t.entries k ≡ view host.now s.entries k

  -- The second shows what the first shows, but for one key.
  abbrev pub IsUpdate : Text → Option Value → Store Log → Store Log → Type 0
  IsUpdate key v s t =
      (k : Text)
      → view host.now t.entries k ≡ (if text_eq key k then v else view host.now s.entries k)

  pub note-same :
      (type : Text) (payload : Value) (link : Option Link) (s : Store Log) {a : Unit {0}}
      {t : Store Log}
      → note host type payload link s ≡ (ok a, t)
      → t.entries ≡ s.entries
  note-same type payload link s h = rw h at (note_entries host type payload link s).0

  -- A read returns what is visible, and changes nothing that is.
  pub get_key-reads :
      (key : Text) (s : Store Log) {v : Option Value} {t : Store Log}
      → get_key host key s ≡ (ok v, t)
      → (v ≡ view host.now s.entries key) × IsSame s t
  unfolding get_key
  get_key-reads key s {v} {t} h =
      let (_, s₁, a, h₁) = chain-eq-ok (lift (active host key)) _ s h in
      let here : s ≡ s₁ = (lift-eq-ok (active host key) s a).1 in
      let (entry, s₂, b, h₂) = chain-eq-ok (live host key) _ s₁ h₁ in
      let f = live-Finds host key s₁ b in
      let (_, s₃, c, h₃) = chain-eq-ok (note host _ _ none) _ s₂ h₂ in
      let left = note-same _ _ none s₂ c in
      let answer : value_of entry ≡ v = cc in
      let end : s₃ ≡ t = cc in
      (
        sym answer ∙ f.shown ∙ ap (λ (x : Store Log). view host.now x.entries key) (sym here),
        λ k.
            ap (λ (x : Store Log). view host.now x.entries k) (sym end)
            ∙ ap (λ (es : Entries). view host.now es k) left
            ∙ f.same k
            ∙ ap (λ (x : Store Log). view host.now x.entries k) (sym here),
      )

  -- A write that succeeds: the key holds the new entry, with the expiry that was asked for.
  pub record Replaces (key : Text) (value : Value) (expires_at : Option ℕ) (s t : Store Log)
      : Type 0 where
    pub entry : Entry
    pub held : entry.value ≡ value
    pub timed : entry.expires_at ≡ expires_at
    pub entries : t.entries ≡ put_entry key entry s.entries

  on_scheduler_entries :
      {A : Type 0} (m : Action (Scheduler Log) A) (s : Store Log) {r : Result A} {t : Store Log}
      → on_scheduler host m s ≡ (r, t)
      → t.entries ≡ s.entries
  unfolding on_scheduler
  on_scheduler_entries {A} m s h = ap (λ (x : Result A × Store Log). x.1.entries) (sym h)

  abbrev armed_by : ℕ → Link → ScheduledHandle → Armed host
  armed_by at trace handle = record {
    handle = some handle;
    expires_at = some at;
    cause = some (record trace { event_id = some handle.event_id });
  }

  arm_expiry :
      (key : Text) (generation : ℕ) (expires_at : Option ℕ) (trace : Link) (s : Store Log)
      {armed : Armed host} {t : Store Log}
      → arm host key generation expires_at trace s ≡ (ok armed, t)
      → (armed.expires_at ≡ expires_at) × (t.entries ≡ s.entries)
  unfolding arm
  arm_expiry key generation none trace s h = (cc, cc)
  arm_expiry key generation (some at) trace s {armed} {t} h =
      let scheduled =
        schedule host.sink host.handlers host.now
          (embed (expiry_draft host key generation at trace)) in
      let (handle, u, a, h₁) =
        chain-eq-ok (on_scheduler host scheduled)
          (λ (handle : ScheduledHandle). pure (armed_by at trace handle)) s h in
      let left = on_scheduler_entries scheduled s a in
      let same : armed_by at trace handle ≡ armed = cc in
      let end : u ≡ t = cc in
      (
        ap (λ (x : Armed host). x.expires_at) (sym same),
        ap (λ (x : Store Log). x.entries) (sym end) ∙ left,
      )

  pub replace_entry-Replaces :
      (key : Text) (generation : ℕ) (value : Value) (expires_at : Option ℕ) (trace : Link)
      (operation : Text) (previous : Option Entry) (s : Store Log) {a : Unit {0}} {t : Store Log}
      → replace_entry host key generation value expires_at trace operation previous s ≡ (ok a, t)
      → Replaces key value expires_at s t
  unfolding replace_entry
  replace_entry-Replaces key generation value expires_at trace operation previous s h =
      let (armed, s₁, a, h₁) = chain-eq-ok (arm host key generation expires_at trace) _ s h in
      let (timed, same₁) = arm_expiry key generation expires_at trace s a in
      let (_, s₂, b, h₂) = chain-eq-ok (cancel_expiry host previous) _ s₁ h₁ in
      let same₂ : s₂.entries ≡ s₁.entries = rw b at (cancel_expiry_entries host previous s₁).0 in
      let left = note-same _ _ none _ h₂ in
      record {
        entry = record {
          value = value;
          expires_at = armed.expires_at;
          generation = generation;
          handle = armed.handle;
          cause = armed.cause;
        };
        held = refl;
        timed = timed;
        entries = left ∙ ap (put_entry key _) (same₂ ∙ same₁);
      }

-- ===== src/KeyValue/Writes.antt =====
-- `set`, `compareAndSet`, `delete` and `increment` as updates of the visible map.
use mathlib.Core.Path.{subst}
use distlab.Base.{
  ℕ, ◌<◌, ◌≡◌, refl, sym, ◌∙◌, ap, inl, inr, true, false, Bool, Bool-cases, ◌&&◌, Option, none,
  some, Text, units, text_eq, ok, arith, if◌then◌else◌,
}
use distlab.Base.Actions.{◌>>=◌, pure, lift, chain-eq-ok, lift-eq-ok, lift-elim, chain-elim}
use distlab.Values.{Value, Number, whole, simulation_time, duration}
use distlab.Canonical.{Raw}
use distlab.Clock.{add_duration}
use distlab.KeyValue.{
  Store, Host, SetOptions, live, note, value_of, active, next, due, copied, ttl_of,
}
use distlab.KeyValue.Map.{Entry, Entries, has_expired}
use distlab.KeyValue.Operations.{set_key, write, condition_data, is_present, is_set}
use distlab.KeyValue.View.{visible, view, find_entry-put_entry, Finds, live-Finds}
use distlab.KeyValue.Refinement.{IsSame, IsUpdate, note-same, Replaces, replace_entry-Replaces}

ttl_of_positive : (o : Option Number) {n : ℕ} → ttl_of o ≡ ok (some n) → 0 < n
unfolding ttl_of
ttl_of_positive none h = cc
ttl_of_positive (some (whole m)) h = ground arith
ttl_of_positive (some (Number.negative m)) h = cc
ttl_of_positive (some _) h = cc

-- An expiry is later than the time at which it was asked for.
abbrev pub IsLater : ℕ → Option ℕ → Type 0
IsLater now none = Unit
IsLater now (some at) = now < at

abbrev pub is_visible : Option Value → Bool
is_visible none = false
is_visible (some _) = true

pub is_visible-value_of : (e : Option Entry) → is_visible (value_of e) ≡ is_present e
is_visible-value_of none = refl
is_visible-value_of (some e) = refl

module _ {Log : Type 0} (host : Host Log) where
  due-IsLater :
      (o : Option Number) (ttl : Option ℕ) {at : Option ℕ}
      → ttl_of o ≡ ok ttl
      → due host ttl ≡ ok at
      → IsLater host.now at
  unfolding due add_duration simulation_time duration
  due-IsLater o none {at = none} p h = tt
  due-IsLater o none {at = some at} p h = cc
  due-IsLater o (some n) {at = none} p h = tt
  due-IsLater o (some n) {at = some at} p h = ground (arith, ttl_of_positive o p)

  fresh-entry :
      (e : Entry) {at : Option ℕ}
      → e.expires_at ≡ at
      → IsLater host.now at
      → has_expired host.now e ≡ false
  unfolding has_expired
  fresh-entry e {at = none} p h = rw p
  fresh-entry e {at = some at} p h = rw p (ground arith)

  pub Replaces-IsUpdate :
      (key : Text) (value : Value) (at : Option ℕ) (s t : Store Log)
      → Replaces host key value at s t
      → IsLater host.now at
      → IsUpdate host key (some value) s t
  unfolding view visible
  Replaces-IsUpdate key value at s t r later = λ k.
      let open_entry = fresh-entry r.entry r.timed later in
      rw (r.entries, find_entry-put_entry key k r.entry s.entries)
        (elim (Bool-cases (text_eq key k)) [
          | inl here ↦ rw (here, open_entry, r.held)
          | inr other ↦ rw other
        ])

  pub IsSame-IsUpdate :
      (key : Text) (v : Option Value) (s u t : Store Log)
      → IsSame host s u
      → IsUpdate host key v u t
      → IsUpdate host key v s t
  IsSame-IsUpdate key v s u t same update =
      λ k. update k ∙ ap (λ (w : Option Value). if text_eq key k then v else w) (same k)

  -- A write of a value whose time to live was checked.
  pub write-IsUpdate :
      (key : Text) (value : Value) (o : Option Number) (ttl : Option ℕ) (operation : Text)
      (previous : Option Entry) (s : Store Log) {a : Unit {0}} {t : Store Log}
      → ttl_of o ≡ ok ttl
      → write host key value ttl operation previous s ≡ (ok a, t)
      → IsUpdate host key (some value) s t
  unfolding write
  write-IsUpdate key value o ttl operation previous s {a} {t} p h =
      let (generation, s₁, c, h₁) = chain-eq-ok (lift (next host key s)) _ s h in
      let (at, s₂, d, h₂) = chain-eq-ok (lift (due host ttl)) _ s₁ h₁ in
      let here : s ≡ s₂ =
        (lift-eq-ok (next host key s) s c).1 ∙ (lift-eq-ok (due host ttl) s₁ d).1 in
      let r = replace_entry-Replaces host key generation value at _ operation previous s₂ h₂ in
      let later = due-IsLater o ttl p (lift-eq-ok (due host ttl) s₁ d).0 in
      subst (λ (x : Store Log). IsUpdate host key (some value) x t) (sym here)
        (Replaces-IsUpdate key value at s₂ t r later)

  -- A record after the look-up of a live entry changes nothing that is visible.
  pub unchanged :
      {key : Text} {previous : Option Entry} (s u w : Store Log)
      → Finds host key s previous u
      → w.entries ≡ u.entries
      → IsSame host s w
  unchanged s u w f left = λ k. ap (λ (es : Entries). view host.now es k) left ∙ f.same k

  -- How a call of `set` can succeed.
  pub data Sets (key : Text) (value : Raw) (options : SetOptions) (s : Store Log)
      : Bool → Store Log → Type 0 where
    wrote :
        (copy : Value) {t : Store Log}
        → copied value ≡ ok copy
        → (is_set options.if_absent && is_visible (view host.now s.entries key)) ≡ false
        → IsUpdate host key (some copy) s t
        → Sets key value options s true t
    held :
        {t : Store Log}
        → is_set options.if_absent ≡ true
        → is_visible (view host.now s.entries key) ≡ true
        → IsSame host s t
        → Sets key value options s false t

  -- A call of `set` that succeeds and returns true has made the key show a copy of the value, and
  -- no other key changed; one that returns false was told to keep a value that is there, and there
  -- is one, and nothing that is visible changed.
  pub set_key-Sets :
      (key : Text) (value : Raw) (options : SetOptions) (s : Store Log) {b : Bool} {t : Store Log}
      → set_key host key value options s ≡ (ok b, t)
      → Sets key value options s b t
  unfolding set_key
  set_key-Sets key value options s {b} {t} h = lift-elim (active host key) _ s h λ _ _ h₁.
      lift-elim (copied value) _ s h₁ λ copy p h₂. lift-elim (ttl_of options.ttl) _ s h₂ λ ttl q h₃.
        lift-elim (next host key s) _ s h₃ λ _ _ h₄. lift-elim (due host ttl) _ s h₄ λ _ _ h₅.
          chain-elim (live host key) _ s h₅
            λ previous u found e. finished copy ttl s u previous p q (live-Finds host key s found) e
    where
      finished :
          (copy : Value) (ttl : Option ℕ) (s u : Store Log) (previous : Option Entry)
          → copied value ≡ ok copy
          → ttl_of options.ttl ≡ ok ttl
          → Finds host key s previous u
          → (if is_set options.if_absent && is_present previous
                then ((note host
                      (units "kv.condition.failed")
                      (condition_data key (units "set"))
                      none
                    >>= λ _. pure false))
                else (write host key copy ttl (units "set") previous >>= λ _. pure true))
              u
            ≡ (ok b, t)
          → Sets key value options s b t
      finished copy ttl s u previous p q f e =
          elim (Bool-cases (is_set options.if_absent && is_present previous)) [
            | inl keep ↦
                chain-elim
                  (note host (units "kv.condition.failed") (condition_data key (units "set")) none)
                  (λ _. pure false) u (rw keep at e)
                  λ _ w noted end.
                    let answer : false ≡ b = cc in
                    let last : w ≡ t = cc in
                    let left = note-same host _ _ none u noted in
                    let shown = is_visible-value_of previous in
                    let same = unchanged s u w f left in
                    subst (λ (x : Bool). Sets key value options s x t) answer
                      (held (ground arith) (rw (sym f.shown) (ground (arith, shown)))
                        (subst (λ (x : Store Log). IsSame host s x) last same))
            | inr write_it ↦
                chain-elim (write host key copy ttl (units "set") previous) (λ _. pure true) u
                  (rw write_it at e)
                  λ _ w written end.
                    let answer : true ≡ b = cc in
                    let last : w ≡ t = cc in
                    let update =
                      write-IsUpdate key copy options.ttl ttl (units "set") previous u q written in
                    let free : (is_set options.if_absent && is_visible (value_of previous))
                        ≡ false =
                      rw (is_visible-value_of previous) write_it in
                    subst (λ (x : Bool). Sets key value options s x t) answer
                      (wrote copy p (rw f.shown at free) (
                        subst (λ (x : Store Log). IsUpdate host key (some copy) s x) last
                          (IsSame-IsUpdate key (some copy) s u w f.same update)))
          ]

-- ===== src/KeyValue/Deletion.antt =====
-- `delete` and `compareAndSet` as updates of the visible map.
use mathlib.Core.Path.{subst}
use distlab.Base.{
  ℕ, ◌≡◌, refl, sym, ◌∙◌, ap, inl, inr, true, false, Bool, Bool-cases, not, Option, none, some,
  Text, units, text_eq, Result, ok, if◌then◌else◌,
}
use distlab.Base.Actions.{◌>>=◌, pure, lift-elim, chain-elim}
use distlab.Values.{Value, Number}
use distlab.Canonical.{Raw}
use distlab.Canonical.Encode.{encode}
use distlab.KeyValue.{
  Store, Host, ExpectedValue, live, note, value_of, active, next, due, copied, ttl_of,
  cancel_expiry,
}
use distlab.KeyValue.Map.{Entry, drop_entry}
use distlab.KeyValue.Operations.{
  delete_key, erase, compare_and_set, write, is_present, condition_data, changed_data, expected_of,
  matches,
}
use distlab.KeyValue.View.{
  visible, view, find_entry-drop_entry, cancel_expiry_entries, Finds, live-Finds,
}
use distlab.KeyValue.Refinement.{IsSame, IsUpdate, note-same}
use distlab.KeyValue.Writes.{
  is_visible, is_visible-value_of, IsSame-IsUpdate, write-IsUpdate, unchanged,
}

module _ {Log : Type 0} (host : Host Log) where
  -- How a call of `delete` can succeed.
  pub data Deletes (key : Text) (s : Store Log) : Bool → Store Log → Type 0 where
    deleted :
        {t : Store Log}
        → is_visible (view host.now s.entries key) ≡ true
        → IsUpdate host key none s t
        → Deletes key s true t
    missing :
        {t : Store Log}
        → is_visible (view host.now s.entries key) ≡ false
        → IsSame host s t
        → Deletes key s false t

  dropped-IsUpdate :
      (key : Text) (s t : Store Log)
      → t.entries ≡ drop_entry key s.entries
      → IsUpdate host key none s t
  unfolding view visible
  dropped-IsUpdate key s t e = λ k.
      rw (e, find_entry-drop_entry key k s.entries)
        (elim (Bool-cases (text_eq key k)) [ inl here ↦ rw here | inr other ↦ rw other ])

  erase-drops :
      (key : Text) (previous : Option Entry) (s : Store Log) {b : Bool} {t : Store Log}
      → erase host key previous s ≡ (ok b, t)
      → (true ≡ b) × (t.entries ≡ drop_entry key s.entries)
  unfolding erase
  erase-drops key previous s {b} {t} h =
      chain-elim (cancel_expiry host previous) _ s h λ _ u cancelled h₁.
        let same : u.entries ≡ s.entries =
          rw cancelled at (cancel_expiry_entries host previous s).0 in
        chain-elim
          (note host (units "kv.changed")
            (changed_data key (units "delete") (value_of previous) none none) none)
          (λ _. pure true) (record u { entries = drop_entry key u.entries }) h₁
          λ _ w noted end.
            let last : w ≡ t = cc in
            let left = note-same host _ _ none _ noted in
            (cc, ap (λ (x : Store Log). x.entries) (sym last) ∙ left ∙ ap (drop_entry key) same)

  -- A call of `delete` that succeeds says whether the key showed a value; afterwards it shows none, and
  -- no other key changed.
  pub delete_key-Deletes :
      (key : Text) (s : Store Log) {b : Bool} {t : Store Log}
      → delete_key host key s ≡ (ok b, t)
      → Deletes key s b t
  unfolding delete_key
  delete_key-Deletes key s {b} {t} h = lift-elim (active host key) _ s h λ _ _ h₁.
      chain-elim (live host key) _ s h₁
        λ previous u found e. finished u previous (live-Finds host key s found) e
    where
      finished :
          (u : Store Log) (previous : Option Entry)
          → Finds host key s previous u
          → (if not (is_present previous) then pure false else erase host key previous) u
            ≡ (ok b, t)
          → Deletes key s b t
      finished u previous f e = elim (Bool-cases (is_present previous)) [
        | inr absent ↦
            let e' : ◌≡◌ {A = Result Bool × Store Log} (ok false, u) (ok b, t) = rw absent at e in
            let answer : false ≡ b = cc in
            let last : u ≡ t = cc in
            subst (λ (x : Bool). Deletes key s x t) answer
              (missing (rw (sym f.shown) (is_visible-value_of previous ∙ absent))
                (subst (λ (x : Store Log). IsSame host s x) last f.same))
        | inl there ↦
            let (answer, left) = erase-drops key previous u (rw there at e) in
            subst (λ (x : Bool). Deletes key s x t) answer
              (deleted (rw (sym f.shown) (is_visible-value_of previous ∙ there))
                (IsSame-IsUpdate host key none s u t f.same (dropped-IsUpdate key u t left)))
      ]

  -- `matches`, of what is visible.
  unfoldable pub agrees : Option Value → Option Value → Bool
  agrees none shown = not (is_visible shown)
  agrees (some v) none = false
  agrees (some v) (some shown) = text_eq (encode host.number_text shown) (encode host.number_text v)

  matches-agrees :
      (checked : Option Value) (previous : Option Entry)
      → matches host checked previous ≡ agrees checked (value_of previous)
  unfolding matches agrees
  matches-agrees none previous = ap not (sym (is_visible-value_of previous))
  matches-agrees (some v) none = refl
  matches-agrees (some v) (some e) = refl

  -- How a call of `compareAndSet` can succeed.
  pub data Compares (key : Text) (expected : ExpectedValue) (value : Raw) (s : Store Log)
      : Bool → Store Log → Type 0 where
    swapped :
        (checked : Option Value) (copy : Value) {t : Store Log}
        → expected_of expected ≡ ok checked
        → copied value ≡ ok copy
        → agrees checked (view host.now s.entries key) ≡ true
        → IsUpdate host key (some copy) s t
        → Compares key expected value s true t
    refused :
        (checked : Option Value) {t : Store Log}
        → expected_of expected ≡ ok checked
        → agrees checked (view host.now s.entries key) ≡ false
        → IsSame host s t
        → Compares key expected value s false t

  -- A call of `compareAndSet` that succeeds returns true if what the key showed is what was expected,
  -- by its encoding, and then the key shows a copy of the new value and no other key changed; it
  -- returns false if not, and then nothing that is visible changed.
  pub compare_and_set-Compares :
      (key : Text) (expected : ExpectedValue) (value : Raw) (o : Option Number) (s : Store Log)
      {b : Bool} {t : Store Log}
      → compare_and_set host key expected value o s ≡ (ok b, t)
      → Compares key expected value s b t
  unfolding compare_and_set
  compare_and_set-Compares key expected value o s {b} {t} h =
      lift-elim (active host key) _ s h λ _ _ h₁.
        lift-elim (expected_of expected) _ s h₁ λ checked c h₂.
          lift-elim (copied value) _ s h₂ λ copy p h₃. lift-elim (ttl_of o) _ s h₃ λ ttl q h₄.
            lift-elim (next host key s) _ s h₄ λ _ _ h₅. lift-elim (due host ttl) _ s h₅ λ _ _ h₆.
              chain-elim (live host key) _ s h₆ λ previous u found e.
                finished checked copy ttl u previous c p q (live-Finds host key s found) e
    where
      finished :
          (checked : Option Value) (copy : Value) (ttl : Option ℕ) (u : Store Log)
          (previous : Option Entry)
          → expected_of expected ≡ ok checked
          → copied value ≡ ok copy
          → ttl_of o ≡ ok ttl
          → Finds host key s previous u
          → (if not (matches host checked previous)
                then (note host
                      (units "kv.condition.failed")
                      (condition_data key (units "compareAndSet"))
                      none
                    >>= λ _. pure false)
                else (write host key copy ttl (units "compareAndSet") previous >>= λ _. pure true))
              u
            ≡ (ok b, t)
          → Compares key expected value s b t
      finished checked copy ttl u previous c p q f e =
          let agreed : matches host checked previous
              ≡ agrees checked (view host.now s.entries key) =
            matches-agrees checked previous ∙ ap (agrees checked) f.shown in
          elim (Bool-cases (matches host checked previous)) [
            | inr differs ↦
                chain-elim
                  (note host (units "kv.condition.failed")
                    (condition_data key (units "compareAndSet")) none)
                  (λ _. pure false) u (rw differs at e)
                  λ _ w noted end.
                    let answer : false ≡ b = cc in
                    let last : w ≡ t = cc in
                    subst (λ (x : Bool). Compares key expected value s x t) answer
                      (refused checked c (sym agreed ∙ differs) (
                        subst (λ (x : Store Log). IsSame host s x) last
                          (unchanged host s u w f (note-same host _ _ none u noted))))
            | inl fits ↦
                chain-elim (write host key copy ttl (units "compareAndSet") previous)
                  (λ _. pure true) u (rw fits at e)
                  λ _ w written end.
                    let answer : true ≡ b = cc in
                    let last : w ≡ t = cc in
                    let update =
                      write-IsUpdate host key copy o ttl (units "compareAndSet") previous u q
                        written in
                    subst (λ (x : Bool). Compares key expected value s x t) answer
                      (swapped checked copy c p (sym agreed ∙ fits) (
                        subst (λ (x : Store Log). IsUpdate host key (some copy) s x) last
                          (IsSame-IsUpdate host key (some copy) s u w f.same update)))
          ]

-- ===== src/KeyValue/Counting.antt =====
-- `increment` as an update of the visible map.
use mathlib.Core.Path.{subst}
use distlab.Base.{
  ◌≡◌, refl, sym, ◌∙◌, ap, inl, inr, true, not, Option, none, some, Option-cases, Text, units,
  Result, ok, fail_if, fail_if-eq-ok, arith,
}
use distlab.Base.Actions.{pure, lift-elim, chain-elim}
use distlab.Contracts.Errors.{kv_counter_overflow}
use distlab.Values.{Value, Number, whole, num, is_safe_integer}
use distlab.KeyValue.{Store, Host, live, value_of, active, next, successor}
use distlab.KeyValue.Map.{Entry, has_expired}
use distlab.KeyValue.Operations.{increment, replace_entry, counter, counter_of, retained, expiry_of}
use distlab.KeyValue.View.{view, IsFresh, live-Finds}
use distlab.KeyValue.Refinement.{IsUpdate, replace_entry-Replaces}
use distlab.KeyValue.Writes.{IsLater, IsSame-IsUpdate, Replaces-IsUpdate}

-- The number that a visible value is, or 0.
unfoldable pub number_of : Option Value → Result Number
unfolding counter
number_of none = ok (whole 0)
number_of (some v) = counter v

counter_of-number_of : (e : Option Entry) → counter_of e ≡ number_of (value_of e)
unfolding counter_of number_of
counter_of-number_of none = refl
counter_of-number_of (some e) = refl

module _ {Log : Type 0} (host : Host Log) where
  expiry-IsLater :
      (previous : Option Entry) → IsFresh host previous → IsLater host.now (expiry_of previous)
  unfolding has_expired
  expiry-IsLater none f = tt
  expiry-IsLater (some e) f = elim (Option-cases e.expires_at) [
    | inl never ↦ rw never tt
    | inr (at, timed) ↦ let later = rw (has_expired, timed) at f in rw timed (ground arith)
  ]

  -- What a successful call of `increment` does.
  pub record Counts (key : Text) (n : Number) (s t : Store Log) : Type 0 where
    pub old : Number
    pub shown : number_of (view host.now s.entries key) ≡ ok old
    pub next : n ≡ successor old
    pub safe : is_safe_integer n ≡ true
    pub updated : IsUpdate host key (some (num n)) s t

  -- A call of `increment` that succeeds found a safe integer or nothing under the key; it returns
  -- the number after that one, or after 0, which is again a safe integer, and the key shows it. No
  -- other key changed.
  pub increment-Counts :
      (key : Text) (s : Store Log) {n : Number} {t : Store Log}
      → increment host key s ≡ (ok n, t)
      → Counts key n s t
  unfolding increment
  increment-Counts key s {n} {t} h = lift-elim (active host key) _ s h λ _ _ h₁.
      lift-elim (next host key s) _ s h₁ λ _ _ h₂.
        chain-elim (live host key) _ s h₂ λ previous u found h₃.
          lift-elim (counter_of previous) _ u h₃ λ old counted h₄.
            lift-elim (fail_if (not (is_safe_integer (successor old))) kv_counter_overflow) _ u h₄
              λ _ fits h₅. lift-elim (next host key u) _ u h₅ λ generation _ h₆.
                chain-elim
                  (replace_entry host key generation (num (successor old)) (expiry_of previous)
                    (retained previous) (units "increment") previous)
                  (λ _. pure (successor old)) u h₆
                  λ _ w written end.
                    let f = live-Finds host key s found in
                    let answer : successor old ≡ n = cc in
                    let last : w ≡ t = cc in
                    let r =
                      replace_entry-Replaces host key generation (num (successor old))
                        (expiry_of previous) (retained previous) (units "increment") previous u
                        written in
                    let update =
                      Replaces-IsUpdate host key (num (successor old)) (expiry_of previous) u w r
                        (expiry-IsLater previous f.fresh) in
                    let bound = fail_if-eq-ok (not (is_safe_integer (successor old))) _ fits in
                    subst (λ (x : Number). Counts key x s t) answer
                      (record {
                        old = old;
                        shown =
                            ap number_of (sym f.shown)
                            ∙ sym (counter_of-number_of previous)
                            ∙ counted;
                        next = refl;
                        safe = ground arith;
                        updated =
                            subst
                              (λ (x : Store Log).
                                IsUpdate host key (some (num (successor old))) s x)
                              last
                              (IsSame-IsUpdate host key (some (num (successor old))) s u w f.same
                                update);
                      })

-- ===== src/KeyValue/Expiry.antt =====
-- The handler of expiry events.
use distlab.Base.{
  ℕ, ◌≡◌, refl, inl, inr, true, Bool-cases, Option, none, some, Text, Result, ok, throw, type_error,
  ◌&&◌, ◌==◌, arith, ◌∙◌, ap,
}
use distlab.Base.Actions.{and_then}
use distlab.KeyValue.{Store, Host, drop_expired}
use distlab.KeyValue.Map.{Entry, Entries, find_entry, has_expired}
use distlab.KeyValue.Operations.{expire, expire_found}
use distlab.KeyValue.View.{view, drop_expired_entries, view-drop_entry}
use distlab.KeyValue.Refinement.{IsSame}

module _ {Log : Type 0} (host : Host Log) where
  dropped-IsSame :
      (key : Text) (entry : Entry) (s : Store Log)
      → find_entry key s.entries ≡ some entry
      → has_expired host.now entry ≡ true
      → IsSame host s (drop_expired host key entry s).1
  dropped-IsSame key entry s found old = λ k.
      ap (λ (es : Entries). view host.now es k) (drop_expired_entries host key entry s).0
      ∙ view-drop_entry host key k entry s.entries found old

  expire_found-IsSame :
      (key : Text) (generation : ℕ) (o : Option Entry) (s : Store Log)
      → find_entry key s.entries ≡ o
      → IsSame host s (expire_found host key generation o s).1
  unfolding expire_found
  expire_found-IsSame key generation none s found = λ k. refl
  expire_found-IsSame key generation (some entry) s found =
      elim (Bool-cases (entry.generation == generation && has_expired host.now entry)) [
        | inr kept ↦ rw kept (λ k. refl)
        | inl old ↦ rw old (dropped-IsSame key entry s found (ground arith))
      ]

  -- Handling an expiry event, whatever its key and generation and however it ends, changes nothing
  -- that is visible: only an entry that was no longer visible is removed.
  pub expire-IsSame :
      (key : Text) (generation : ℕ) (s : Store Log) → IsSame host s (expire host key generation s).1
  unfolding expire
  expire-IsSame key generation s = checked host.check
    where
      checked :
          (r : Result (Unit {0}))
          → IsSame host s
              (and_then r
                (λ _ t. expire_found host key generation (find_entry key t.entries) t)
                s).1
      checked (ok _) = expire_found-IsSame key generation _ s refl
      checked (throw e) = λ k. refl
      checked type_error = λ k. refl

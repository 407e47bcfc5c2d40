-- ===== src/Canonical/RoundTrip.antt =====
-- What `canonicalCopy` yields, and that it accepts what it yields.
use distlab.Base.{
  ℕ, suc, ◌<◌, ◌≡◌, refl, Bool, true, false, ◌&&◌, List, [], ◌∷◌, Result, ok, throw, type_error,
  bind, if◌then◌else◌, arith,
}
use distlab.Contracts.Errors.{invalid_run_input}
use distlab.Values.{
  Number, whole, negative, negative_zero, fraction, non_finite, Value, Items, Fields, nil, cons,
  end, field,
}
use distlab.Canonical.{
  Raw, Slots, Props, undefined, opaque, array, object, stop, slot, unreadable, last, prop,
  symbol_key, hidden, has, copy_number, copy, copy_slots, copy_props, canonical_copy, embed_at,
  embed_items, embed_fields, embed,
}

-- A number that JSON can hold: finite, and not -0.
abbrev pub is_json_number : Number → Bool
is_json_number negative_zero = false
is_json_number (non_finite _) = false
is_json_number _ = true

unfoldable mutual
  pub is_canonical : Value → Bool
  is_canonical Value.null = true
  is_canonical (Value.bool b) = true
  is_canonical (Value.num n) = is_json_number n
  is_canonical (Value.str s) = true
  is_canonical (Value.arr items) = are_canonical items
  is_canonical (Value.obj fs) = fields_canonical fs

  pub are_canonical : Items → Bool
  are_canonical nil = true
  are_canonical (cons v items) = is_canonical v && are_canonical items

  pub fields_canonical : Fields → Bool
  fields_canonical end = true
  fields_canonical (field k v fs) = is_canonical v && fields_canonical fs

copy_number-canonical : (n : Number) (v : Value) → copy_number n ≡ ok v → is_canonical v ≡ true
unfolding copy_number is_canonical
copy_number-canonical (whole n) v h = ground arith
copy_number-canonical (negative n) v h = ground arith
copy_number-canonical negative_zero v h = cc
copy_number-canonical (fraction n) v h = ground arith
copy_number-canonical (non_finite n) v h = cc

array_canonical :
    (c : Result Items) (seen extra : Bool) (v : Value)
    → ((items : Items) → c ≡ ok items → are_canonical items ≡ true)
    → (if seen
        then throw invalid_run_input
        else bind c (λ items. if extra then throw invalid_run_input else ok (Value.arr items)))
      ≡ ok v
    → is_canonical v ≡ true
unfolding is_canonical
array_canonical (ok items) seen extra v all h = ground (arith, all items refl)
array_canonical (throw e) seen extra v all h = ground arith
array_canonical type_error seen extra v all h = ground arith

object_canonical :
    (c : Result Fields) (seen plain : Bool) (v : Value)
    → ((fs : Fields) → c ≡ ok fs → fields_canonical fs ≡ true)
    → (if seen
        then throw invalid_run_input
        else if plain
        then bind c (λ fs. ok (Value.obj fs))
        else throw invalid_run_input)
      ≡ ok v
    → is_canonical v ≡ true
unfolding is_canonical
object_canonical (ok fs) seen plain v all h = ground (arith, all fs refl)
object_canonical (throw e) seen plain v all h = ground arith
object_canonical type_error seen plain v all h = ground arith

slot_canonical :
    (head : Result Value) (tail : Result Items) (items : Items)
    → ((v : Value) → head ≡ ok v → is_canonical v ≡ true)
    → ((rest : Items) → tail ≡ ok rest → are_canonical rest ≡ true)
    → bind head (λ v. bind tail (λ rest. ok (cons v rest))) ≡ ok items
    → are_canonical items ≡ true
unfolding is_canonical are_canonical
slot_canonical (ok v) (ok rest) items good all h = ground (arith, good v refl, all rest refl)
slot_canonical (ok v) (throw e) items good all h = cc
slot_canonical (ok v) type_error items good all h = cc
slot_canonical (throw e) tail items good all h = cc
slot_canonical type_error tail items good all h = cc

prop_canonical :
    (k : List ℕ) (head : Result Value) (tail : Result Fields) (fs : Fields)
    → ((v : Value) → head ≡ ok v → is_canonical v ≡ true)
    → ((rest : Fields) → tail ≡ ok rest → fields_canonical rest ≡ true)
    → bind head (λ v. bind tail (λ rest. ok (field k v rest))) ≡ ok fs
    → fields_canonical fs ≡ true
unfolding is_canonical fields_canonical
prop_canonical k (ok v) (ok rest) fs good all h = ground (arith, good v refl, all rest refl)
prop_canonical k (ok v) (throw e) fs good all h = cc
prop_canonical k (ok v) type_error fs good all h = cc
prop_canonical k (throw e) tail fs good all h = cc
prop_canonical k type_error tail fs good all h = cc

mutual
  unfolding copy is_canonical

  copy-canonical :
      (r : Raw) (active : List ℕ) (v : Value) → copy r active ≡ ok v → is_canonical v ≡ true
  copy-canonical undefined active v h = cc
  copy-canonical Raw.null active v h = ground arith
  copy-canonical (Raw.bool b) active v h = ground arith
  copy-canonical (Raw.num n) active v h = copy_number-canonical n v h
  copy-canonical (Raw.str s) active v h = ground arith
  copy-canonical opaque active v h = cc
  copy-canonical (array i slots extra) active v h =
      array_canonical (copy_slots slots (i ∷ active)) (has active i) extra v
        (copy_slots-canonical slots (i ∷ active)) h
  copy-canonical (object i plain props) active v h =
      object_canonical (copy_props props (i ∷ active)) (has active i) plain v
        (copy_props-canonical props (i ∷ active)) h

  copy_slots-canonical :
      (slots : Slots) (active : List ℕ) (items : Items)
      → copy_slots slots active ≡ ok items
      → are_canonical items ≡ true
  copy_slots-canonical stop active items h = ground arith
  copy_slots-canonical (slot r rest) active items h =
      slot_canonical (copy r active) (copy_slots rest active) items (copy-canonical r active)
        (copy_slots-canonical rest active) h
  copy_slots-canonical (unreadable rest) active items h = cc

  copy_props-canonical :
      (props : Props) (active : List ℕ) (fs : Fields)
      → copy_props props active ≡ ok fs
      → fields_canonical fs ≡ true
  copy_props-canonical last active fs h = ground arith
  copy_props-canonical (prop k r rest) active fs h =
      prop_canonical k (copy r active) (copy_props rest active) fs (copy-canonical r active)
        (copy_props-canonical rest active) h
  copy_props-canonical (symbol_key rest) active fs h = cc
  copy_props-canonical (hidden k rest) active fs h = cc

-- `canonicalCopy` yields only values that JSON can hold, whatever it is handed.
pub canonical_copy-is_canonical :
    (r : Raw) (v : Value) → canonical_copy r ≡ ok v → is_canonical v ≡ true
unfolding canonical_copy
canonical_copy-is_canonical r v h = copy-canonical r [] v h

-- The objects that are being copied have identities below `d`.
abbrev Below : ℕ → List ℕ → Type 0
Below d [] = Unit
Below d (i ∷ is) = (i < d) × Below d is

Below-suc : (d : ℕ) (active : List ℕ) → Below d active → Below (suc d) active
Below-suc d [] b = tt
Below-suc d (i ∷ active) b = (omega arith, Below-suc d active b.1)

not_has : (d : ℕ) (active : List ℕ) → Below d active → has active d ≡ false
not_has d [] b = refl
not_has d (i ∷ active) b = ground (arith, not_has d active b.1)

copy_number-json : (n : Number) → is_json_number n ≡ true → copy_number n ≡ ok (Value.num n)
unfolding copy_number
copy_number-json (whole n) h = refl
copy_number-json (negative n) h = refl
copy_number-json negative_zero h = cc
copy_number-json (fraction n) h = refl
copy_number-json (non_finite n) h = cc

mutual
  unfolding copy is_canonical embed_at

  copy-embed_at :
      (v : Value) (d : ℕ) (active : List ℕ)
      → Below d active
      → is_canonical v ≡ true
      → copy (embed_at v d) active ≡ ok v
  copy-embed_at Value.null d active b h = refl
  copy-embed_at (Value.bool x) d active b h = refl
  copy-embed_at (Value.num n) d active b h = copy_number-json n h
  copy-embed_at (Value.str s) d active b h = refl
  copy-embed_at (Value.arr items) d active b h = rw (
    not_has d active b,
    copy_slots-embed_items items (suc d) (d ∷ active) (omega arith, Below-suc d active b) h,
  )
  copy-embed_at (Value.obj fs) d active b h = rw (
    not_has d active b,
    copy_props-embed_fields fs (suc d) (d ∷ active) (omega arith, Below-suc d active b) h,
  )

  copy_slots-embed_items :
      (items : Items) (d : ℕ) (active : List ℕ)
      → Below d active
      → are_canonical items ≡ true
      → copy_slots (embed_items items d) active ≡ ok items
  copy_slots-embed_items nil d active b h = refl
  copy_slots-embed_items (cons v items) d active b h = rw (
    copy-embed_at v d active b (ground arith),
    copy_slots-embed_items items d active b (ground arith),
  )

  copy_props-embed_fields :
      (fs : Fields) (d : ℕ) (active : List ℕ)
      → Below d active
      → fields_canonical fs ≡ true
      → copy_props (embed_fields fs d) active ≡ ok fs
  copy_props-embed_fields end d active b h = refl
  copy_props-embed_fields (field k v fs) d active b h = rw (
    copy-embed_at v d active b (ground arith),
    copy_props-embed_fields fs d active b (ground arith),
  )

-- A canonical value that is handed in again comes back as it is.
pub canonical_copy-embed : (v : Value) → is_canonical v ≡ true → canonical_copy (embed v) ≡ ok v
unfolding canonical_copy embed
canonical_copy-embed v h = copy-embed_at v 0 [] tt h

-- ===== src/Canonical.antt =====
-- packages/kernel/src/canonical.ts: `canonicalCopy`, which every part of the kernel applies to what
-- a caller hands in.
pub mod RoundTrip
pub mod Encode
use distlab.Base.{
  ℕ, suc, Bool, true, false, List, [], ◌∷◌, Text, Result, ok, throw, bind, ◌==◌, if◌then◌else◌,
}
use distlab.Contracts.Errors.{invalid_run_input}
use distlab.Values.{
  Number, whole, negative, negative_zero, fraction, non_finite, Value, Items, Fields, nil, cons,
  end, field,
}

-- A value of the host language, of any type. An object has an identity; one that holds itself is
-- cut where its identity comes back, since the copy reads no further. `opaque` is a function, a
-- symbol or a big integer. A slot or a property that is absent, an accessor or not enumerable is
-- `unreadable` or `hidden`; `plain` says that the prototype is Object.prototype or null, `extra`
-- that an array has a property beside its items.
mutual
  pub data Raw : Type 0 where
    undefined : Raw
    null : Raw
    bool : Bool → Raw
    num : Number → Raw
    str : Text → Raw
    opaque : Raw
    array : (identity : ℕ) → Slots → (extra : Bool) → Raw
    object : (identity : ℕ) → (plain : Bool) → Props → Raw

  pub data Slots : Type 0 where
    stop : Slots
    slot : Raw → Slots → Slots
    unreadable : Slots → Slots

  pub data Props : Type 0 where
    last : Props
    prop : Text → Raw → Props → Props
    symbol_key : Props → Props
    hidden : Text → Props → Props

-- `active.has(identity)`
abbrev pub has : List ℕ → ℕ → Bool
has [] i = false
has (j ∷ js) i = if j == i then true else has js i

unfoldable pub copy_number : Number → Result Value
copy_number negative_zero = throw invalid_run_input
copy_number (non_finite _) = throw invalid_run_input
copy_number n = ok (Value.num n)

unfoldable mutual
  unfolding copy_number

  pub copy : Raw → List ℕ → Result Value
  copy undefined active = throw invalid_run_input
  copy Raw.null active = ok Value.null
  copy (Raw.bool b) active = ok (Value.bool b)
  copy (Raw.num n) active = copy_number n
  copy (Raw.str s) active = ok (Value.str s)
  copy opaque active = throw invalid_run_input
  copy (array i slots extra) active =
      let copied = copy_slots slots (i ∷ active) in
      if has active i
      then throw invalid_run_input
      else bind copied λ items. if extra then throw invalid_run_input else ok (Value.arr items)
  copy (object i plain props) active =
      let copied = copy_props props (i ∷ active) in
      if has active i
      then throw invalid_run_input
      else if plain
      then bind copied (λ fs. ok (Value.obj fs))
      else throw invalid_run_input

  pub copy_slots : Slots → List ℕ → Result Items
  copy_slots stop active = ok nil
  copy_slots (slot r rest) active =
      let tail = copy_slots rest active in
      bind (copy r active) λ v. bind tail λ items. ok (cons v items)
  copy_slots (unreadable rest) active = throw invalid_run_input

  pub copy_props : Props → List ℕ → Result Fields
  copy_props last active = ok end
  copy_props (prop k r rest) active =
      let tail = copy_props rest active in
      bind (copy r active) λ v. bind tail λ fs. ok (field k v fs)
  copy_props (symbol_key rest) active = throw invalid_run_input
  copy_props (hidden k rest) active = throw invalid_run_input

unfoldable pub canonical_copy : Raw → Result Value
unfolding copy
canonical_copy r = copy r []

-- A canonical value, handed in again: objects of their own at each depth.
unfoldable mutual
  pub embed_at : Value → ℕ → Raw
  embed_at Value.null d = Raw.null
  embed_at (Value.bool b) d = Raw.bool b
  embed_at (Value.num n) d = Raw.num n
  embed_at (Value.str s) d = Raw.str s
  embed_at (Value.arr items) d = array d (embed_items items (suc d)) false
  embed_at (Value.obj fs) d = object d true (embed_fields fs (suc d))

  pub embed_items : Items → ℕ → Slots
  embed_items nil d = stop
  embed_items (cons v items) d = slot (embed_at v d) (embed_items items d)

  pub embed_fields : Fields → ℕ → Props
  embed_fields end d = last
  embed_fields (field k v fs) d = prop k (embed_at v d) (embed_fields fs d)

unfoldable pub embed : Value → Raw
unfolding embed_at
embed v = embed_at v 0

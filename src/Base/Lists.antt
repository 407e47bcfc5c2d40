-- ===== src/Base/Lists.antt =====
-- Lists measured and indexed by native numbers, under the library's names.
use Prim.Native.Nat.{ℕ, zero, suc, ◌+◌, ◌-◌, ◌<◌}
use mathlib.Core.Path.{◌≡◌, refl, ap}
use mathlib.Core.Logic.{∥∥₁_elim, ◌⊎◌, inl, inr}
use mathlib.Core.List.{List, [], ◌∷◌, ◌++◌, Perm, Permᴰ, perm_middle, append-nil}
use mathlib.Core.List.Perm
use mathlib.Core.Option.{Option, none, some}
use native.Mathlib.Nat.{ℕ_set}
use native.Mathlib.Omega.{arith}
use distlab.Base.Tests.{◌==◌, if◌then◌else◌}

module _ {ℓ} {A : Type ℓ} where
  abbrev pub length : List A → ℕ
  length [] = 0
  length (x ∷ xs) = suc (length xs)

  abbrev pub get_elem? : List A → ℕ → Option A
  get_elem? [] i = none
  get_elem? (x ∷ xs) zero = some x
  get_elem? (x ∷ xs) (suc i) = get_elem? xs i

  -- A write out of bounds changes nothing.
  abbrev pub set : List A → ℕ → A → List A
  set [] i v = []
  set (x ∷ xs) zero v = v ∷ xs
  set (x ∷ xs) (suc i) v = x ∷ set xs i v

  -- The entry at a place, or `d` past the end; for statements.
  unfoldable pub get_or : List A → ℕ → A → A
  get_or [] i d = d
  get_or (x ∷ xs) zero d = x
  get_or (x ∷ xs) (suc i) d = get_or xs i d

  -- The list without its last entry: what `Array.pop` leaves.
  abbrev pub drop_last : List A → List A
  drop_last [] = []
  drop_last (x ∷ []) = []
  drop_last (x ∷ y ∷ xs) = x ∷ drop_last (y ∷ xs)

  pub length-append : (xs ys : List A) → length (xs ++ ys) ≡ length xs + length ys
  length-append [] ys = omega arith
  length-append (x ∷ xs) ys = omega (arith, length-append xs ys)

module _ {ℓ} {A : Type ℓ} where
  pub length-set : (xs : List A) (i : ℕ) (v : A) → length (set xs i v) ≡ length xs
  length-set [] i v = refl
  length-set (x ∷ xs) zero v = refl
  length-set (x ∷ xs) (suc i) v = ap suc (length-set xs i v)

  pub length-drop_last : (xs : List A) → length (drop_last xs) ≡ length xs - 1
  length-drop_last [] = omega arith
  length-drop_last (x ∷ []) = omega arith
  length-drop_last (x ∷ y ∷ xs) = omega (arith, length-drop_last (y ∷ xs))

  same_length : {xs ys : List A} → Permᴰ xs ys → length xs ≡ length ys
  same_length (Permᴰ.trans first second) = omega (arith, same_length first, same_length second)
  same_length (Permᴰ.cons _ tail) = omega (arith, same_length tail)
  same_length (Permᴰ.swap _ _) = refl
  same_length Permᴰ.nil = refl

  pub length-perm : {xs ys : List A} → Perm xs ys → length xs ≡ length ys
  length-perm p = ∥∥₁_elim p (ℕ_set _ _) same_length

module _ {ℓ} {A : Type ℓ} where
  pub get_elem?-set :
      (xs : List A) (i j : ℕ) (v : A) {x : A}
      → get_elem? xs i ≡ some x
      → get_elem? (set xs i v) j ≡ (if i == j then some v else get_elem? xs j)
  get_elem?-set [] i j v h = cc
  get_elem?-set (x ∷ xs) zero zero v h = refl
  get_elem?-set (x ∷ xs) zero (suc j) v h = ground arith
  get_elem?-set (x ∷ xs) (suc i) zero v h = ground arith
  get_elem?-set (x ∷ xs) (suc i) (suc j) v h = ground (arith, get_elem?-set xs i j v h)

  pub get_elem?-append :
      (xs ys : List A) (i : ℕ) {x : A} → get_elem? xs i ≡ some x → get_elem? (xs ++ ys) i ≡ some x
  get_elem?-append [] ys i h = cc
  get_elem?-append (x ∷ xs) ys zero h = h
  get_elem?-append (x ∷ xs) ys (suc i) h = get_elem?-append xs ys i h

  pub get_elem?-append_last : (xs : List A) (v : A) → get_elem? (xs ++ v ∷ []) (length xs) ≡ some v
  get_elem?-append_last [] v = refl
  get_elem?-append_last (x ∷ xs) v = get_elem?-append_last xs v

  pub get_elem?-append_cases :
      (xs : List A) (v : A) (i : ℕ) {x : A}
      → get_elem? (xs ++ v ∷ []) i ≡ some x
      → (get_elem? xs i ≡ some x) ⊎ (v ≡ x)
  get_elem?-append_cases [] v zero h = inr (cc)
  get_elem?-append_cases [] v (suc i) h = absurd (cc)
  get_elem?-append_cases (x ∷ xs) v zero h = inl h
  get_elem?-append_cases (x ∷ xs) v (suc i) h = get_elem?-append_cases xs v i h

module _ {ℓ} {A : Type ℓ} (d : A) where
  pub get_elem?-get_or :
      (xs : List A) (i : ℕ) → i < length xs → get_elem? xs i ≡ some (get_or xs i d)
  unfolding get_or
  get_elem?-get_or [] i h = elim h [ ]
  get_elem?-get_or (x ∷ xs) zero h = refl
  get_elem?-get_or (x ∷ xs) (suc i) h = get_elem?-get_or xs i (omega arith)

  pub get_or-set :
      (xs : List A) (i j : ℕ) (v : A)
      → i < length xs
      → get_or (set xs i v) j d ≡ (if i == j then v else get_or xs j d)
  unfolding get_or
  get_or-set [] i j v h = elim h [ ]
  get_or-set (x ∷ xs) zero zero v h = refl
  get_or-set (x ∷ xs) zero (suc j) v h = ground arith
  get_or-set (x ∷ xs) (suc i) zero v h = ground arith
  get_or-set (x ∷ xs) (suc i) (suc j) v h = ground (arith, get_or-set xs i j v)

  pub get_or-append :
      (xs ys : List A) (i : ℕ) → i < length xs → get_or (xs ++ ys) i d ≡ get_or xs i d
  unfolding get_or
  get_or-append [] ys i h = elim h [ ]
  get_or-append (x ∷ xs) ys zero h = refl
  get_or-append (x ∷ xs) ys (suc i) h = get_or-append xs ys i (omega arith)

  pub get_or-append_last : (xs : List A) (v : A) → get_or (xs ++ v ∷ []) (length xs) d ≡ v
  unfolding get_or
  get_or-append_last [] v = refl
  get_or-append_last (x ∷ xs) v = get_or-append_last xs v

  pub get_or-drop_last :
      (xs : List A) (i : ℕ) → i + 1 < length xs → get_or (drop_last xs) i d ≡ get_or xs i d
  unfolding get_or
  get_or-drop_last [] i h = absurd (omega arith)
  get_or-drop_last (x ∷ []) i h = absurd (omega arith)
  get_or-drop_last (x ∷ y ∷ xs) zero h = refl
  get_or-drop_last (x ∷ y ∷ xs) (suc i) h = get_or-drop_last (y ∷ xs) i (omega arith)

  pub drop_last-append :
      (xs : List A) (n : ℕ) → length xs ≡ suc n → drop_last xs ++ get_or xs n d ∷ [] ≡ xs
  unfolding get_or
  drop_last-append [] n h = absurd (omega arith)
  drop_last-append (x ∷ []) zero h = refl
  drop_last-append (x ∷ []) (suc n) h = absurd (omega arith)
  drop_last-append (x ∷ y ∷ xs) zero h = absurd (omega arith)
  drop_last-append (x ∷ y ∷ xs) (suc n) h = ap (◌∷◌ x) (drop_last-append (y ∷ xs) n (omega arith))

  -- A write trades the old entry for the new one.
  pub set-perm :
      (xs : List A) (i : ℕ) (v : A) → i < length xs → Perm (get_or xs i d ∷ set xs i v) (v ∷ xs)
  unfolding get_or
  set-perm [] i v h = elim h [ ]
  set-perm (x ∷ xs) zero v h = Perm.swap v x xs
  set-perm (x ∷ xs) (suc i) v h =
      let tail = Perm.cons x (set-perm xs i v (omega arith)) in
      Perm.trans (Perm.swap x _ _) (Perm.trans tail (Perm.swap v x xs))

  -- The last entry, moved to the front.
  pub last-perm : (xs : List A) (n : ℕ) → length xs ≡ suc n → Perm (get_or xs n d ∷ drop_last xs) xs
  last-perm xs n h =
      let e = drop_last-append xs n h in
      let front = perm_middle {a = get_or xs n d} (drop_last xs) [] in
      rw e at (Perm.symm (rw (append-nil (drop_last xs)) at front))

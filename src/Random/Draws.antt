-- ===== src/Random/Draws.antt =====
-- packages/kernel/src/random.ts: the words of a generator from its constructor on, through all its calls.
use mathlib.Core.Path.{subst}
use mathlib.Core.Logic.{inl, inr}
use distlab.Base.{
  ℕ, suc, ◌+◌, ◌%◌, ◌^◌, ◌<◌, if◌then◌else◌, ◌≡◌, refl, ap, sym, ◌∙◌, not, ◌&&◌, ◌==◌, true, false,
  List, [], ◌∷◌, Text, Result, ok, throw, Bool-cases, if_true, if_false, arith,
}
use distlab.Contracts.Errors.{invalid_operation, identity_overflow, invalid_run_input}
use distlab.Values.{is_safe, is_name}
use distlab.Random.{Words, Generator, RandomDraw, multiply, shift_right, step, draw, output, revoke}
use distlab.Random.Seeding.{xor_shift, split_mix, seed_words, create}
use distlab.Random.Live.{IsZero, IsLive, xor_small, step-IsLive}

-- The calls of a generator.
pub data Turn : Type 0 where
  draws : Text → Turn
  revokes : Turn

unfoldable pub after : Turn → Generator → Generator
after (draws label) g = (draw label g).1
after revokes g = revoke g

unfoldable pub after_all : List Turn → Generator → Generator
after_all [] g = g
after_all (turn ∷ turns) g = after_all turns (after turn g)

xor_shift_small : (k z : ℕ) → xor_shift k z < 2 ^ 32
unfolding xor_shift
xor_shift_small k z = xor_small z (shift_right z k)

split_mix_small : (n : ℕ) → split_mix n < 2 ^ 32
unfolding split_mix
split_mix_small n =
    let y = multiply (xor_shift 16 ((n + 2654435769) % 2 ^ 32)) 569420461 in
    xor_shift_small 15 (multiply (xor_shift 15 y) 1935289751)

not-IsZero : (w : Words) → (w.a == 0 && w.b == 0 && w.c == 0 && w.d == 0) ≡ false → ¬ (IsZero w)
not-IsZero w h (za, zb, zc, zd) =
    let holds : (w.a == 0 && w.b == 0 && w.c == 0 && w.d == 0) ≡ true = rw (za, zb, zc, zd) refl in
    cc

seed_words-IsLive : (n : Words) → IsLive (seed_words n)
unfolding seed_words
seed_words-IsLive n =
    let w : Words = record {
      a = split_mix n.a;
      b = split_mix n.b;
      c = split_mix n.c;
      d = split_mix n.d;
    } in
    let a = split_mix_small n.a in
    let b = split_mix_small n.b in
    let c = split_mix_small n.c in
    let d = split_mix_small n.d in
    elim (Bool-cases (w.a == 0 && w.b == 0 && w.c == 0 && w.d == 0)) [
      | inl none_left ↦ subst IsLive (sym (if_true _ _ none_left)) (record {
        wide = (a, b, c, omega arith);
        some_one = λ (za, zb, zc, zd). omega (arith, zd);
      })
      | inr some_left ↦
          subst IsLive (sym (if_false _ _ some_left))
            (record { wide = (a, b, c, d); some_one = not-IsZero w some_left })
    ]

abbrev Kept : Result RandomDraw × Generator → Type 0
Kept x = IsLive x.1.words

draw-IsLive : (label : Text) (g : Generator) → IsLive g.words → IsLive (draw label g).1.words
unfolding draw
draw-IsLive label g live = elim (Bool-cases g.valid) [
  | inr revoked ↦ subst Kept (sym (if_true _ _ (ap not revoked))) live
  | inl valid ↦ subst Kept (sym (if_false _ _ (ap not valid))) (labelled label)
]
  where
    labelled :
        (l : Text)
        → Kept (elim l [
          | [] ↦ (throw invalid_operation, g)
          | _ ∷ _ ↦
              if is_safe (suc g.index)
              then (
                ok (record { index = g.index; uint32 = output g.words }),
                record g { words = step g.words; index = suc g.index },
              )
              else (throw identity_overflow, g)
        ])
    labelled [] = live
    labelled (_ ∷ _) = elim (Bool-cases (is_safe (suc g.index))) [
      | inl safe ↦ subst Kept (sym (if_true _ _ safe)) (step-IsLive g.words live)
      | inr over ↦ subst Kept (sym (if_false _ _ over)) live
    ]

after-IsLive : (turn : Turn) (g : Generator) → IsLive g.words → IsLive (after turn g).words
unfolding after revoke
after-IsLive (draws label) g live = draw-IsLive label g live
after-IsLive revokes g live = live

after_all-IsLive :
    (turns : List Turn) (g : Generator) → IsLive g.words → IsLive (after_all turns g).words
unfolding after_all
after_all-IsLive [] g live = live
after_all-IsLive (turn ∷ turns) g live =
    after_all-IsLive turns (after turn g) (after-IsLive turn g live)

-- Through every sequence of draws and revocations of a new generator, whatever the digest of its seed, its
-- words are 32 bits wide and never all zero.
pub new-IsLive :
    (digest : Text → Words) (seed : Text) (turns : List Turn) {g : Generator}
    → create digest seed ≡ ok g
    → IsLive (after_all turns g).words
unfolding create
new-IsLive digest seed turns {g} h = elim (Bool-cases (is_name seed)) [
  | inl named ↦
      let made : Generator = record { words = seed_words (digest seed); index = 0; valid = true } in
      let reads : ok made ≡ ok g = sym (if_true _ _ named) ∙ h in
      let same : made ≡ g = cc in
      subst (λ (x : Generator). IsLive (after_all turns x).words) same
        (after_all-IsLive turns made (seed_words-IsLive (digest seed)))
  | inr blank ↦ let refused : throw invalid_run_input ≡ ok g = sym (if_false _ _ blank) ∙ h in cc
]

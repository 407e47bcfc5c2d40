-- ===== src/Random.antt =====
-- packages/kernel/src/random.ts: `draw` and `revoke` of `SeededRandom`. The host's operations on 32
-- bits are written out on natural numbers.
pub mod Seeding
pub mod Live
pub mod Draws
use distlab.Base.{
  ℕ, zero, suc, ◌+◌, ◌-◌, ◌*◌, ◌/◌, ◌%◌, ◌^◌, Bool, true, false, not, ◌&&◌, ◌||◌, Text, [], ◌∷◌,
  Result, ok, throw, type_error, ◌==◌, if◌then◌else◌,
}
use distlab.Base.Actions.{Action}
use distlab.Contracts.Errors.{stale_capability, invalid_operation, identity_overflow}
use distlab.Values.{is_safe}
use distlab.Faults.{RandomPort}

abbrev pub is_odd : ℕ → Bool
is_odd n = (n % 2) == 1

abbrev pub bit : Bool → ℕ
bit true = 1
bit false = 0

-- An operation on the lowest `width` bits of two numbers.
unfoldable pub bitwise : (Bool → Bool → Bool) → (width a b : ℕ) → ℕ
bitwise f zero a b = 0
bitwise f (suc width) a b = bit (f (is_odd a) (is_odd b)) + 2 * bitwise f width (a / 2) (b / 2)

abbrev pub differ : Bool → Bool → Bool
differ true b = not b
differ false b = b

-- `(a ^ b) >>> 0` and `(a | b) >>> 0`
unfoldable pub xor : ℕ → ℕ → ℕ
unfolding bitwise
xor a b = bitwise differ 32 a b

unfoldable pub or : ℕ → ℕ → ℕ
unfolding bitwise
or a b = bitwise ◌||◌ 32 a b

-- `Math.imul(a, b) >>> 0` and `(a << k) >>> 0`
unfoldable pub multiply : ℕ → ℕ → ℕ
multiply a b = a * b % 2 ^ 32

unfoldable pub shift_left : ℕ → ℕ → ℕ
shift_left a k = a * 2 ^ k % 2 ^ 32

-- `a >>> k`
unfoldable pub shift_right : ℕ → ℕ → ℕ
shift_right a k = a / 2 ^ k

unfoldable pub rotl : ℕ → ℕ → ℕ
unfolding or shift_left shift_right
rotl x k = or (shift_left x k) (shift_right x (32 - k))

pub record Words : Type 0 where
  pub a : ℕ
  pub b : ℕ
  pub c : ℕ
  pub d : ℕ

pub record Generator : Type 0 where
  pub words : Words
  pub index : ℕ
  pub valid : Bool

pub record RandomDraw : Type 0 where
  pub index : ℕ
  pub uint32 : ℕ

-- The number that the words give, and the words that follow.
unfoldable pub output : Words → ℕ
unfolding rotl multiply
output w = multiply (rotl (multiply w.b 5) 7) 9

unfoldable pub step : Words → Words
unfolding xor rotl shift_left
step w =
    let t = shift_left w.b 9 in
    let c = xor w.c w.a in
    let d = xor w.d w.b in
    let b = xor w.b c in let a = xor w.a d in record { a = a; b = b; c = xor c t; d = rotl d 11 }

unfoldable pub revoke : Generator → Generator
revoke g = record g { valid = false }

unfoldable pub draw : Text → Action Generator RandomDraw
unfolding output step
draw label g = if not g.valid then (throw stale_capability, g) else elim label [
  | [] ↦ (throw invalid_operation, g)
  | _ ∷ _ ↦
      if is_safe (suc g.index)
      then (
        ok (record { index = g.index; uint32 = output g.words }),
        record g { words = step g.words; index = suc g.index },
      )
      else (throw identity_overflow, g)
]

-- The generator as the port that the fault engine draws from.
abbrev pub bits : Result RandomDraw → Result ℕ
bits (ok r) = ok r.uint32
bits (throw e) = throw e
bits type_error = type_error

pub seeded_port : RandomPort Generator
seeded_port = record { draw = λ label g. let (result, g') = draw label g in (bits result, g') }

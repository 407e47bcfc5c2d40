-- ===== src/Random/Live.antt =====
-- packages/kernel/src/random.ts: the operations on bits, and words of which one is not zero.
use distlab.Base.{
  ℕ, zero, suc, ◌*◌, ◌/◌, ◌%◌, ◌^◌, ◌≤◌, ◌<◌, ◌≡◌, sym, ◌∙◌, true, false, Bool, ◌||◌, ◌-◌, arith,
}
use distlab.Random.{
  Words, bitwise, xor, or, rotl, shift_left, shift_right, step, bit, is_odd, differ,
}

bit_small : (b : Bool) → bit b ≤ 1
bit_small true = omega arith
bit_small false = omega arith

double_power : (n : ℕ) → 2 ^ suc n ≡ 2 * 2 ^ n
double_power n = omega arith

pub bitwise_small : (f : Bool → Bool → Bool) (width a b : ℕ) → bitwise f width a b < 2 ^ width
unfolding bitwise
bitwise_small f zero a b = omega arith
bitwise_small f (suc width) a b =
    let double : 2 ^ suc width ≡ 2 * 2 ^ width = double_power width in
    let rest = bitwise_small f width (a / 2) (b / 2) in
    let low = bit_small (f (is_odd a) (is_odd b)) in rw double (omega (arith, rest, low))

differ_zero : (a b : ℕ) → bit (differ (is_odd a) (is_odd b)) ≡ 0 → a % 2 ≡ b % 2
differ_zero a b h = ground arith

or_zero : (a b : ℕ) → bit (is_odd a || is_odd b) ≡ 0 → (a % 2 ≡ 0) × (b % 2 ≡ 0)
or_zero a b h = (ground arith, ground arith)

-- Numbers whose exclusive or is zero are the same.
bitwise-differ_zero :
    (width a b : ℕ) → a < 2 ^ width → b < 2 ^ width → bitwise differ width a b ≡ 0 → a ≡ b
unfolding bitwise
bitwise-differ_zero zero a b p q h = omega arith
bitwise-differ_zero (suc width) a b p q h =
    let double : 2 ^ suc width ≡ 2 * 2 ^ width = double_power width in
    let low = differ_zero a b (omega (arith, h)) in
    let rest =
      bitwise-differ_zero width (a / 2) (b / 2) (omega (arith, double, p))
        (omega (arith, double, q)) (omega (arith, h)) in
    omega (arith, low, rest)

bitwise-or_zero :
    (width a b : ℕ) → a < 2 ^ width → b < 2 ^ width → bitwise ◌||◌ width a b ≡ 0 → (a ≡ 0) × (b ≡ 0)
unfolding bitwise
bitwise-or_zero zero a b p q h = (omega arith, omega arith)
bitwise-or_zero (suc width) a b p q h =
    let double : 2 ^ suc width ≡ 2 * 2 ^ width = double_power width in
    let (low, low') = or_zero a b (omega (arith, h)) in
    let (rest, rest') =
      bitwise-or_zero width (a / 2) (b / 2) (omega (arith, double, p)) (omega (arith, double, q))
        (omega (arith, h)) in
    (omega (arith, low, rest), omega (arith, low', rest'))

pub xor_small : (a b : ℕ) → xor a b < 2 ^ 32
unfolding xor
xor_small a b = bitwise_small differ 32 a b

rotl_small : (x k : ℕ) → rotl x k < 2 ^ 32
unfolding rotl or
rotl_small x k = bitwise_small ◌||◌ 32 (shift_left x k) (shift_right x (32 - k))

xor_zero : (a b : ℕ) → a < 2 ^ 32 → b < 2 ^ 32 → xor a b ≡ 0 → a ≡ b
unfolding xor
xor_zero a b p q h = bitwise-differ_zero 32 a b p q h

shift_left_small : (a k : ℕ) → shift_left a k < 2 ^ 32
unfolding shift_left
shift_left_small a k = omega arith

-- A rotation of a word by 11 loses no bit.
rotl_zero : (x : ℕ) → x < 2 ^ 32 → rotl x 11 ≡ 0 → x ≡ 0
unfolding rotl or shift_left shift_right
rotl_zero x p h =
    let (left, right) =
      bitwise-or_zero 32 (x * 2 ^ 11 % 2 ^ 32) (x / 2 ^ 21) (omega arith) (omega arith) h in
    omega (arith, left, right, p)

-- No word but zero is its own shift by 9.
shift_left-fixed : (x : ℕ) → x < 2 ^ 32 → x ≡ shift_left x 9 → x ≡ 0
unfolding shift_left
shift_left-fixed x p h = omega arith

abbrev pub IsWide : Words → Type 0
IsWide w = (w.a < 2 ^ 32) × (w.b < 2 ^ 32) × (w.c < 2 ^ 32) × (w.d < 2 ^ 32)

abbrev pub IsZero : Words → Type 0
IsZero w = (w.a ≡ 0) × (w.b ≡ 0) × (w.c ≡ 0) × (w.d ≡ 0)

-- Words of 32 bits that are not all zero.
pub record IsLive (w : Words) : Type 0 where
  pub wide : IsWide w
  pub some_one : ¬ (IsZero w)

step-IsWide : (w : Words) → IsWide (step w)
unfolding step
step-IsWide w = (
  xor_small w.a (xor w.d w.b),
  xor_small w.b (xor w.c w.a),
  xor_small (xor w.c w.a) (shift_left w.b 9),
  rotl_small (xor w.d w.b) 11,
)

-- Only zeros become zeros.
step-IsZero : (w : Words) → IsWide w → IsZero (step w) → IsZero w
unfolding step
step-IsZero w (wa, wb, wc, wd) (za, zb, zc, zd) =
    let d_is_b = rotl_zero (xor w.d w.b) (xor_small w.d w.b) zd in
    let same_d : w.d ≡ w.b = xor_zero w.d w.b wd wb d_is_b in
    let a_is : w.a ≡ xor w.d w.b = xor_zero w.a _ wa (xor_small w.d w.b) za in
    let b_is : w.b ≡ xor w.c w.a = xor_zero w.b _ wb (xor_small w.c w.a) zb in
    let c_is : xor w.c w.a ≡ shift_left w.b 9 =
      xor_zero _ _ (xor_small w.c w.a) (shift_left_small w.b 9) zc in
    let b_zero : w.b ≡ 0 = shift_left-fixed w.b wb (b_is ∙ c_is) in
    let a_zero : w.a ≡ 0 = a_is ∙ d_is_b in
    let same_c : w.c ≡ w.a = xor_zero w.c w.a wc wa (sym b_is ∙ b_zero) in
    (a_zero, b_zero, same_c ∙ a_zero, same_d ∙ b_zero)

pub step-IsLive : (w : Words) → IsLive w → IsLive (step w)
step-IsLive w live = record {
  wide = step-IsWide w;
  some_one = λ zero_all. live.some_one (step-IsZero w live.wide zero_all);
}

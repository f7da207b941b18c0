-- ===== src/DataLab/Integers.antt =====
-- The integer puzzles of bits.c against tests.c.
use csapp_3e_study.Base.{
  ℕ, zero, suc, ◌-◌, ◌/◌, ◌^◌, ◌<◌, ◌≡◌, refl, ap₂, ◌∙◌, arith, ◌==◌, bit_and, false,
}
use csapp_3e_study.Base.{bit_xor as xor_of}
use native.Mathlib.Nat.{pow-suc}
use csapp_3e_study.Base.Words.{bit_xor-lt, bit_and-half, bit_and-le}
use csapp_3e_study.DataLab.{modulus, top_bit, inverted, not_int, add32, left, sign_mask}
use csapp_3e_study.DataLab.Puzzles.{
  all_odd_bits, bit_xor, tmin, is_tmax, negate, is_ascii_digit, conditional, is_less_or_equal,
  logical_neg,
}
use csapp_3e_study.DataLab.Answers.{
  test_all_odd_bits, test_bit_xor, test_tmin, test_is_tmax, test_negate, test_is_ascii_digit,
  test_conditional, test_is_less_or_equal, test_logical_neg,
}
use csapp_3e_study.DataLab.OddBits.{all_odd_bits_lem}
use csapp_3e_study.DataLab.Masks.{
  bit_and-bits, bit_and-ones, bit_and-zero, sign_mask_lem, bit_xor-bits, bit_xor-step,
  bit_and-sign_mask, bit_and-unsigned, bit_or-sign_masks, bit_xor-zero, bit_xor-all,
  bit_xor-inverted,
}

module _ (x : ℕ) (h : x < modulus) where
  negate_lem : negate x ≡ test_negate x
  unfolding negate test_negate
  negate_lem = omega arith

  is_tmax_lem : is_tmax x ≡ test_is_tmax x
  unfolding is_tmax test_is_tmax
  is_tmax_lem =
      let y = add32 x 1 in
      let nn = not_int (not_int (inverted x)) in
      let nx = not_int (inverted (xor_of x y)) in
      ground (
        arith,
        bit_and-bits nn nx (ground arith) (ground arith),
        bit_xor-lt 32 x y h (omega arith),
        bit_xor-all 32 x y h (omega arith),
        bit_xor-inverted 32 x y,
      )

  logical_neg_lem : logical_neg x ≡ test_logical_neg x
  unfolding logical_neg test_logical_neg
  logical_neg_lem =
      let a = bit_and (inverted (sign_mask x)) x in
      let b = bit_and (sign_mask x) (left 1 31) in
      ground (
        arith,
        bit_and-unsigned x x h h,
        bit_and-sign_mask x top_bit h (omega arith),
        bit_and-sign_mask (add32 (inverted 0) (add32 a b)) 1 (omega arith) (omega arith),
      )

  is_ascii_digit_lem : is_ascii_digit x ≡ test_is_ascii_digit x
  unfolding is_ascii_digit test_is_ascii_digit
  is_ascii_digit_lem =
      let isunder = add32 0x39 (add32 (inverted x) 1) in
      let isupper = add32 x (add32 (inverted 0x30) 1) in
      ground (arith, bit_or-sign_masks isunder isupper (omega arith) (omega arith))

bits-lt : (a : ℕ) → not_int a < 2
bits-lt a = ground arith

is_less_or_equal_lem :
    (x y : ℕ) → x < modulus → y < modulus → is_less_or_equal x y ≡ test_is_less_or_equal x y
unfolding is_less_or_equal test_is_less_or_equal
is_less_or_equal_lem x y hx hy =
    let xpos = not_int (sign_mask x) in
    let ypos = not_int (sign_mask y) in
    let negx = add32 (inverted x) 1 in
    let sgn = sign_mask (add32 y negx) in
    let x_intmin = bit_and (not_int (not_int x)) (not_int (xor_of negx x)) in
    let x_onlyneg = bit_and (not_int xpos) ypos in
    let same_sgn = bit_and (not_int (xor_of xpos ypos)) (not_int sgn) in
    ground (
      arith,
      sign_mask_lem x hx,
      sign_mask_lem y hy,
      bit_and-bits (not_int (not_int x)) (not_int (xor_of negx x)) (ground arith) (ground arith),
      bit_and-bits (not_int xpos) ypos (ground arith) (ground arith),
      bit_xor-bits xpos ypos (ground arith) (ground arith),
      bit_and-bits (not_int (xor_of xpos ypos)) (not_int sgn) (ground arith) (ground arith),
      bit_xor-zero 32 negx x (omega arith) hx,
    )

conditional_lem :
    (x y z : ℕ) → y < modulus → z < modulus → conditional x y z ≡ test_conditional x y z
unfolding conditional test_conditional
conditional_lem zero y z hy hz = omega (arith, bit_and-ones z hz, bit_and-zero y)
conditional_lem (suc x) y z hy hz =
    let c : (suc x == 0) ≡ false = ground arith in
    rw c (omega (arith, bit_and-zero z, bit_and-ones y hy))

-- The puzzle on numbers of `k` bits.
xor_bits :
    (k x y : ℕ)
    → x < 2 ^ k
    → y < 2 ^ k
    → bit_and (2 ^ k - 1 - bit_and x y) (2 ^ k - 1 - bit_and (2 ^ k - 1 - x) (2 ^ k - 1 - y))
      ≡ xor_of x y
xor_bits zero zero zero p q = refl
xor_bits zero (suc x) y p q = absurd (omega arith)
xor_bits zero zero (suc y) p q = absurd (omega arith)
xor_bits (suc k) x y p q =
    let e = pow-suc 2 k in
    let m = 2 ^ suc k - 1 in
    let n = 2 ^ k - 1 in
    let a = bit_and x y in
    let b = bit_and (m - x) (m - y) in
    let hx : (m - x) / 2 ≡ n - x / 2 = omega (arith, e) in
    let hy : (m - y) / 2 ≡ n - y / 2 = omega (arith, e) in
    let sa = bit_and-half x y in
    let sb = bit_and-half (m - x) (m - y) in
    let eb = ap₂ bit_and hx hy in
    let la = bit_and-le (x / 2) (x / 2) (y / 2) (omega arith) in
    let lb = bit_and-le (n - x / 2) (n - x / 2) (n - y / 2) (omega arith) in
    let ha : (m - a) / 2 ≡ n - bit_and (x / 2) (y / 2) = omega (arith, sa, la, e) in
    let hb : (m - b) / 2 ≡ n - bit_and (n - x / 2) (n - y / 2) = omega (arith, sb, eb, lb, e) in
    let ih = xor_bits k (x / 2) (y / 2) (omega (arith, e)) (omega (arith, e)) in
    let rest = ap₂ bit_and ha hb ∙ ih in
    ground (arith, e, sa, sb, rest, bit_and-half (m - a) (m - b), bit_xor-step x y)

-- On 32-bit patterns each of these puzzles of bits.c returns what tests.c compares it with.
pub puzzles_lem :
    (x y z : ℕ)
    → x < modulus
    → y < modulus
    → z < modulus
    → (bit_xor x y ≡ test_bit_xor x y)
      × (tmin ≡ test_tmin)
      × (is_tmax x ≡ test_is_tmax x)
      × (all_odd_bits x ≡ test_all_odd_bits x)
      × (negate x ≡ test_negate x)
      × (is_ascii_digit x ≡ test_is_ascii_digit x)
      × (conditional x y z ≡ test_conditional x y z)
      × (is_less_or_equal x y ≡ test_is_less_or_equal x y)
      × (logical_neg x ≡ test_logical_neg x)
unfolding bit_xor test_bit_xor tmin test_tmin
puzzles_lem x y z hx hy hz = (
  xor_bits 32 x y hx hy,
  refl,
  is_tmax_lem x hx,
  all_odd_bits_lem x hx,
  negate_lem x hx,
  is_ascii_digit_lem x hx,
  conditional_lem x y z hy hz,
  is_less_or_equal_lem x y hx hy,
  logical_neg_lem x hx,
)

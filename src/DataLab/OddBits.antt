-- ===== src/DataLab/OddBits.antt =====
-- `allOddBits` of bits.c against the loop of tests.c.
use csapp_3e_study.Base.{
  ℕ, zero, suc, ◌+◌, ◌*◌, ◌/◌, ◌%◌, ◌^◌, ◌≤◌, ◌<◌, ◌≡◌, refl, ap, ap₂, ◌∙◌, sym, arith, Bool, true,
  ◌&&◌, ◌==◌, bit_and, bit_or,
}
use native.Mathlib.Nat.{pow-suc, pow-le-pow_right}
use csapp_3e_study.Base.Words.{bit_and-half, bit_or-half, bit_and-le}
use csapp_3e_study.DataLab.{modulus, left}
use csapp_3e_study.DataLab.Puzzles.{all_odd_bits}
use csapp_3e_study.DataLab.Answers.{test_odd_loop, test_all_odd_bits, int_of}

-- The odd bits of the `n` lowest pairs.
odd_bits : ℕ → ℕ → Bool
odd_bits zero x = true
odd_bits (suc n) x = x / 2 % 2 == 1 && odd_bits n (x / 4)

-- The even bits of as many pairs.
evens : ℕ → ℕ
evens zero = 0
evens (suc n) = evens n * 4 + 1

no_bits : (n x : ℕ) → x ≤ n → bit_and x 0 ≡ 0
no_bits zero x h = omega (arith, bit_and-le 0 x 0 h)
no_bits (suc n) zero h = omega (arith, bit_and-le 0 0 0)
no_bits (suc n) (suc x) h =
    omega (arith, bit_and-half (suc x) 0, no_bits n (suc x / 2) (omega arith))

lowest_bit : (x : ℕ) → bit_and x 1 ≡ x % 2
lowest_bit x = omega (arith, bit_and-half x 1, no_bits x (x / 2) (omega arith))

next_bit : (i x : ℕ) → bit_and x (2 ^ suc i) ≡ bit_and (x / 2) (2 ^ i) * 2
next_bit i x =
    let e : 2 ^ suc i / 2 ≡ 2 ^ i = omega (arith, pow-suc 2 i) in
    omega (arith, bit_and-half x (2 ^ suc i), ap (bit_and (x / 2)) e, pow-suc 2 i)

next_pair : (i x : ℕ) → bit_and x (2 ^ suc (suc i)) ≡ bit_and (x / 4) (2 ^ i) * 4
next_pair i x =
    let e : x / 2 / 2 ≡ x / 4 = omega arith in
    omega (arith, next_bit (suc i) x, next_bit i (x / 2), ap (λ t. bit_and t (2 ^ i)) e)

left_one : (i : ℕ) → i < 32 → left 1 i ≡ 2 ^ i
left_one i h = omega (arith, pow-le-pow_right {n = 2} (omega arith) {i = i} {j = 31} (omega arith))

-- The loop from two bits above on is that for the number without its lowest pair.
shifted_loop : (n i x : ℕ) → i + 2 * n ≤ 31 → test_odd_loop n (i + 2) x ≡ test_odd_loop n i (x / 4)
unfolding test_odd_loop
shifted_loop zero i x h = refl
shifted_loop (suc n) i x h =
    let two : i + 2 ≡ suc (suc i) = omega arith in
    let here : bit_and x (left 1 (i + 2)) ≡ bit_and (x / 4) (left 1 i) * 4 =
      ap (bit_and x) (left_one (i + 2) (omega arith) ∙ ap (λ (t : ℕ). 2 ^ t) two)
      ∙ next_pair i x
      ∙ ap (λ t. bit_and (x / 4) t * 4) (sym (left_one i (omega arith))) in
    ground (arith, here, shifted_loop n (i + 2) x (omega arith))

loop_odd : (n x : ℕ) → n ≤ 16 → test_odd_loop n 1 x ≡ int_of (odd_bits n x)
unfolding test_odd_loop odd_bits
loop_odd zero x h = refl
loop_odd (suc n) x h =
    let here : bit_and x 2 ≡ x / 2 % 2 * 2 = omega (arith, next_bit 0 x, lowest_bit (x / 2)) in
    ground (arith, here, shifted_loop n 1 x (omega arith), loop_odd n (x / 4) (omega arith))

-- The even bits joined with a number: one bit and one pair of it, and all of it.
or_pair : (n x : ℕ) → bit_or (evens (suc n)) x ≡ bit_or (evens n) (x / 4) * 4 + x / 2 % 2 * 2 + 1
unfolding evens
or_pair n x =
    let e1 : evens (suc n) / 2 ≡ evens n * 2 = omega arith in
    let e2 : evens n * 2 / 2 ≡ evens n = omega arith in
    let e3 : x / 2 / 2 ≡ x / 4 = omega arith in
    omega (
      arith,
      bit_or-half (evens (suc n)) x,
      ap (λ t. bit_or t (x / 2)) e1,
      bit_or-half (evens n * 2) (x / 2),
      ap₂ bit_or e2 e3,
    )

or_odd :
    (n x : ℕ)
    → x < 4 ^ n
    → (bit_or (evens n) x < 4 ^ n) × ((bit_or (evens n) x + 1 == 4 ^ n) ≡ odd_bits n x)
unfolding evens odd_bits
or_odd zero zero h = (omega arith, refl)
or_odd zero (suc x) h = absurd (omega arith)
or_odd (suc n) x h =
    let (a, b) = or_odd n (x / 4) (omega (arith, pow-suc 4 n)) in
    (omega (arith, or_pair n x, pow-suc 4 n, a), ground (arith, or_pair n x, pow-suc 4 n, b))

pub all_odd_bits_lem : (x : ℕ) → x < modulus → all_odd_bits x ≡ test_all_odd_bits x
unfolding all_odd_bits test_all_odd_bits evens
all_odd_bits_lem x h =
    let (a, b) = or_odd 16 x h in ground (arith, a, b, loop_odd 16 x (omega arith))

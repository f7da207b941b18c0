-- ===== src/DataLab/Powers.antt =====
-- `floatPower2` of bits.c.
use csapp_3e_study.Base.{
  ℕ, suc, ◌+◌, ◌-◌, ◌^◌, ◌≤◌, ◌<◌, ◌≡◌, ◌≢◌, refl, ap, subst, ◌∙◌, sym, arith, ◌⊎◌, inl, inr,
  dec_lt, ℕ_discrete,
}
use native.Mathlib.Nat.{pow-le-pow_right}
use csapp_3e_study.DataLab.{modulus, top_bit, add32, sub32, left}
use csapp_3e_study.DataLab.Puzzles.{float_power2}
use csapp_3e_study.DataLab.Floats.{pattern, Finite, pow_sum}

-- 2 raised to the power `j - 149`, as a pattern without a sign.
abbrev pub IsPower : ℕ → ℕ → Type 0
IsPower result j = Finite result 0 (2 ^ j)

small_power : (j : ℕ) → j < 22 → 2 ^ j < 2 ^ 22
small_power j h =
    omega (arith, pow-le-pow_right {n = 2} (omega arith) {i = j} {j = 21} (omega arith))

left_one : (n j : ℕ) → n ≡ j → j < 22 → left 1 n ≡ 2 ^ j
left_one n j e h = subst (λ k. left 1 n ≡ 2 ^ k) e (omega (arith, small_power n (omega arith)))

-- The branches of `floatPower2` between its two limits.
between_limits :
    (x j : ℕ)
    → j < 277
    → x ≡ sub32 j 149
    → ((j ≡ 22) × (float_power2 x ≡ 0)) ⊎ ((j ≢ 22) × IsPower (float_power2 x) j)
unfolding float_power2
between_limits x j h e = elim (dec_lt j 22) [
  | yes p ↦
      let n = add32 22 (add32 x 127) in
      inr (
        omega arith,
        (
          0,
          2 ^ j,
          ground (arith, left_one n j (omega arith) p),
          omega arith,
          omega (arith, small_power j p),
          refl,
        ),
      )
  | no p ↦ elim (ℕ_discrete j 22) [
    | yes q ↦ inl (q, ground arith)
    | no q ↦
        let sum : 23 + (j - 23) ≡ j = omega arith in
        inr (
          q,
          (
            suc (j - 23),
            0,
            ground arith,
            omega arith,
            omega arith,
            sym (pow_sum 23 (j - 23)) ∙ ap (λ (t : ℕ). 2 ^ t) sum,
          ),
        )
  ]
]

-- `floatPower2` at a 32-bit `int`: above 127 it returns the pattern of infinity, and below -149 it
-- returns 0. At `j - 149` it returns the pattern of 2 raised to that power, but for -127, where it
-- returns 0.
pub float_power2_lem :
    (x : ℕ)
    → x < modulus
    → ((127 < x) × (x < top_bit) × (float_power2 x ≡ pattern 0 255 0))
      ⊎ ((top_bit ≤ x) × (x < modulus - 149) × (float_power2 x ≡ 0))
      ⊎ ((j : ℕ) × (j < 277)
          × (x ≡ sub32 j 149)
          × (((j ≡ 22) × (float_power2 x ≡ 0)) ⊎ ((j ≢ 22) × IsPower (float_power2 x) j)))
unfolding float_power2
float_power2_lem x h = elim (dec_lt x top_bit) [
  | yes p ↦ elim (dec_lt 127 x) [
    | yes q ↦ inl (q, p, ground arith)
    | no q ↦ inr (
        inr (
          x + 149,
          omega arith,
          omega arith,
          between_limits x (x + 149) (omega arith) (omega arith),
        ))
  ]
  | no p ↦ elim (dec_lt x (modulus - 149)) [
    | yes q ↦ inr (inl (omega arith, q, ground arith))
    | no q ↦ inr (
        inr (
          x + 149 - modulus,
          omega arith,
          omega arith,
          between_limits x (x + 149 - modulus) (omega arith) (omega arith),
        ))
  ]
]

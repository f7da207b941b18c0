-- ===== src/DataLab/Truncation.antt =====
-- `floatFloat2Int` of bits.c.
use csapp_3e_study.Base.{
  ℕ, zero, suc, ◌+◌, ◌-◌, ◌*◌, ◌/◌, ◌^◌, ◌≤◌, ◌<◌, ◌≡◌, refl, ap, subst, ◌∙◌, arith, ltb, leb,
  if◌then◌else◌, ◌⊎◌, inl, inr, dec_lt, dec_le, some, none, ◌||◌,
}
use native.Mathlib.Nat.{mul-div-mul_right, one-le-pow, pow-le-pow_right, div-eq_of_lt}
use csapp_3e_study.DataLab.{add32, sub32}
use csapp_3e_study.DataLab.Puzzles.{exp_one, shift_right, negate_if, signed_result, float_float2int}
use csapp_3e_study.DataLab.Floats.{pattern, magnitude, sign_of, exponent_of, fraction_of, pow_sum}

-- A shift by 150 less the exponent is a division of the number by 2 ^ 149.
whole_part : (e f : ℕ) → e < 150 → magnitude (suc e) f / 2 ^ 149 ≡ (2 ^ 23 + f) / 2 ^ (149 - e)
whole_part e f h =
    ap (λ t. (2 ^ 23 + f) * 2 ^ e / t) power
    ∙ mul-div-mul_right (2 ^ 23 + f) (2 ^ (149 - e)) (one-le-pow e 2 (omega arith))
  where
    power : 2 ^ 149 ≡ 2 ^ (149 - e) * 2 ^ e
    power =
        let sum : 149 ≡ 149 - e + e = omega arith in ap (λ (t : ℕ). 2 ^ t) sum ∙ pow_sum (149 - e) e

small_part : (e f : ℕ) → suc e < 127 → f < 2 ^ 23 → magnitude (suc e) f / 2 ^ 149 ≡ 0
small_part e f h hf =
    whole_part e f (omega arith)
    ∙ div-eq_of_lt
        (omega (arith, pow-le-pow_right {n = 2} (omega arith) {i = 24} {j = 149 - e} (omega arith)))

none_whole : (e f : ℕ) → e < 127 → f < 2 ^ 23 → magnitude e f / 2 ^ 149 ≡ 0
none_whole zero f h hf = omega arith
none_whole (suc e) f h hf = small_part e f h hf

some_whole : (e f : ℕ) → 1 ≤ e → e ≤ 150 → magnitude e f / 2 ^ 149 ≡ (2 ^ 23 + f) / 2 ^ (150 - e)
some_whole zero f l h = absurd (omega arith)
some_whole (suc e) f l h =
    let same : 149 - e ≡ 150 - suc e = omega arith in
    whole_part e f (omega arith) ∙ ap (λ k. (2 ^ 23 + f) / 2 ^ k) same

shift_right-in : (x k j : ℕ) → k ≡ j → k < 32 → shift_right x k ≡ some (x / 2 ^ j)
unfolding shift_right
shift_right-in x k j e h = subst (λ n. shift_right x k ≡ some (x / 2 ^ n)) e (ground arith)

shift_right-out : (x k : ℕ) → 32 ≤ k → shift_right x k ≡ none
unfolding shift_right
shift_right-out x k h = ground arith

float2int_at :
    (s e f : ℕ)
    → s < 2
    → e < 256
    → f < 2 ^ 23
    → float_float2int (pattern s e f) ≡ (
        if ltb 0xcf000000 (pattern s e f) || leb 0x4f000000 (e * 2 ^ 23 + f)
        then some 0x80000000
        else if ltb (e * 2 ^ 23 + f) 0x3f800000
        then some 0
        else signed_result (s * 2 ^ 31) (shift_right (2 ^ 23 + f) (sub32 23 (sub32 e 127))))
unfolding float_float2int
float2int_at s e f hs he hf =
    let puf : sub32 (pattern s e f) (s * 2 ^ 31) ≡ e * 2 ^ 23 + f = omega arith in
    let fraction : add32 f exp_one ≡ 2 ^ 23 + f = omega arith in
    let exponent : e * 2 ^ 23 / 2 ^ 23 ≡ e = omega arith in
    rw
      (
        sign_of s e f hs he hf,
        exponent_of s e f hs he hf,
        fraction_of s e f hs he hf,
        puf,
        fraction,
        exponent,
      )
      refl

-- `floatFloat2Int` on the pattern of a sign, an exponent and a fraction: for an exponent of at most
-- 150 it returns the whole part of the number, negated if the sign is set; from 151 to 157 the shift
-- that it makes is undefined; and above it returns 0x80000000.
pub float_float2int_lem :
    (s e f : ℕ)
    → s < 2
    → e < 256
    → f < 2 ^ 23
    → let result = float_float2int (pattern s e f) in
      ((e ≤ 150) × (result ≡ some (negate_if s (magnitude e f / 2 ^ 149))))
      ⊎ ((151 ≤ e) × (e ≤ 157) × (result ≡ none))
      ⊎ ((158 ≤ e) × (result ≡ some 0x80000000))
float_float2int_lem s e f hs he hf = elim (dec_lt e 127) [
  | yes p ↦ inl (omega arith, ground (arith, float2int_at s e f hs he hf, none_whole e f p hf))
  | no p ↦ elim (dec_le e 150) [
    | yes q ↦ inl (
      q,
      ground (
        arith,
        float2int_at s e f hs he hf,
        shift_right-in (2 ^ 23 + f) (sub32 23 (sub32 e 127)) (150 - e) (omega arith) (omega arith),
        some_whole e f (omega arith) q,
      ),
    )
    | no q ↦ elim (dec_le e 157) [
      | yes r ↦ inr (
          inl (
            omega arith,
            r,
            ground (
              arith,
              float2int_at s e f hs he hf,
              shift_right-out (2 ^ 23 + f) (sub32 23 (sub32 e 127)) (omega arith),
            ),
          ))
      | no r ↦ inr (inr (omega arith, ground (arith, float2int_at s e f hs he hf)))
    ]
  ]
]

-- ===== src/DataLab/Floats.antt =====
-- The floating-point puzzles of bits.c: a pattern of a sign, an exponent and a fraction, and the
-- number that it stands for.
use csapp_3e_study.Base.{
  ℕ, zero, suc, ◌+◌, ◌-◌, ◌*◌, ◌^◌, ◌<◌, ◌≡◌, refl, ap, ◌∙◌, arith, ◌==◌, if◌then◌else◌, bit_and,
  ◌⊎◌, inl, inr, dec_lt, ℕ_discrete, not,
}
use native.Mathlib.Nat.{pow-suc}
use csapp_3e_study.DataLab.{top_bit, add32, sub32, left}
use csapp_3e_study.DataLab.Puzzles.{exp_bits, exp_one, scaled_denormal, float_scale2}
use csapp_3e_study.DataLab.Masks.{bit_and-low, bit_and-shifted, bit_and-bits}

abbrev pub pattern : ℕ → ℕ → ℕ → ℕ
pattern sign exponent fraction = sign * 2 ^ 31 + exponent * 2 ^ 23 + fraction

-- The number that a finite pattern stands for, without its sign, as a multiple of 2 ^ -149.
abbrev pub magnitude : ℕ → ℕ → ℕ
magnitude zero fraction = fraction
magnitude (suc e) fraction = (2 ^ 23 + fraction) * 2 ^ e

module _ (s e f : ℕ) (hs : s < 2) (he : e < 256) (hf : f < 2 ^ 23) where
  pub sign_of : bit_and top_bit (pattern s e f) ≡ s * 2 ^ 31
  sign_of =
      let one : bit_and 1 s ≡ s = omega (arith, bit_and-bits 1 s (omega arith) hs) in
      let at : pattern s e f ≡ s * 2 ^ 31 + (e * 2 ^ 23 + f) = omega arith in
      ap (bit_and top_bit) at
      ∙ bit_and-shifted 31 1 s (e * 2 ^ 23 + f) (omega arith)
      ∙ ap (λ t. t * 2 ^ 31) one

  pub exponent_of : bit_and exp_bits (pattern s e f) ≡ e * 2 ^ 23
  exponent_of =
      let at : pattern s e f ≡ (s * 256 + e) * 2 ^ 23 + f = omega arith in
      ap (bit_and exp_bits) at
      ∙ bit_and-shifted 23 255 (s * 256 + e) f hf
      ∙ ap (λ t. t * 2 ^ 23) (bit_and-low 8 s e he)

  -- The fraction that is left once the exponent and the sign are taken off.
  pub fraction_of : sub32 (sub32 (pattern s e f) (e * 2 ^ 23)) (s * 2 ^ 31) ≡ f
  fraction_of = omega arith

pub doubled : (x k : ℕ) → x * 2 ^ suc k ≡ 2 * (x * 2 ^ k)
doubled x k = omega (arith, ap (λ (t : ℕ). x * t) (pow-suc 2 k))

-- A finite pattern for a number.
abbrev pub Finite : ℕ → ℕ → ℕ → Type 0
Finite result s n =
    (e : ℕ) × (f : ℕ) × (result ≡ pattern s e f) × (e < 255) × (f < 2 ^ 23) × (magnitude e f ≡ n)

scaled_denormal_lem :
    (s f : ℕ) → s < 2 → f < 2 ^ 23 → Finite (scaled_denormal (s * 2 ^ 31) (left f 1)) s (2 * f)
unfolding scaled_denormal
scaled_denormal_lem s f hs hf = elim (dec_lt f (2 ^ 22)) [
  | yes p ↦
      let e : bit_and exp_bits (left f 1) ≡ 0 =
        let at : left f 1 ≡ pattern 0 0 (2 * f) = omega arith in
        ap (bit_and exp_bits) at
        ∙ exponent_of 0 0 (2 * f) (omega arith) (omega arith) (omega arith) in
      (0, 2 * f, ground (arith, e), omega arith, omega arith, refl)
  | no p ↦
      let e : bit_and exp_bits (left f 1) ≡ 2 ^ 23 =
        let at : left f 1 ≡ pattern 0 1 (2 * f - 2 ^ 23) = omega arith in
        ap (bit_and exp_bits) at
        ∙ exponent_of 0 1 (2 * f - 2 ^ 23) (omega arith) (omega arith) (omega arith) in
      (1, 2 * f - 2 ^ 23, ground (arith, e), omega arith, omega arith, omega arith)
]

scale2_at :
    (s e f : ℕ)
    → s < 2
    → e < 256
    → f < 2 ^ 23
    → float_scale2 (pattern s e f) ≡ (
        if e * 2 ^ 23 == exp_bits
        then pattern s e f
        else if not (e * 2 ^ 23 == 0)
        then add32 (add32 (s * 2 ^ 31) (add32 (e * 2 ^ 23) exp_one)) f
        else scaled_denormal (s * 2 ^ 31) (left f 1))
unfolding float_scale2
scale2_at s e f hs he hf =
    rw (sign_of s e f hs he hf, exponent_of s e f hs he hf, fraction_of s e f hs he hf) refl

-- `floatScale2` on the pattern of a sign, an exponent and a fraction: an exponent of 255 is returned
-- as it is; one below 254 gives a finite pattern with the same sign for twice the number; and one of
-- 254 gives the exponent 255 with the same fraction.
pub float_scale2_lem :
    (s e f : ℕ)
    → s < 2
    → e < 256
    → f < 2 ^ 23
    → let result = float_scale2 (pattern s e f) in
      ((e ≡ 255) × (result ≡ pattern s e f))
      ⊎ ((e ≡ 254) × (result ≡ pattern s 255 f))
      ⊎ ((e < 254) × Finite result s (2 * magnitude e f))
float_scale2_lem s zero f hs he hf =
    inr (inr (omega arith, rw (scale2_at s 0 f hs he hf) (scaled_denormal_lem s f hs hf)))
float_scale2_lem s (suc e) f hs he hf = elim (ℕ_discrete e 254) [
  | yes p ↦ inl (omega arith, ground (arith, scale2_at s (suc e) f hs he hf))
  | no n ↦ elim (ℕ_discrete e 253) [
    | yes p ↦ inr (inl (omega arith, ground (arith, scale2_at s (suc e) f hs he hf)))
    | no m ↦ inr (
        inr (
          omega arith,
          (
            suc (suc e),
            f,
            ground (arith, scale2_at s (suc e) f hs he hf),
            omega arith,
            hf,
            doubled (2 ^ 23 + f) e,
          ),
        ))
  ]
]

pub pow_sum : (d e : ℕ) → 2 ^ (d + e) ≡ 2 ^ d * 2 ^ e
pow_sum d zero = let same : d + 0 ≡ d = omega arith in ap (λ (t : ℕ). 2 ^ t) same ∙ omega arith
pow_sum d (suc e) =
    let next : d + suc e ≡ suc (d + e) = omega arith in
    ap (λ (t : ℕ). 2 ^ t) next ∙ omega (arith, pow-suc 2 (d + e), pow_sum d e, doubled (2 ^ d) e)

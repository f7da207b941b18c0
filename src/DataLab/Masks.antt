-- ===== src/DataLab/Masks.antt =====
-- Bit operations with masks, as arithmetic.
use csapp_3e_study.Base.{
  ℕ, zero, suc, ◌+◌, ◌-◌, ◌*◌, ◌/◌, ◌%◌, ◌^◌, ◌<◌, min, max, ◌≡◌, refl, ap, ap₂, ◌∙◌, arith, ltb,
  ◌==◌, dec_lt, Bool, true, false, ◌&&◌, if◌then◌else◌, bit_and, bit_or, bit_xor,
}
use Prim.Native.Nat.{differ}
use native.Mathlib.Nat.{pow-suc}
use csapp_3e_study.Base.Words.{bit_and-le, bit_and-half, bit_xor-half}
use csapp_3e_study.DataLab.{modulus, ones, top_bit, sign_mask}

-- `x * 2 ^ (k + 1)` as a double.
doubled : (x k : ℕ) → x * 2 ^ suc k ≡ 2 * (x * 2 ^ k)
doubled x k = omega (arith, ap (λ (t : ℕ). x * t) (pow-suc 2 k))

-- A mask of the low `n` bits.
pub bit_and-low : (n h l : ℕ) → l < 2 ^ n → bit_and (2 ^ n - 1) (h * 2 ^ n + l) ≡ l
bit_and-low zero h l p = omega (arith, bit_and-le 0 0 (h * 1 + l))
bit_and-low (suc n) h l p =
    let e = pow-suc 2 n in
    let u = h * 2 ^ suc n + l in
    let half : u / 2 ≡ h * 2 ^ n + l / 2 = omega (arith, doubled h n) in
    let mask : (2 ^ suc n - 1) / 2 ≡ 2 ^ n - 1 = omega (arith, e) in
    let step = bit_and-half (2 ^ suc n - 1) u in
    let rest : bit_and ((2 ^ suc n - 1) / 2) (u / 2) ≡ l / 2 =
      ap₂ bit_and mask half ∙ bit_and-low n h (l / 2) (omega (arith, e)) in
    omega (arith, step, rest, e, doubled h n)

-- A mask that is shifted left.
pub bit_and-shifted :
    (k a h l : ℕ) → l < 2 ^ k → bit_and (a * 2 ^ k) (h * 2 ^ k + l) ≡ bit_and a h * 2 ^ k
bit_and-shifted zero a h l p =
    let one : (x : ℕ) → x * 1 ≡ x = λ x. omega arith in
    let sum : h * 1 + l ≡ h = omega arith in ap₂ bit_and (one a) sum ∙ omega arith
bit_and-shifted (suc k) a h l p =
    let u = h * 2 ^ suc k + l in
    let half : u / 2 ≡ h * 2 ^ k + l / 2 = omega (arith, doubled h k) in
    let mask : a * 2 ^ suc k / 2 ≡ a * 2 ^ k = omega (arith, doubled a k) in
    let rest : bit_and (a * 2 ^ suc k / 2) (u / 2) ≡ bit_and a h * 2 ^ k =
      ap₂ bit_and mask half ∙ bit_and-shifted k a h (l / 2) (omega (arith, pow-suc 2 k)) in
    omega (arith, bit_and-half (a * 2 ^ suc k) u, rest, doubled a k, doubled (bit_and a h) k)

pub sign_mask_lem : (x : ℕ) → x < modulus → sign_mask x ≡ (if ltb x top_bit then 0 else ones)
sign_mask_lem x h = ground arith

-- Two values of one bit.
pub bit_and-bits : (a b : ℕ) → a < 2 → b < 2 → bit_and a b ≡ min a b
bit_and-bits zero b p q = omega (arith, bit_and-le 0 0 b)
bit_and-bits (suc zero) zero p q = refl
bit_and-bits (suc zero) (suc zero) p q = refl
bit_and-bits a b p q = absurd (omega arith)

pub bit_or-bits : (a b : ℕ) → a < 2 → b < 2 → bit_or a b ≡ max a b
bit_or-bits zero zero p q = refl
bit_or-bits zero (suc zero) p q = refl
bit_or-bits (suc zero) zero p q = refl
bit_or-bits (suc zero) (suc zero) p q = refl
bit_or-bits a b p q = absurd (omega arith)

-- Numbers of `k` bits.
pub bit_and-ones : (x : ℕ) → x < modulus → bit_and ones x ≡ x
bit_and-ones x h = let sum : x ≡ 0 + x = omega arith in ap (bit_and ones) sum ∙ bit_and-low 32 0 x h

pub bit_and-zero : (x : ℕ) → bit_and 0 x ≡ 0
bit_and-zero x = omega (arith, bit_and-le 0 0 x)

differ-bits : (a b : ℕ) → a < 2 → b < 2 → differ a b ≡ (if a == b then 0 else 1)
differ-bits zero zero p q = refl
differ-bits zero (suc zero) p q = refl
differ-bits (suc zero) zero p q = refl
differ-bits (suc zero) (suc zero) p q = refl
differ-bits a b p q = absurd (omega arith)

-- One bit of an exclusive or, and the rest.
pub bit_xor-step :
    (a b : ℕ) → bit_xor a b ≡ bit_xor (a / 2) (b / 2) * 2 + (if a % 2 == b % 2 then 0 else 1)
bit_xor-step a b =
    bit_xor-half a b
    ∙ ap (λ t. bit_xor (a / 2) (b / 2) * 2 + t)
        (differ-bits (a % 2) (b % 2) (omega arith) (omega arith))

pub bit_xor_self : (k a : ℕ) → a < 2 ^ k → bit_xor a a ≡ 0
bit_xor_self zero zero p = refl
bit_xor_self zero (suc a) p = absurd (omega arith)
bit_xor_self (suc k) a p =
    ground (arith, bit_xor-step a a, bit_xor_self k (a / 2) (omega (arith, pow-suc 2 k)))

pub bit_xor-zero : (k a b : ℕ) → a < 2 ^ k → b < 2 ^ k → bit_xor a b ≡ 0 → a ≡ b
bit_xor-zero zero a b p q e = omega arith
bit_xor-zero (suc k) a b p q e =
    let r : bit_xor (a / 2) (b / 2) ≡ 0 = ground (arith, bit_xor-step a b) in
    ground (
      arith,
      bit_xor-step a b,
      bit_xor-zero k (a / 2) (b / 2) (omega (arith, pow-suc 2 k)) (omega (arith, pow-suc 2 k)) r,
    )

-- All bits of two numbers differ exactly where one is the other inverted.
pub bit_xor-all : (k a b : ℕ) → a < 2 ^ k → b < 2 ^ k → bit_xor a b + 1 ≡ 2 ^ k → a + b + 1 ≡ 2 ^ k
bit_xor-all zero a b p q e = omega arith
bit_xor-all (suc k) a b p q e =
    let r : bit_xor (a / 2) (b / 2) + 1 ≡ 2 ^ k = ground (arith, bit_xor-step a b, pow-suc 2 k) in
    ground (
      arith,
      pow-suc 2 k,
      bit_xor-step a b,
      bit_xor-all k (a / 2) (b / 2) (omega (arith, pow-suc 2 k)) (omega (arith, pow-suc 2 k)) r,
    )

pub bit_xor-inverted : (k a b : ℕ) → a + b + 1 ≡ 2 ^ k → bit_xor a b + 1 ≡ 2 ^ k
bit_xor-inverted zero zero zero e = refl
bit_xor-inverted zero a b e = absurd (omega arith)
bit_xor-inverted (suc k) a b e = ground (
  arith,
  pow-suc 2 k,
  bit_xor-step a b,
  bit_xor-inverted k (a / 2) (b / 2) (omega (arith, pow-suc 2 k)),
)

pub bit_xor-bits : (a b : ℕ) → a < 2 → b < 2 → bit_xor a b ≡ (if a == b then 0 else 1)
bit_xor-bits zero zero p q = refl
bit_xor-bits zero (suc zero) p q = refl
bit_xor-bits (suc zero) zero p q = refl
bit_xor-bits (suc zero) (suc zero) p q = refl
bit_xor-bits a b p q = absurd (omega arith)

-- A sign mask takes all of a number or nothing, and two of them are joined bit by bit.
pub bit_and-sign_mask :
    (s u : ℕ)
    → s < modulus
    → u < modulus
    → bit_and (sign_mask s) u ≡ (if ltb s top_bit then 0 else u)
bit_and-sign_mask s u hs hu = elim (dec_lt s top_bit) [
  | yes p ↦
      let e : sign_mask s ≡ 0 = ground arith in
      ap (λ t. bit_and t u) e ∙ bit_and-zero u ∙ ground arith
  | no p ↦
      let e : sign_mask s ≡ ones = ground arith in
      ap (λ t. bit_and t u) e ∙ bit_and-ones u hu ∙ ground arith
]

pub bit_and-unsigned :
    (s u : ℕ)
    → s < modulus
    → u < modulus
    → bit_and (ones - sign_mask s) u ≡ (if ltb s top_bit then u else 0)
bit_and-unsigned s u hs hu = elim (dec_lt s top_bit) [
  | yes p ↦
      let e : ones - sign_mask s ≡ ones = ground arith in
      ap (λ t. bit_and t u) e ∙ bit_and-ones u hu ∙ ground arith
  | no p ↦
      let e : ones - sign_mask s ≡ 0 = ground arith in
      ap (λ t. bit_and t u) e ∙ bit_and-zero u ∙ ground arith
]

masks_joined :
    (a b : ℕ) (p q : Bool)
    → a ≡ (if p then 0 else ones)
    → b ≡ (if q then 0 else ones)
    → bit_or a b ≡ (if p && q then 0 else ones)
masks_joined a b true true e f = ap₂ bit_or e f
masks_joined a b true false e f = ap₂ bit_or e f
masks_joined a b false true e f = ap₂ bit_or e f
masks_joined a b false false e f = ap₂ bit_or e f

pub bit_or-sign_masks :
    (s t : ℕ)
    → s < modulus
    → t < modulus
    → bit_or (sign_mask s) (sign_mask t) ≡ (if ltb s top_bit && ltb t top_bit then 0 else ones)
bit_or-sign_masks s t hs ht =
    masks_joined _ _ (ltb s top_bit) (ltb t top_bit) (sign_mask_lem s hs) (sign_mask_lem t ht)

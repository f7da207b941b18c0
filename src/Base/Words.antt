-- ===== src/Base/Words.antt =====
-- Machine words as native numbers, and the bit operations on them as arithmetic.
use Prim.Native.Nat.{
  ℕ, zero, suc, ◌+◌, ◌-◌, ◌*◌, ◌/◌, ◌%◌, ◌^◌, ◌≤◌, ◌<◌, min, max, digits, bitwise,
}
use Prim.Native.Nat.{bit_and, bit_or, bit_xor, bit_and-bitwise, bit_or-bitwise, bit_xor-bitwise}
use Prim.Native.Nat.{differ}
use mathlib.Core.Path.{◌≡◌, refl, ap, sym, ◌∙◌}
use native.Mathlib.Decide.{ℕ_discrete}
use native.Mathlib.Nat.{pow-suc}
use native.Mathlib.Omega.{arith}
use csapp_3e_study.Base.Tests.{ltb, if◌then◌else◌}
use csapp_3e_study.Base.Int.{ℤ, pos, negsuc}

-- `word_t` and `uint64_t`: 64 bits, held as the bit pattern.
abbrev pub word_mod : ℕ
word_mod = 2 ^ 64

abbrev pub sign_bit : ℕ
sign_bit = 2 ^ 63

abbrev pub add64 : ℕ → ℕ → ℕ
add64 a b = (a + b) % word_mod

abbrev pub sub64 : ℕ → ℕ → ℕ
sub64 a b = (a + word_mod - b) % word_mod

-- The integer that a bit pattern stands for.
abbrev pub signed : ℕ → ℤ
signed w = if ltb w sign_bit then pos w else negsuc (word_mod - w - 1)

-- One digit to go more than the number can have is one too many.
spare_digit :
    (z : ℕ → ℕ) (f : ℕ → ℕ → ℕ) (n a b : ℕ) → a ≤ n → digits z f (suc n) a b ≡ digits z f n a b
spare_digit z f zero zero b le = refl
spare_digit z f (suc n) zero b le = refl
spare_digit z f zero (suc a) b le = absurd (omega arith)
spare_digit z f (suc n) (suc a) b le =
    ap (λ t. t * 2 + f (suc a % 2) (b % 2)) (spare_digit z f n (suc a / 2) (b / 2) (omega arith))

spare_digits : (z : ℕ → ℕ) (f : ℕ → ℕ → ℕ) (m a b : ℕ) → a ≤ m → digits z f m a b ≡ digits z f a a b
spare_digits z f zero zero b le = refl
spare_digits z f zero (suc a) b le = absurd (omega arith)
spare_digits z f (suc m) a b le = elim (ℕ_discrete a (suc m)) [
  | yes e ↦ ap (λ k. digits z f k a b) (sym e)
  | no n ↦ spare_digit z f m a b (omega arith) ∙ spare_digits z f m a b (omega arith)
]

-- The lowest digit of a bitwise operation, where the first number has one.
lowest_digit :
    (z : ℕ → ℕ) (f : ℕ → ℕ → ℕ) (a b : ℕ)
    → bitwise z f (suc a) b ≡ bitwise z f (suc a / 2) (b / 2) * 2 + f (suc a % 2) (b % 2)
lowest_digit z f a b =
    ap (λ t. t * 2 + f (suc a % 2) (b % 2)) (spare_digits z f a (suc a / 2) (b / 2) (omega arith))

pub bit_or-half : (a b : ℕ) → bit_or a b ≡ bit_or (a / 2) (b / 2) * 2 + max (a % 2) (b % 2)
bit_or-half zero b = simp bit_or-bitwise (omega arith)
bit_or-half (suc a) b = simp bit_or-bitwise (lowest_digit (λ y. y) max a b)

pub bit_and-half : (a b : ℕ) → bit_and a b ≡ bit_and (a / 2) (b / 2) * 2 + min (a % 2) (b % 2)
bit_and-half zero b = simp bit_and-bitwise (omega arith)
bit_and-half (suc a) b = simp bit_and-bitwise (lowest_digit (λ y. 0) min a b)

zero-bit_or : (b : ℕ) → bit_or 0 b ≡ b
zero-bit_or b = simp bit_or-bitwise (omega arith)

-- `v | (b << k)` is a sum where `v` fits below bit `k`.
pub bit_or-shifted : (k v b : ℕ) → v < 2 ^ k → bit_or v (b * 2 ^ k) ≡ v + b * 2 ^ k
bit_or-shifted zero v b h = ground (arith, zero-bit_or b)
bit_or-shifted (suc k) v b h =
    let e : b * 2 ^ suc k ≡ 2 * (b * 2 ^ k) = omega (arith, ap (λ (t : ℕ). b * t) (pow-suc 2 k)) in
    rw e (
      ground (
        arith,
        bit_or-half v (2 * (b * 2 ^ k)),
        bit_or-shifted k (v / 2) b (omega (arith, pow-suc 2 k)),
      ))

-- A conjunction is no larger than either side.
pub bit_and-le : (n a b : ℕ) → a ≤ n → bit_and a b ≤ a
bit_and-le n zero b h = omega (arith, bit_and-bitwise 0 b)
bit_and-le zero (suc a) b h = absurd (omega arith)
bit_and-le (suc n) (suc a) b h =
    omega (arith, bit_and-half (suc a) b, bit_and-le n (suc a / 2) (b / 2) (omega arith))

pub bit_xor-half : (a b : ℕ) → bit_xor a b ≡ bit_xor (a / 2) (b / 2) * 2 + differ (a % 2) (b % 2)
bit_xor-half zero b = simp bit_xor-bitwise (omega arith)
bit_xor-half (suc a) b = simp bit_xor-bitwise (lowest_digit (λ y. y) differ a b)

differ-lt : (a b : ℕ) → a < 2 → b < 2 → differ a b < 2
differ-lt zero b p q = q
differ-lt (suc zero) zero p q = p
differ-lt (suc zero) (suc zero) p q = omega arith
differ-lt a b p q = absurd (omega arith)

zero-bit_xor : (b : ℕ) → bit_xor 0 b ≡ b
zero-bit_xor b = simp bit_xor-bitwise

-- The widths of the results.
pub bit_xor-lt : (k a b : ℕ) → a < 2 ^ k → b < 2 ^ k → bit_xor a b < 2 ^ k
bit_xor-lt zero zero b p q = rw zero-bit_xor q
bit_xor-lt zero (suc a) b p q = absurd (omega arith)
bit_xor-lt (suc k) a b p q = omega (
  arith,
  pow-suc 2 k,
  bit_xor-half a b,
  differ-lt (a % 2) (b % 2) (omega arith) (omega arith),
  bit_xor-lt k (a / 2) (b / 2) (omega (arith, pow-suc 2 k)) (omega (arith, pow-suc 2 k)),
)

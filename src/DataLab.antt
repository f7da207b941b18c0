-- ===== src/DataLab.antt =====
-- labs/01-data: the puzzles of bits.c and what tests.c compares them with. An `int` is its 32-bit
-- pattern, and its arithmetic wraps.
pub mod Puzzles
pub mod Answers
pub mod Masks
pub mod Integers
pub mod OddBits
pub mod Floats
pub mod Truncation
pub mod Powers
mod Tests
use csapp_3e_study.Base.{ℕ, ◌+◌, ◌-◌, ◌*◌, ◌/◌, ◌%◌, ◌^◌, ltb, ◌==◌, if◌then◌else◌}

abbrev pub modulus : ℕ
modulus = 2 ^ 32

abbrev pub ones : ℕ
ones = modulus - 1

abbrev pub top_bit : ℕ
top_bit = 2 ^ 31

-- `~`
abbrev pub inverted : ℕ → ℕ
inverted x = ones - x

-- `!`
abbrev pub not_int : ℕ → ℕ
not_int x = if x == 0 then 1 else 0

abbrev pub add32 : ℕ → ℕ → ℕ
add32 a b = (a + b) % modulus

abbrev pub sub32 : ℕ → ℕ → ℕ
sub32 a b = (a + modulus - b) % modulus

-- `<<`
abbrev pub left : ℕ → ℕ → ℕ
left x k = x * 2 ^ k % modulus

-- `>>` on an `int`, which copies the sign, by 31.
abbrev pub sign_mask : ℕ → ℕ
sign_mask x = x / 2 ^ 31 + (if ltb x top_bit then 0 else (2 ^ 31 - 1) * 2)

-- ===== src/DataLab/Tests.antt =====
-- The puzzles at concrete numbers, and the theorems there.
use csapp_3e_study.Base.{ℕ, ◌-◌, ◌*◌, ◌/◌, ◌^◌, ◌≤◌, ◌<◌, ◌≡◌, ◌≢◌, ◌⊎◌, refl, arith, some, none}
use csapp_3e_study.DataLab.{modulus, top_bit, sub32}
use csapp_3e_study.DataLab.Puzzles.{
  all_odd_bits, bit_xor, tmin, is_tmax, negate, is_ascii_digit, conditional, is_less_or_equal,
  logical_neg, float_scale2, shift_right, negate_if, float_float2int, float_power2,
}
use csapp_3e_study.DataLab.Answers.{
  test_all_odd_bits, test_bit_xor, test_tmin, test_is_tmax, test_negate, test_is_ascii_digit,
  test_conditional, test_is_less_or_equal, test_logical_neg,
}
use csapp_3e_study.DataLab.Integers.{puzzles_lem}
use csapp_3e_study.DataLab.Floats.{pattern, magnitude, Finite, float_scale2_lem}
use csapp_3e_study.DataLab.Truncation.{float_float2int_lem}
use csapp_3e_study.DataLab.Powers.{IsPower, float_power2_lem}

-- The largest finite number twice is not infinity; 2 ^ 24 as an `int` shifts by -1; and 2 ^ -127 is 0.
wrong_answers :
    (float_scale2 0x7f7fffff ≡ 0x7fffffff)
    × (float_float2int 0x4b800000 ≡ none)
    × (float_power2 (2 ^ 32 - 127) ≡ 0)
unfolding float_scale2 float_float2int shift_right float_power2
wrong_answers = (refl, refl, refl)

puzzles_lem_example :
    (bit_xor 4 5 ≡ test_bit_xor 4 5)
    × (tmin ≡ test_tmin)
    × (is_tmax 4 ≡ test_is_tmax 4)
    × (all_odd_bits 4 ≡ test_all_odd_bits 4)
    × (negate 4 ≡ test_negate 4)
    × (is_ascii_digit 4 ≡ test_is_ascii_digit 4)
    × (conditional 4 5 0xffffffff ≡ test_conditional 4 5 0xffffffff)
    × (is_less_or_equal 4 5 ≡ test_is_less_or_equal 4 5)
    × (logical_neg 4 ≡ test_logical_neg 4)
puzzles_lem_example = puzzles_lem 4 5 0xffffffff (omega arith) (omega arith) (omega arith)

-- -1.5
float_scale2_lem_example :
    let result = float_scale2 (pattern 1 127 (2 ^ 22)) in
    (◌≡◌ {A = ℕ} 127 255 × (result ≡ pattern 1 127 (2 ^ 22)))
    ⊎ (◌≡◌ {A = ℕ} 127 254 × (result ≡ pattern 1 255 (2 ^ 22)))
    ⊎ ((127 < 254) × Finite result 1 (2 * magnitude 127 (2 ^ 22)))
float_scale2_lem_example = float_scale2_lem 1 127 (2 ^ 22) (omega arith) (omega arith) (omega arith)

float_float2int_lem_example :
    let result = float_float2int (pattern 1 127 (2 ^ 22)) in
    ((127 ≤ 150) × (result ≡ some (negate_if 1 (magnitude 127 (2 ^ 22) / 2 ^ 149))))
    ⊎ ((151 ≤ 127) × (127 ≤ 157) × (result ≡ none))
    ⊎ ((158 ≤ 127) × (result ≡ some 0x80000000))
float_float2int_lem_example =
    float_float2int_lem 1 127 (2 ^ 22) (omega arith) (omega arith) (omega arith)

float_power2_lem_example :
    ((127 < 3) × (3 < top_bit) × (float_power2 3 ≡ pattern 0 255 0))
    ⊎ ((top_bit ≤ 3) × (3 < modulus - 149) × (float_power2 3 ≡ 0))
    ⊎ ((j : ℕ) × (j < 277)
        × (3 ≡ sub32 j 149)
        × (((j ≡ 22) × (float_power2 3 ≡ 0)) ⊎ ((j ≢ 22) × IsPower (float_power2 3) j)))
float_power2_lem_example = float_power2_lem 3 (omega arith)

-- ===== src/DataLab/Answers.antt =====
-- tests.c, for the integer puzzles: what each of them is to compute.
use csapp_3e_study.Base.{
  zero, suc, ◌+◌, bit_and, ℕ, Bool, true, false, ◌&&◌, ltb, leb, ◌==◌, if◌then◌else◌, bit_xor,
}
use csapp_3e_study.DataLab.{top_bit, not_int, sub32, left}

-- `<=` on an `int`.
abbrev pub int_le : ℕ → ℕ → Bool
int_le x y =
    if ltb x top_bit
    then (if ltb y top_bit then leb x y else false)
    else (if ltb y top_bit then true else leb x y)

-- A comparison as an `int`.
abbrev pub int_of : Bool → ℕ
int_of true = 1
int_of false = 0

unfoldable pub test_bit_xor : ℕ → ℕ → ℕ
test_bit_xor x y = bit_xor x y

unfoldable pub test_tmin : ℕ
test_tmin = 0x80000000

unfoldable pub test_is_tmax : ℕ → ℕ
test_is_tmax x = int_of (x == 0x7fffffff)

unfoldable pub test_negate : ℕ → ℕ
test_negate x = sub32 0 x

unfoldable pub test_is_ascii_digit : ℕ → ℕ
test_is_ascii_digit x = int_of (int_le 0x30 x && int_le x 0x39)

unfoldable pub test_conditional : ℕ → ℕ → ℕ → ℕ
test_conditional x y z = if not_int x == 0 then y else z

unfoldable pub test_is_less_or_equal : ℕ → ℕ → ℕ
test_is_less_or_equal x y = int_of (int_le x y)

unfoldable pub test_logical_neg : ℕ → ℕ
test_logical_neg x = not_int x

-- The loop of `test_allOddBits`, with the rounds that are left.
unfoldable pub test_odd_loop : ℕ → ℕ → ℕ → ℕ
test_odd_loop zero i x = 1
test_odd_loop (suc n) i x =
    let rest = test_odd_loop n (i + 2) x in if bit_and x (left 1 i) == 0 then 0 else rest

unfoldable pub test_all_odd_bits : ℕ → ℕ
unfolding test_odd_loop
test_all_odd_bits x = test_odd_loop 16 1 x

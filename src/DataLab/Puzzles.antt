-- ===== src/DataLab/Puzzles.antt =====
-- bits.c.
use csapp_3e_study.Base.{
  ℕ, ◌-◌, ◌*◌, ◌/◌, ◌^◌, not, ◌||◌, ◌&&◌, ltb, leb, ◌==◌, if◌then◌else◌, bit_and, bit_or, Option,
  some, none,
}
use csapp_3e_study.Base.{bit_xor as xor_of}
use csapp_3e_study.DataLab.{top_bit, inverted, not_int, add32, sub32, left, sign_mask}

unfoldable pub bit_xor : ℕ → ℕ → ℕ
bit_xor x y =
    let notin = inverted (bit_and x y) in
    let notout = inverted (bit_and (inverted x) (inverted y)) in bit_and notin notout

unfoldable pub tmin : ℕ
tmin = left 1 31

unfoldable pub is_tmax : ℕ → ℕ
is_tmax x =
    let y = add32 x 1 in bit_and (not_int (not_int (inverted x))) (not_int (inverted (xor_of x y)))

unfoldable pub negate : ℕ → ℕ
negate x = add32 (inverted x) 1

unfoldable pub is_ascii_digit : ℕ → ℕ
is_ascii_digit x =
    let negx = add32 (inverted x) 1 in
    let isunder = add32 0x39 negx in
    let isupper = add32 x (add32 (inverted 0x30) 1) in
    not_int (bit_or (sign_mask isunder) (sign_mask isupper))

unfoldable pub conditional : ℕ → ℕ → ℕ → ℕ
conditional x y z =
    let notx = not_int x in
    let filter1 = add32 (left notx 1) notx in
    let filter2 = add32 (left filter1 2) filter1 in
    let filter4 = add32 (left filter2 4) filter2 in
    let filter8 = add32 (left filter4 8) filter4 in
    let filter = add32 (left filter8 16) filter8 in
    add32 (bit_and filter z) (bit_and (inverted filter) y)

unfoldable pub is_less_or_equal : ℕ → ℕ → ℕ
is_less_or_equal x y =
    let xpos = not_int (sign_mask x) in
    let ypos = not_int (sign_mask y) in
    let negx = add32 (inverted x) 1 in
    let ymx = add32 y negx in
    let sgn = sign_mask ymx in
    let x_intmin = bit_and (not_int (not_int x)) (not_int (xor_of negx x)) in
    let x_onlyneg = bit_and (not_int xpos) ypos in
    let same_sgn = bit_and (not_int (xor_of xpos ypos)) (not_int sgn) in
    bit_or (bit_or x_intmin x_onlyneg) same_sgn

unfoldable pub logical_neg : ℕ → ℕ
logical_neg x =
    let xsgn = sign_mask x in
    let posx = add32 (bit_and (inverted xsgn) x) (bit_and xsgn (left 1 31)) in
    let allone = inverted 0 in
    let sum = add32 allone posx in let sgn = sign_mask sum in bit_and sgn 1

-- 0x7f800000 and 0x00800000
abbrev pub exp_bits : ℕ
exp_bits = 255 * 2 ^ 23

abbrev pub exp_one : ℕ
exp_one = 2 ^ 23

-- The branch of `floatScale2` for a zero exponent, with the fraction shifted. `exponent` is 0, so
-- `exponent += exp_one` does not overflow, and the test `!exponent` behind it never holds.
unfoldable pub scaled_denormal : ℕ → ℕ → ℕ
scaled_denormal sign fraction =
    if bit_and exp_bits fraction == 0
    then add32 (add32 sign 0) fraction
    else if add32 0 exp_one == 0
    then add32 sign exp_bits
    else add32 (add32 sign (add32 0 exp_one)) (sub32 fraction exp_one)

unfoldable pub float_scale2 : ℕ → ℕ
float_scale2 uf =
    let sign = bit_and top_bit uf in
    let exponent = bit_and exp_bits uf in
    let fraction = sub32 (sub32 uf exponent) sign in
    if exponent == exp_bits
    then uf
    else if not (exponent == 0)
    then add32 (add32 sign (add32 exponent exp_one)) fraction
    else scaled_denormal sign (left fraction 1)

-- `none` is a shift by 32 or more, which C leaves undefined.
unfoldable pub shift_right : ℕ → ℕ → Option ℕ
shift_right x k = if ltb k 32 then some (x / 2 ^ k) else none

abbrev pub negate_if : ℕ → ℕ → ℕ
negate_if sign fraction = if sign == 0 then fraction else sub32 0 fraction

abbrev pub signed_result : ℕ → Option ℕ → Option ℕ
signed_result sign (some fraction) = some (negate_if sign fraction)
signed_result sign none = none

unfoldable pub float_float2int : ℕ → Option ℕ
float_float2int uf =
    let sign = bit_and top_bit uf in
    let exponent = bit_and exp_bits uf in
    let fraction = sub32 (sub32 uf exponent) sign in
    let puf = sub32 uf sign in
    if ltb 0xcf000000 uf || leb 0x4f000000 puf
    then some 0x80000000
    else if ltb puf 0x3f800000
    then some 0
    else signed_result sign
        (shift_right (add32 fraction exp_one) (sub32 23 (sub32 (exponent / 2 ^ 23) 127)))

-- `x > 127` and `x < -149` on an `int`.
unfoldable pub float_power2 : ℕ → ℕ
float_power2 x =
    if ltb x top_bit && ltb 127 x
    then exp_bits
    else if leb top_bit x && ltb x (2 ^ 32 - 149)
    then 0
    else let exponent = add32 x 127 in
      if leb top_bit exponent then left 1 (add32 22 exponent) else left exponent 23

unfoldable pub all_odd_bits : ℕ → ℕ
all_odd_bits x =
    let allevens1 = add32 0x55 (left 0x55 8) in
    let allevens = add32 allevens1 (left allevens1 16) in not_int (inverted (bit_or allevens x))

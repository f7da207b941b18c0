-- ===== src/Y86/Alu.antt =====
-- isa.c: the ALU, the condition codes and the branch conditions. A word is its 64-bit pattern.
pub mod Bounds
pub mod Compare
use csapp_3e_study.Base.{
  ℕ, zero, suc, ◌+◌, ◌*◌, ◌/◌, ◌%◌, Bool, true, false, ◌||◌, ◌&&◌, not, ltb, leb, ◌==◌,
  if◌then◌else◌, bit_and, bit_xor,
}
use csapp_3e_study.Base.Words.{sign_bit, add64, sub64}
use csapp_3e_study.Y86.Memory.{is_neg}

-- `alu_t`; `none` stands for A_NONE and every larger code.
pub data Alu : Type 0 where
  add sub and xor none : Alu

unfoldable pub alu_of : ℕ → Alu
alu_of zero = add
alu_of (suc zero) = sub
alu_of (suc (suc zero)) = and
alu_of (suc (suc (suc zero))) = xor
alu_of _ = none

unfoldable pub compute_alu : Alu → ℕ → ℕ → ℕ
compute_alu add a b = add64 a b
compute_alu sub a b = sub64 b a
compute_alu and a b = bit_and a b
compute_alu xor a b = bit_xor a b
compute_alu none a b = 0

-- `==` and `!=` on truth values.
abbrev pub same : Bool → Bool → Bool
same true b = b
same false b = not b

abbrev pub differ : Bool → Bool → Bool
differ true b = not b
differ false b = b

-- `w > 0` on a `word_t`.
abbrev pub is_pos : ℕ → Bool
is_pos w = not (is_neg w) && ltb 0 w

abbrev pub bit : Bool → ℕ
bit true = 1
bit false = 0

-- `PACK_CC` of three truth values, whose fields do not overlap.
abbrev pub pack_cc : Bool → Bool → Bool → ℕ
pack_cc z s o = 4 * bit z + 2 * bit s + bit o

-- `GET_ZF`, `GET_SF`, `GET_OF`
abbrev pub get_zf : ℕ → Bool
get_zf cc = cc / 4 % 2 == 1

abbrev pub get_sf : ℕ → Bool
get_sf cc = cc / 2 % 2 == 1

abbrev pub get_of : ℕ → Bool
get_of cc = cc % 2 == 1

-- `DEFAULT_CC`
abbrev pub default_cc : ℕ
default_cc = pack_cc true false false

-- The `ovf` of `compute_cc`, where `val` is the ALU's result.
unfoldable pub overflow : Alu → ℕ → ℕ → ℕ → Bool
overflow add a b val = same (is_neg a) (is_neg b) && differ (is_neg val) (is_neg a)
overflow sub a b val = same (is_pos a) (is_neg b) && differ (is_neg val) (is_neg b)
overflow and a b val = false
overflow xor a b val = false
overflow none a b val = false

unfoldable pub compute_cc : Alu → ℕ → ℕ → ℕ
compute_cc op a b =
    let val = compute_alu op a b in pack_cc (val == 0) (is_neg val) (overflow op a b val)

-- `cond_t`; `other` stands for the codes above C_G.
pub data Cond : Type 0 where
  always le l e ne ge g other : Cond

unfoldable pub cond_of : ℕ → Cond
cond_of zero = always
cond_of (suc zero) = le
cond_of (suc (suc zero)) = l
cond_of (suc (suc (suc zero))) = e
cond_of (suc (suc (suc (suc zero)))) = ne
cond_of (suc (suc (suc (suc (suc zero))))) = ge
cond_of (suc (suc (suc (suc (suc (suc zero)))))) = g
cond_of _ = other

-- `^`, `|` and `&` on the three flags.
unfoldable pub cond_holds : ℕ → Cond → Bool
cond_holds cc always = true
cond_holds cc le = differ (get_sf cc) (get_of cc) || get_zf cc
cond_holds cc l = differ (get_sf cc) (get_of cc)
cond_holds cc e = get_zf cc
cond_holds cc ne = not (get_zf cc)
cond_holds cc ge = not (differ (get_sf cc) (get_of cc))
cond_holds cc g = not (differ (get_sf cc) (get_of cc)) && not (get_zf cc)
cond_holds cc other = false

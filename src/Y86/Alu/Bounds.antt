-- ===== src/Y86/Alu/Bounds.antt =====
-- The ALU's results are words, and the condition codes fit three bits.
use csapp_3e_study.Base.{ℕ, ◌<◌, arith, Bool}
use csapp_3e_study.Base.Words.{word_mod, bit_and-le, bit_xor-lt}
use csapp_3e_study.Y86.Alu.{Alu, compute_alu, compute_cc, pack_cc}

pub compute_alu-lt :
    (op : Alu) (a b : ℕ) → a < word_mod → b < word_mod → compute_alu op a b < word_mod
unfolding compute_alu
compute_alu-lt Alu.add a b ha hb = omega arith
compute_alu-lt Alu.sub a b ha hb = omega arith
compute_alu-lt Alu.and a b ha hb = omega (arith, bit_and-le a a b (omega arith))
compute_alu-lt Alu.xor a b ha hb = bit_xor-lt 64 a b ha hb
compute_alu-lt Alu.none a b ha hb = omega arith

pub pack_cc-lt : (z s o : Bool) → pack_cc z s o < 8
pack_cc-lt z s o = ground arith

pub compute_cc-lt : (op : Alu) (a b : ℕ) → compute_cc op a b < 8
unfolding compute_cc
compute_cc-lt op a b = pack_cc-lt _ _ _

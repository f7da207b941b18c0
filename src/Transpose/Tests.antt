-- ===== src/Transpose/Tests.antt =====
-- The transposes of small matrices, and the theorems there.
use csapp_3e_study.Base.{◌+◌, ◌*◌, ◌≡◌, refl, ◌&&◌, ltb, if◌then◌else◌, inl, arith}
use csapp_3e_study.Transpose.{
  Matrix, for_loop, int_bound, get_set_idx, same_set, row_32, trans_32, trans_odds,
}
use csapp_3e_study.Transpose.Blocks.{Placed, trans_odds_lem, trans_32_lem}

abbrev numbered : Matrix
numbered = λ r c. 100 * r + c

abbrev blank : Matrix
blank = λ r c. 7

small_runs :
    (trans_odds 8 3 2 numbered blank 2 1 ≡ 102)
    × (trans_odds 8 3 2 numbered blank 3 1 ≡ 7)
    × (trans_32 8 8 8 0 32 numbered blank 5 6 ≡ 605)
unfolding for_loop int_bound get_set_idx same_set row_32 trans_32 trans_odds
small_runs = (refl, refl, refl)

trans_odds_lem_example :
    trans_odds 8 61 67 numbered blank 60 66
    ≡ (if ltb 60 61 && ltb 66 67 then numbered 66 60 else blank 60 66)
trans_odds_lem_example = trans_odds_lem 61 67 numbered blank 60 66 (omega arith) (omega arith)

-- The two arrays, of 256 times 256 entries, that the tester declares one after the other.
tester_arrays : Placed 32 32 0 0x40000
tester_arrays = record {
  few = (omega arith, omega arith, omega arith);
  inside = (omega arith, omega arith);
  apart = inl (omega arith);
}

trans_32_lem_example :
    trans_32 8 32 32 0 0x40000 numbered blank 31 30
    ≡ (if ltb 31 32 && ltb 30 32 then numbered 30 31 else blank 31 30)
trans_32_lem_example = trans_32_lem 32 32 0 0x40000 numbered blank 31 30 tester_arrays refl refl

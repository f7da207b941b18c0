-- ===== src/Y86/Alu/Compare.antt =====
-- What the flags say of the operands, as signed integers.
use csapp_3e_study.Base.{ℕ, ◌<◌, ◌≡◌, ◌↔◌, refl, ◌∙◌, arith, Bool, true, false, not, ◌==◌, ◌&&◌}
use csapp_3e_study.Base.Int.{ℤ, ◌+ℤ◌, ◌-ℤ◌, ltb_ℤ, leb_ℤ}
use csapp_3e_study.Base.Words.{word_mod, signed}
use csapp_3e_study.Y86.Memory.{is_neg}
use csapp_3e_study.Y86.Alu.{
  Alu, compute_alu, overflow, compute_cc, get_zf, get_sf, get_of, Cond, cond_holds, differ, pack_cc,
}

-- The flags come out of the packed byte as they went in.
pub flags_pack :
    (z s o : Bool)
    → (get_zf (pack_cc z s o) ≡ z) × (get_sf (pack_cc z s o) ≡ s) × (get_of (pack_cc z s o) ≡ o)
flags_pack true true true = (refl, refl, refl)
flags_pack true true false = (refl, refl, refl)
flags_pack true false true = (refl, refl, refl)
flags_pack true false false = (refl, refl, refl)
flags_pack false true true = (refl, refl, refl)
flags_pack false true false = (refl, refl, refl)
flags_pack false false true = (refl, refl, refl)
flags_pack false false false = (refl, refl, refl)

-- The three flags of `compute_cc`.
pub flags_lem :
    (op : Alu) (a b : ℕ)
    → (get_zf (compute_cc op a b) ≡ (compute_alu op a b == 0))
      × (get_sf (compute_cc op a b) ≡ is_neg (compute_alu op a b))
      × (get_of (compute_cc op a b) ≡ overflow op a b (compute_alu op a b))
unfolding compute_cc
flags_lem op a b =
    flags_pack (compute_alu op a b == 0) (is_neg (compute_alu op a b))
      (overflow op a b (compute_alu op a b))

module _ (a b : ℕ) (ha : a < word_mod) (hb : b < word_mod) where
  -- The sign and the overflow of a difference say together which operand is smaller.
  less_sub :
      differ (is_neg (compute_alu Alu.sub a b)) (overflow Alu.sub a b (compute_alu Alu.sub a b))
      ≡ ltb_ℤ (signed b) (signed a)
  unfolding compute_alu overflow
  less_sub = ground arith

  zero_sub : (compute_alu Alu.sub a b == 0) ≡ (b == a)
  unfolding compute_alu
  zero_sub = ground arith

  overflow_sub :
      (overflow Alu.sub a b (compute_alu Alu.sub a b) ≡ false)
      ↔ (signed (compute_alu Alu.sub a b) ≡ signed b -ℤ signed a)
  unfolding compute_alu overflow ◌-ℤ◌
  overflow_sub = (λ h. ground arith, λ h. ground arith)

  overflow_add :
      (overflow Alu.add a b (compute_alu Alu.add a b) ≡ false)
      ↔ (signed (compute_alu Alu.add a b) ≡ signed a +ℤ signed b)
  unfolding compute_alu overflow ◌+ℤ◌
  overflow_add = (λ h. ground arith, λ h. ground arith)

-- The relation that a condition names, on integers.
abbrev pub relation : Cond → ℤ → ℤ → Bool
relation Cond.always x y = true
relation Cond.le x y = leb_ℤ x y
relation Cond.l x y = ltb_ℤ x y
relation Cond.e x y = leb_ℤ x y && leb_ℤ y x
relation Cond.ne x y = not (leb_ℤ x y && leb_ℤ y x)
relation Cond.ge x y = leb_ℤ y x
relation Cond.g x y = ltb_ℤ y x
relation Cond.other x y = false

module _ (a b : ℕ) (ha : a < word_mod) (hb : b < word_mod) where
  zf_sub : get_zf (compute_cc Alu.sub a b) ≡ (b == a)
  zf_sub = (flags_lem Alu.sub a b).0 ∙ zero_sub a b ha hb

  sf-of_sub :
      differ (get_sf (compute_cc Alu.sub a b)) (get_of (compute_cc Alu.sub a b))
      ≡ ltb_ℤ (signed b) (signed a)
  sf-of_sub = rw ((flags_lem Alu.sub a b).1, (flags_lem Alu.sub a b).2) (less_sub a b ha hb)

  -- After `subq` of `a` from `b` each branch condition holds exactly if `b` and `a`, read as signed
  -- integers, stand in the relation that it names, also where the difference overflows.
  pub cond_holds-sub :
      (c : Cond) → cond_holds (compute_cc Alu.sub a b) c ≡ relation c (signed b) (signed a)
  unfolding cond_holds
  cond_holds-sub Cond.always = refl
  cond_holds-sub Cond.le = rw (sf-of_sub, zf_sub) (ground arith)
  cond_holds-sub Cond.l = sf-of_sub
  cond_holds-sub Cond.e = rw zf_sub (ground arith)
  cond_holds-sub Cond.ne = rw zf_sub (ground arith)
  cond_holds-sub Cond.ge = rw sf-of_sub (ground arith)
  cond_holds-sub Cond.g = rw (sf-of_sub, zf_sub) (ground arith)
  cond_holds-sub Cond.other = refl

  -- The overflow flag of `addq` and of `subq` is clear exactly if the result, as a signed integer,
  -- is the sum or the difference of the operands; the sign flag is the result's sign and the zero
  -- flag says that it is 0, for every operation.
  pub compute_cc_flags :
      (op : Alu)
      → (get_zf (compute_cc op a b) ≡ (compute_alu op a b == 0))
        × (get_sf (compute_cc op a b) ≡ is_neg (compute_alu op a b))
        × ((get_of (compute_cc Alu.add a b) ≡ false)
            ↔ (signed (compute_alu Alu.add a b) ≡ signed a +ℤ signed b))
        × ((get_of (compute_cc Alu.sub a b) ≡ false)
            ↔ (signed (compute_alu Alu.sub a b) ≡ signed b -ℤ signed a))
  compute_cc_flags op = (
    (flags_lem op a b).0,
    (flags_lem op a b).1,
    rw (flags_lem Alu.add a b).2 (overflow_add a b ha hb),
    rw (flags_lem Alu.sub a b).2 (overflow_sub a b ha hb),
  )

-- ===== src/Y86/Memory/Registers.antt =====
-- The register file: reads after writes.
use csapp_3e_study.Base.{
  ℕ, ◌*◌, ◌≤◌, ◌<◌, ◌≡◌, refl, arith, ltb, ◌==◌, ◌&&◌, if◌then◌else◌, dec_lt, ◌≢◌, ℕ_discrete,
}
use csapp_3e_study.Base.Words.{word_mod}
use csapp_3e_study.Y86.Memory.{Mem, get_reg_val, set_reg_val, reg_none, init_reg, init_mem}
use csapp_3e_study.Y86.Memory.Bytes.{from_bytes, from_bytes-lt}
use csapp_3e_study.Y86.Memory.Bounds.{IsMem, written, set_word-in, get_word-in, written-IsMem}
use csapp_3e_study.Y86.Memory.RoundTrip.{get_word-written, get_word-written_ne}

pub record IsReg (r : Mem) : Type 0 where
  pub mem : IsMem r
  pub room : r.len ≡ 128

module _ {r : Mem} (w : IsReg r) where
  pub get_reg-in : (id : ℕ) → id < reg_none → get_reg_val r id ≡ from_bytes r.contents (id * 8) 8
  unfolding get_reg_val
  get_reg-in id h = ground (arith, get_word-in w.mem (id * 8))

  pub get_reg-out : (id : ℕ) → reg_none ≤ id → get_reg_val r id ≡ 0
  unfolding get_reg_val
  get_reg-out id h = ground arith

  pub set_reg-in :
      (id v : ℕ) → id < reg_none → v < word_mod → set_reg_val r id v ≡ written r (id * 8) v
  unfolding set_reg_val
  set_reg-in id v h hv = ground (arith, set_word-in w.mem (id * 8) v)

  pub set_reg-out : (id v : ℕ) → reg_none ≤ id → set_reg_val r id v ≡ r
  unfolding set_reg_val
  set_reg-out id v h = ground arith

  pub get_reg-lt : (id : ℕ) → get_reg_val r id < word_mod
  get_reg-lt id = elim (dec_lt id reg_none) [
    | yes h ↦ omega (arith, get_reg-in id h, from_bytes-lt r.contents (id * 8))
    | no h ↦ omega (arith, get_reg-out id)
  ]

  pub set_reg_val-IsReg : (id v : ℕ) → v < word_mod → IsReg (set_reg_val r id v)
  set_reg_val-IsReg id v hv = elim (dec_lt id reg_none) [
    | yes h ↦
        rw (set_reg-in id v h hv) (record { mem = written-IsMem w.mem (id * 8) v; room = w.room })
    | no h ↦ rw (set_reg-out id v (omega arith)) w
  ]

  get_reg_self :
      (id v : ℕ) → id < reg_none → v < word_mod → get_reg_val (written r (id * 8) v) id ≡ v
  unfolding get_reg_val
  get_reg_self id v h hv = ground (arith, get_word-written w.mem (id * 8) v hv)

  get_reg_ne : (id v j : ℕ) → id ≢ j → get_reg_val (written r (id * 8) v) j ≡ get_reg_val r j
  unfolding get_reg_val
  get_reg_ne id v j ne = rw (get_word-written_ne w.mem (id * 8) v (j * 8) (omega arith)) refl

  -- Of all registers a write changes the one that it names, and REG_NONE and the codes above it
  -- name none.
  pub get_reg-set_reg :
      (id v j : ℕ)
      → v < word_mod
      → get_reg_val (set_reg_val r id v) j
        ≡ (if id == j && ltb id reg_none then v else get_reg_val r j)
  get_reg-set_reg id v j hv = elim (dec_lt id reg_none) [
    | yes h ↦ elim (ℕ_discrete id j) [
      | yes e ↦ rw (set_reg-in id v h hv, ← e, get_reg_self id v h hv) (ground arith)
      | no n ↦ rw (set_reg-in id v h hv, get_reg_ne id v j n) (ground arith)
    ]
    | no h ↦ rw (set_reg-out id v (omega arith)) (ground arith)
  ]

pub init_reg-IsReg : IsReg init_reg
unfolding init_reg init_mem
init_reg-IsReg = record { mem = record { sized = refl; small = omega arith }; room = refl }

-- ===== src/Y86/Machine/Invariant.antt =====
-- The invariant of a machine state, and what is fetched from a state that has it.
use csapp_3e_study.Base.{
  ℕ, ◌+◌, ◌≤◌, ◌<◌, ◌≡◌, refl, arith, Bool-cases, inl, inr, dec_lt, dec_le, get_or, ◌⊎◌,
}
use csapp_3e_study.Base.Words.{word_mod}
use csapp_3e_study.Y86.Memory.{Mem, found, refused}
use csapp_3e_study.Y86.Memory.Bytes.{from_bytes-lt}
use csapp_3e_study.Y86.Memory.Bounds.{IsMem, get_word-in, get_word-out, get_byte-in, get_byte-out}
use csapp_3e_study.Y86.Memory.Registers.{IsReg}
use csapp_3e_study.Y86.Machine.{State, Insn, Itype, itype_of, need_regids, need_imm}
use csapp_3e_study.Y86.Machine.Fetch.{Regids, Imm, fetch_regids, fetch_imm, fetch, hi4}

pub record IsState (s : State) : Type 0 where
  pub reg : IsReg s.r
  pub mem : IsMem s.m
  pub pc_word : s.pc < word_mod
  pub flags : s.cc < 8

-- What is fetched: its constants are words.
pub record IsInsn (i : Insn) : Type 0 where
  pub next_word : i.ftpc < word_mod
  pub cval_word : i.cval < word_mod

module _ {m : Mem} (w : IsMem m) where
  pub fetch_regids_lem :
      (h : Itype) (pc : ℕ)
      → pc ≤ m.len
      → (a : Regids) × (fetch_regids m h pc ≡ found a) × (a.ftpc ≤ pc + 1)
  unfolding fetch_regids
  fetch_regids_lem h pc le = elim (Bool-cases (need_regids h)) [
    | inl e ↦ elim (dec_lt pc m.len) [
      | yes p ↦ rw (e, get_byte-in w pc p) (_, refl, omega arith)
      | no p ↦ rw (e, get_byte-out w pc (omega arith) (omega arith)) (_, refl, omega arith)
    ]
    | inr e ↦ rw e (_, refl, omega arith)
  ]

  pub fetch_imm_lem :
      (h : Itype) (pc : ℕ)
      → pc ≤ m.len + 1
      → (c : Imm) × (fetch_imm m h pc ≡ found c) × (c.ftpc ≤ pc + 8) × (c.cval < word_mod)
  unfolding fetch_imm
  fetch_imm_lem h pc le = elim (Bool-cases (need_imm h)) [
    | inl e ↦ elim (dec_le (pc + 8) m.len) [
      | yes p ↦ rw (e, get_word-in w pc p) (_, refl, omega arith, from_bytes-lt m.contents pc)
      | no p ↦
          rw (e, get_word-out w pc (omega arith) (omega arith) (omega arith))
            (_, refl, omega arith, omega arith)
    ]
    | inr e ↦ rw e (_, refl, omega arith, omega arith)
  ]

-- The fetch never leaves the array, and fails only at a program counter outside the memory.
pub fetch_lem :
    {s : State}
    → IsState s
    → ((fetch s ≡ refused) × (s.m.len ≤ s.pc)) ⊎ ((i : Insn) × (fetch s ≡ found i) × IsInsn i)
unfolding fetch
fetch_lem {s} v = elim (dec_lt s.pc s.m.len) [
  | no p ↦ inl (rw (get_byte-out v.mem s.pc v.pc_word (omega arith), fetch), omega arith)
  | yes p ↦
      let h = itype_of (hi4 (get_or s.m.contents s.pc 0)) in
      let (a, ea, la) = fetch_regids_lem v.mem h (s.pc + 1) (omega arith) in
      let (c, ec, lc, wc) = fetch_imm_lem v.mem h a.ftpc (omega arith) in
      inr (
        rw (get_byte-in v.mem s.pc p, ea, ec, fetch)
          (_, refl, record { next_word = omega arith; cval_word = wc }))
]

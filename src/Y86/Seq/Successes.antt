-- ===== src/Y86/Seq/Successes.antt =====
-- A step that succeeds, or that halts, has read a whole instruction.
use csapp_3e_study.Base.{
  dec_lt, get_or, ℕ, ◌+◌, ◌≡◌, refl, ap, ◌∙◌, sym, arith, true, false, some, inl, inr,
}
use csapp_3e_study.Y86.Memory.{Mem, found}
use csapp_3e_study.Y86.Machine.{State, aok, hlt, done, Insn}
use csapp_3e_study.Y86.Machine.{
  Itype, halt, nop, rrmovq, irmovq, rmmovq, mrmovq, alu, jmp, call, ret,
}
use csapp_3e_study.Y86.Machine.{pushq, popq, iaddq}
use csapp_3e_study.Y86.Machine.Fetch.{fetch}
use csapp_3e_study.Y86.Machine.Execute.{
  exec_rrmovq, exec_irmovq, exec_rmmovq, exec_mrmovq, exec_alu, exec_jmp, exec_call, exec_ret,
  exec_pushq, exec_popq, exec_iaddq, dispatch, step_state,
}
use csapp_3e_study.Y86.Machine.Invariant.{IsState, fetch_lem, fetch_regids_lem, fetch_imm_lem}
use csapp_3e_study.Y86.Memory.Bounds.{get_byte-in, get_byte-out}
use csapp_3e_study.Y86.Seq.{Version, Sim, state_of}
use csapp_3e_study.Y86.Seq.Control.{gen_stat}
use csapp_3e_study.Y86.Seq.Step.{Fetched, later_stages, cycle}
use csapp_3e_study.Y86.Seq.Fetching.{supports, fetched, fetch_stage_lem}
use csapp_3e_study.Y86.Seq.Agreement.{operands_valid}
use csapp_3e_study.Y86.Machine.Fetch.{fetch_regids, fetch_imm, Regids, Imm, hi4}
use csapp_3e_study.Y86.Machine.{need_regids, need_imm, itype_of}
use csapp_3e_study.Y86.Seq.Refinement.{Complete, step_state-found, cycle-fetched}

-- A flag of the instruction is false only if its bytes are needed.
fetch_regids_ok :
    (m : Mem) (h : Itype) (pc : ℕ) (a : Regids)
    → fetch_regids m h pc ≡ found a
    → need_regids h ≡ false
    → a.ok1 ≡ true
unfolding fetch_regids
fetch_regids_ok m h pc a e n = ground arith

fetch_imm_ok :
    (m : Mem) (h : Itype) (pc : ℕ) (c : Imm)
    → fetch_imm m h pc ≡ found c
    → need_imm h ≡ false
    → c.okc ≡ true
unfolding fetch_imm
fetch_imm_ok m h pc c e n = ground arith

dispatch_ok :
    (h : Itype) (i : Insn) (s s' : State)
    → (need_regids h ≡ false → i.ok1 ≡ true)
    → (need_imm h ≡ false → i.okc ≡ true)
    → dispatch h i s ≡ done aok s'
    → (i.ok1 ≡ true) × (i.okc ≡ true) × (operands_valid h i ≡ true)
unfolding dispatch need_regids need_imm
dispatch_ok rrmovq i s s' p q e = unfold exec_rrmovq in ground arith
dispatch_ok irmovq i s s' p q e = unfold exec_irmovq in ground arith
dispatch_ok rmmovq i s s' p q e = unfold exec_rmmovq in ground arith
dispatch_ok mrmovq i s s' p q e = unfold exec_mrmovq in ground arith
dispatch_ok alu i s s' p q e = unfold exec_alu in ground arith
dispatch_ok jmp i s s' p q e = unfold exec_jmp in ground arith
dispatch_ok call i s s' p q e = unfold exec_call in ground arith
dispatch_ok ret i s s' p q e = unfold exec_ret in ground arith
dispatch_ok pushq i s s' p q e = unfold exec_pushq in ground arith
dispatch_ok popq i s s' p q e = unfold exec_popq in ground arith
dispatch_ok iaddq i s s' p q e = unfold exec_iaddq in ground arith
dispatch_ok nop i s s' p q e = (p refl, q refl, refl)
dispatch_ok _ i s s' p q e = absurd (cc)

fetch_ok :
    (s : State) (i : Insn)
    → IsState s
    → fetch s ≡ found i
    → (need_regids i.hi0 ≡ false → i.ok1 ≡ true) × (need_imm i.hi0 ≡ false → i.okc ≡ true)
unfolding fetch
fetch_ok s i w e = elim (dec_lt s.pc s.m.len) [
  | no p ↦ absurd (ground (arith, get_byte-out w.mem s.pc w.pc_word))
  | yes p ↦
      let h = itype_of (hi4 (get_or s.m.contents s.pc 0)) in
      let (a, ea, la) = fetch_regids_lem w.mem h (s.pc + 1) (omega arith) in
      let (c, ec, lc, wc) = fetch_imm_lem w.mem h a.ftpc (omega arith) in
      ground (
        arith,
        get_byte-in w.mem s.pc p,
        ea,
        ec,
        fetch_regids_ok s.m h (s.pc + 1) a ea,
        fetch_imm_ok s.m h a.ftpc c ec,
      )
]

-- Only `halt` ends a step with STAT_HLT, and it changes nothing.
dispatch_hlt :
    (h : Itype) (i : Insn) (s s' : State) → dispatch h i s ≡ done hlt s' → (h ≡ halt) × (s' ≡ s)
unfolding dispatch
dispatch_hlt halt i s s' e = (refl, ground arith)
dispatch_hlt rrmovq i s s' e = absurd (unfold exec_rrmovq in ground arith)
dispatch_hlt irmovq i s s' e = absurd (unfold exec_irmovq in ground arith)
dispatch_hlt rmmovq i s s' e = absurd (unfold exec_rmmovq in ground arith)
dispatch_hlt mrmovq i s s' e = absurd (unfold exec_mrmovq in ground arith)
dispatch_hlt alu i s s' e = absurd (unfold exec_alu in ground arith)
dispatch_hlt jmp i s s' e = absurd (unfold exec_jmp in ground arith)
dispatch_hlt call i s s' e = absurd (unfold exec_call in ground arith)
dispatch_hlt ret i s s' e = absurd (unfold exec_ret in ground arith)
dispatch_hlt pushq i s s' e = absurd (unfold exec_pushq in ground arith)
dispatch_hlt popq i s s' e = absurd (unfold exec_popq in ground arith)
dispatch_hlt iaddq i s s' e = absurd (unfold exec_iaddq in ground arith)
dispatch_hlt _ i s s' e = absurd (cc)

pub step_state-Complete :
    (v : Version) (s s' : State) (i : Insn)
    → IsState s
    → step_state s ≡ done aok s'
    → fetch s ≡ found i
    → supports v i.hi0 ≡ true
    → Complete v s
step_state-Complete v s s' i w e f p =
    let (q1, qc) = fetch_ok s i w f in
    let (o1, oc, o) = dispatch_ok i.hi0 i s s' q1 qc (sym (step_state-found s f) ∙ e) in
    (i, f, o1, oc, o, p)

later_halt :
    (v : Version) (y : Sim) (f : Fetched)
    → (z : Sim) × (later_stages v halt f y ≡ some (gen_stat f.imem_error false true halt, z))
      × (z.mem ≡ y.mem)
      × (z.reg ≡ y.reg)
      × (z.cc ≡ y.cc)
unfolding later_stages
later_halt v y f = (_, refl, refl, refl, refl)

-- The cycle of a `halt`.
pub cycle_halt :
    (v : Version) (y : Sim) (s' : State)
    → IsState (state_of y)
    → step_state (state_of y) ≡ done hlt s'
    → (z : Sim) × (cycle v y ≡ some (hlt, z))
      × (s' ≡ state_of y)
      × (z.mem ≡ y.mem)
      × (z.reg ≡ y.reg)
      × (z.cc ≡ y.cc)
unfolding need_regids need_imm
cycle_halt v y s' w e = elim (fetch_lem w) [
  | inl (f, _) ↦ absurd (unfold step_state in ground arith)
  | inr (i, f, k) ↦
      let (eh, es) = dispatch_hlt i.hi0 i (state_of y) s' (sym (step_state-found _ f) ∙ e) in
      let (q1, qc) = fetch_ok (state_of y) i w f in
      let same =
        fetch_stage_lem w v i f (q1 (ap need_regids eh)) (qc (ap need_imm eh))
          (ap (supports v) eh) in
      let (z, ez, em, er, ec) = later_halt v y (fetched i) in
      (z, cycle-fetched v y same ∙ ap (λ h. later_stages v h (fetched i) y) eh ∙ ez, es, em, er, ec)
]

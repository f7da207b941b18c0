-- ===== src/Y86/Machine/Safety.antt =====
-- What an instruction keeps, on every branch of the switch.
use csapp_3e_study.Base.{◌<◌, ◌≡◌, ◌≢◌, arith, inl, inr, ◌⊎◌}
use csapp_3e_study.Base.Words.{word_mod, add64, sub64}
use csapp_3e_study.Y86.Memory.{get_reg_val, set_reg_val, reg_rsp}
use csapp_3e_study.Y86.Memory.Bytes.{from_bytes, from_bytes-lt}
use csapp_3e_study.Y86.Memory.Bounds.{written-IsMem, get_word_cases, set_word_cases}
use csapp_3e_study.Y86.Memory.Registers.{get_reg-lt, set_reg_val-IsReg}
use csapp_3e_study.Y86.Alu.{add, alu_of, compute_alu}
use csapp_3e_study.Y86.Alu.Bounds.{compute_alu-lt, compute_cc-lt}
use csapp_3e_study.Y86.Machine.{State, Stat, aok, Insn, done}
use csapp_3e_study.Y86.Machine.{
  Itype, halt, nop, rrmovq, irmovq, rmmovq, mrmovq, alu, jmp, call, ret,
}
use csapp_3e_study.Y86.Machine.{pushq, popq, iaddq}
use csapp_3e_study.Y86.Machine.Execute.{
  exec_rrmovq, exec_irmovq, exec_rmmovq, exec_mrmovq, exec_alu, exec_jmp, exec_call, exec_ret,
  exec_pushq, exec_popq, exec_iaddq, address, dispatch, step_state,
}
use csapp_3e_study.Y86.Machine.Invariant.{IsState, IsInsn, fetch_lem}

-- What a step from `s` may leave.
pub record Kept (s : State) (st : Stat) (s' : State) : Type 0 where
  pub valid : IsState s'
  pub room : s'.m.len ≡ s.m.len
  pub reg_stays :
      st ≢ aok
      → (s'.r ≡ s.r)
        ⊎ (s'.r ≡ set_reg_val s.r reg_rsp (sub64 (get_reg_val s.r reg_rsp) 8))
        ⊎ (s'.r ≡ set_reg_val s.r reg_rsp (add64 (get_reg_val s.r reg_rsp) 8))
  pub pc_stays : st ≢ aok → s'.pc ≡ s.pc
  pub mem_stays : st ≢ aok → s'.m ≡ s.m
  pub cc_stays : st ≢ aok → s'.cc ≡ s.cc

pub address-lt : (i : Insn) (s : State) → IsInsn i → address i s < word_mod
address-lt i s w = ground arith

module _ {s : State} (v : IsState s) {i : Insn} (w : IsInsn i) {st : Stat} {s' : State} where
  exec_rrmovq-Kept : exec_rrmovq i s ≡ done st s' → Kept s st s'
  unfolding exec_rrmovq
  exec_rrmovq-Kept e =
      ground (arith, set_reg_val-IsReg v.reg i.lo1 (get_reg_val s.r i.hi1) (get_reg-lt v.reg i.hi1))

  exec_alu-Kept : exec_alu i s ≡ done st s' → Kept s st s'
  unfolding exec_alu
  exec_alu-Kept e =
      let a = get_reg_val s.r i.hi1 in
      let b = get_reg_val s.r i.lo1 in
      let op = alu_of i.lo0 in
      ground (
        arith,
        set_reg_val-IsReg v.reg i.lo1 (compute_alu op a b)
            (compute_alu-lt op a b (get_reg-lt v.reg i.hi1) (get_reg-lt v.reg i.lo1)),
        compute_cc-lt op a b,
      )

  exec_irmovq-Kept : exec_irmovq i s ≡ done st s' → Kept s st s'
  unfolding exec_irmovq
  exec_irmovq-Kept e = ground (arith, set_reg_val-IsReg v.reg i.lo1 i.cval w.cval_word)

  exec_iaddq-Kept : exec_iaddq i s ≡ done st s' → Kept s st s'
  unfolding exec_iaddq
  exec_iaddq-Kept e =
      let b = get_reg_val s.r i.lo1 in
      ground (
        arith,
        set_reg_val-IsReg v.reg i.lo1 (add64 b i.cval) (omega arith),
        compute_cc-lt add i.cval b,
      )

  exec_jmp-Kept : exec_jmp i s ≡ done st s' → Kept s st s'
  unfolding exec_jmp
  exec_jmp-Kept e = ground arith

  exec_rmmovq-Kept : exec_rmmovq i s ≡ done st s' → Kept s st s'
  unfolding exec_rmmovq
  exec_rmmovq-Kept e = ground (
    arith,
    set_word_cases v.mem (address i s) (get_reg_val s.r i.hi1) (address-lt i s w)
        (get_reg-lt v.reg i.hi1),
    written-IsMem v.mem (address i s) (get_reg_val s.r i.hi1),
  )

  exec_mrmovq-Kept : exec_mrmovq i s ≡ done st s' → Kept s st s'
  unfolding exec_mrmovq
  exec_mrmovq-Kept e = ground (
    arith,
    get_word_cases v.mem (address i s) (address-lt i s w),
    set_reg_val-IsReg v.reg i.hi1 (from_bytes s.m.contents (address i s) 8)
        (from_bytes-lt s.m.contents (address i s)),
  )

  exec_ret-Kept : exec_ret i s ≡ done st s' → Kept s st s'
  unfolding exec_ret
  exec_ret-Kept e =
      let dval = get_reg_val s.r reg_rsp in
      ground (
        arith,
        get_word_cases v.mem dval (get_reg-lt v.reg reg_rsp),
        from_bytes-lt s.m.contents dval,
        set_reg_val-IsReg v.reg reg_rsp (add64 dval 8) (omega arith),
      )

  exec_call-Kept : exec_call i s ≡ done st s' → Kept s st s'
  unfolding exec_call
  exec_call-Kept e =
      let val = sub64 (get_reg_val s.r reg_rsp) 8 in
      ground (
        arith,
        set_reg_val-IsReg v.reg reg_rsp val (omega arith),
        set_word_cases v.mem val i.ftpc (omega arith) w.next_word,
        written-IsMem v.mem val i.ftpc,
      )

  exec_pushq-Kept : exec_pushq i s ≡ done st s' → Kept s st s'
  unfolding exec_pushq
  exec_pushq-Kept e =
      let dval = sub64 (get_reg_val s.r reg_rsp) 8 in
      let val = get_reg_val s.r i.hi1 in
      ground (
        arith,
        set_reg_val-IsReg v.reg reg_rsp dval (omega arith),
        set_word_cases v.mem dval val (omega arith) (get_reg-lt v.reg i.hi1),
        written-IsMem v.mem dval val,
      )

  exec_popq-Kept : exec_popq i s ≡ done st s' → Kept s st s'
  unfolding exec_popq
  exec_popq-Kept e =
      let dval = get_reg_val s.r reg_rsp in
      let r1 = set_reg_val-IsReg v.reg reg_rsp (add64 dval 8) (omega arith) in
      ground (
        arith,
        r1,
        get_word_cases v.mem dval (get_reg-lt v.reg reg_rsp),
        set_reg_val-IsReg r1 i.hi1 (from_bytes s.m.contents dval 8)
            (from_bytes-lt s.m.contents dval),
      )

  dispatch-Kept : (h : Itype) → dispatch h i s ≡ done st s' → Kept s st s'
  unfolding dispatch
  dispatch-Kept halt e = ground arith
  dispatch-Kept nop e = ground arith
  dispatch-Kept rrmovq e = exec_rrmovq-Kept e
  dispatch-Kept irmovq e = exec_irmovq-Kept e
  dispatch-Kept rmmovq e = exec_rmmovq-Kept e
  dispatch-Kept mrmovq e = exec_mrmovq-Kept e
  dispatch-Kept alu e = exec_alu-Kept e
  dispatch-Kept jmp e = exec_jmp-Kept e
  dispatch-Kept call e = exec_call-Kept e
  dispatch-Kept ret e = exec_ret-Kept e
  dispatch-Kept pushq e = exec_pushq-Kept e
  dispatch-Kept popq e = exec_popq-Kept e
  dispatch-Kept iaddq e = exec_iaddq-Kept e
  dispatch-Kept _ e = ground arith

-- From a valid state, whatever status an instruction returns: the state it leaves is valid and has
-- as much memory, and on every status but STAT_AOK the program counter, the memory and the
-- condition codes are as before, and the registers too but for a stack pointer that was already
-- moved by 8, down or up.
pub step_state-Kept :
    {s : State} (st : Stat) (s' : State) → IsState s → step_state s ≡ done st s' → Kept s st s'
unfolding step_state
step_state-Kept {s} st s' v e = elim (fetch_lem v) [
  | inl (f, _) ↦ ground arith
  | inr (i, f, w) ↦ dispatch-Kept v w i.hi0 (ground arith)
]

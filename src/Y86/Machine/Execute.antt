-- ===== src/Y86/Machine/Execute.antt =====
-- The cases of the switch of `step_state`, and `step_state` itself. Signed sums wrap.
use csapp_3e_study.Base.{ℕ, not, if◌then◌else◌}
use csapp_3e_study.Base.Words.{add64, sub64}
use csapp_3e_study.Y86.Memory.{
  Mem, found, refused, fault, get_word_val, set_word_val, get_reg_val, set_reg_val, reg_rsp,
}
use csapp_3e_study.Y86.Alu.{Alu, alu_of, compute_alu, compute_cc, cond_of, cond_holds}
use csapp_3e_study.Y86.Machine.{State, aok, hlt, adr, ins, Outcome, done, crash, Insn, reg_valid}
use csapp_3e_study.Y86.Machine.{
  Itype, halt, nop, rrmovq, irmovq, rmmovq, mrmovq, alu, jmp, call, ret,
}
use csapp_3e_study.Y86.Machine.{pushq, popq, iaddq}
use csapp_3e_study.Y86.Machine.Fetch.{fetch}

-- A word is stored and the state goes on, or the status is STAT_ADR.
abbrev pub store : State → ℕ → ℕ → (Mem → State) → Outcome
store s pos val go = elim (set_word_val s.m pos val) [
  | found m ↦ done aok (go m)
  | refused ↦ done adr s
  | fault ↦ crash
]

abbrev pub load : State → ℕ → (ℕ → State) → Outcome
load s pos go = elim (get_word_val s.m pos) [
  | found val ↦ done aok (go val)
  | refused ↦ done adr s
  | fault ↦ crash
]

-- I_RRMOVQ, also the conditional moves.
unfoldable pub exec_rrmovq : Insn → State → Outcome
exec_rrmovq i s =
    if not i.ok1
    then done adr s
    else if not (reg_valid i.hi1)
    then done ins s
    else if not (reg_valid i.lo1)
    then done ins s
    else let val = get_reg_val s.r i.hi1 in
      let r = if cond_holds s.cc (cond_of i.lo0) then set_reg_val s.r i.lo1 val else s.r in
      done aok (record s { r = r; pc = i.ftpc })

unfoldable pub exec_irmovq : Insn → State → Outcome
exec_irmovq i s =
    if not i.ok1
    then done adr s
    else if not i.okc
    then done ins s
    else if not (reg_valid i.lo1)
    then done ins s
    else done aok (record s { r = set_reg_val s.r i.lo1 i.cval; pc = i.ftpc })

-- The address of I_RMMOVQ and I_MRMOVQ: without a base register it is the constant.
abbrev pub address : Insn → State → ℕ
address i s = if reg_valid i.lo1 then add64 i.cval (get_reg_val s.r i.lo1) else i.cval

unfoldable pub exec_rmmovq : Insn → State → Outcome
exec_rmmovq i s =
    if not i.ok1
    then done adr s
    else if not i.okc
    then done ins s
    else if not (reg_valid i.hi1)
    then done ins s
    else store s (address i s) (get_reg_val s.r i.hi1) (λ m. record s { m = m; pc = i.ftpc })

unfoldable pub exec_mrmovq : Insn → State → Outcome
exec_mrmovq i s =
    if not i.ok1
    then done adr s
    else if not i.okc
    then done ins s
    else if not (reg_valid i.hi1)
    then done ins s
    else load s (address i s) (λ val. record s { r = set_reg_val s.r i.hi1 val; pc = i.ftpc })

unfoldable pub exec_alu : Insn → State → Outcome
exec_alu i s =
    if not i.ok1
    then done adr s
    else let a = get_reg_val s.r i.hi1 in
      let b = get_reg_val s.r i.lo1 in
      let op = alu_of i.lo0 in
      done aok (record s {
        r = set_reg_val s.r i.lo1 (compute_alu op a b);
        cc = compute_cc op a b;
        pc = i.ftpc;
      })

unfoldable pub exec_jmp : Insn → State → Outcome
exec_jmp i s =
    if not i.ok1
    then done adr s
    else if not i.okc
    then done adr s
    else done aok (record s { pc = if cond_holds s.cc (cond_of i.lo0) then i.cval else i.ftpc })

-- The stack pointer is moved before the store, so a refused store leaves it moved.
unfoldable pub exec_call : Insn → State → Outcome
exec_call i s =
    if not i.ok1
    then done adr s
    else if not i.okc
    then done adr s
    else let val = sub64 (get_reg_val s.r reg_rsp) 8 in
      let s' = record s { r = set_reg_val s.r reg_rsp val } in
      store s' val i.ftpc (λ m. record s' { m = m; pc = i.cval })

unfoldable pub exec_ret : Insn → State → Outcome
exec_ret i s =
    let dval = get_reg_val s.r reg_rsp in
    load s dval (λ val. record s { r = set_reg_val s.r reg_rsp (add64 dval 8); pc = val })

unfoldable pub exec_pushq : Insn → State → Outcome
exec_pushq i s =
    if not i.ok1
    then done adr s
    else if not (reg_valid i.hi1)
    then done ins s
    else let val = get_reg_val s.r i.hi1 in
      let dval = sub64 (get_reg_val s.r reg_rsp) 8 in
      let s' = record s { r = set_reg_val s.r reg_rsp dval } in
      store s' dval val (λ m. record s' { m = m; pc = i.ftpc })

unfoldable pub exec_popq : Insn → State → Outcome
exec_popq i s =
    if not i.ok1
    then done adr s
    else if not (reg_valid i.hi1)
    then done ins s
    else let dval = get_reg_val s.r reg_rsp in
      let s' = record s { r = set_reg_val s.r reg_rsp (add64 dval 8) } in
      load s' dval (λ val. record s' { r = set_reg_val s'.r i.hi1 val; pc = i.ftpc })

unfoldable pub exec_iaddq : Insn → State → Outcome
exec_iaddq i s =
    if not i.ok1
    then done adr s
    else if not i.okc
    then done ins s
    else if not (reg_valid i.lo1)
    then done ins s
    else let b = get_reg_val s.r i.lo1 in
      done aok (record s {
        r = set_reg_val s.r i.lo1 (add64 b i.cval);
        cc = compute_cc Alu.add i.cval b;
        pc = i.ftpc;
      })

-- The switch.
unfoldable pub dispatch : Itype → Insn → State → Outcome
dispatch halt i s = done hlt s
dispatch nop i s = done aok (record s { pc = i.ftpc })
dispatch rrmovq i s = exec_rrmovq i s
dispatch irmovq i s = exec_irmovq i s
dispatch rmmovq i s = exec_rmmovq i s
dispatch mrmovq i s = exec_mrmovq i s
dispatch alu i s = exec_alu i s
dispatch jmp i s = exec_jmp i s
dispatch call i s = exec_call i s
dispatch ret i s = exec_ret i s
dispatch pushq i s = exec_pushq i s
dispatch popq i s = exec_popq i s
dispatch iaddq i s = exec_iaddq i s
dispatch _ i s = done ins s

unfoldable pub step_state : State → Outcome
step_state s = elim (fetch s) [
  | found i ↦ dispatch i.hi0 i s
  | refused ↦ done adr s
  | fault ↦ crash
]

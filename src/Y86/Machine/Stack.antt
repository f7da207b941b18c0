-- ===== src/Y86/Machine/Stack.antt =====
-- The stack instructions in pairs: I_PUSHQ with I_POPQ, and I_CALL with I_RET.
use csapp_3e_study.Base.{ℕ, ◌+◌, ◌≤◌, ◌<◌, ◌≡◌, refl, arith, true, ◌==◌, if◌then◌else◌}
use csapp_3e_study.Base.Words.{word_mod, add64, sub64}
use csapp_3e_study.Y86.Memory.{
  Mem, found, get_word_val, get_reg_val, set_reg_val, reg_none, reg_rsp,
}
use csapp_3e_study.Y86.Memory.Bounds.{written, set_word-in}
use csapp_3e_study.Y86.Memory.RoundTrip.{get_word-written}
use csapp_3e_study.Y86.Memory.Registers.{get_reg-lt, get_reg-set_reg, set_reg_val-IsReg}
use csapp_3e_study.Y86.Machine.{State, aok, Insn, done, pushq, popq, call, ret}
use csapp_3e_study.Y86.Machine.Execute.{exec_pushq, exec_popq, exec_call, exec_ret, dispatch}
use csapp_3e_study.Y86.Machine.Invariant.{IsState, IsInsn}

-- The state after a word is pushed.
abbrev pushed : State → ℕ → ℕ → State
pushed s val pc =
    let dval = sub64 (get_reg_val s.r reg_rsp) 8 in
    record s { r = set_reg_val s.r reg_rsp dval; m = written s.m dval val; pc = pc }

-- The state after the top of the stack is taken off, with a register file `r` over it.
abbrev popped : State → Mem → ℕ → State
popped s r pc = record s { r = r; pc = pc }

module _ {s : State} (v : IsState s) (room : 8 ≤ get_reg_val s.r reg_rsp)
    (top : get_reg_val s.r reg_rsp ≤ s.m.len) where
  below : sub64 (get_reg_val s.r reg_rsp) 8 + 8 ≡ get_reg_val s.r reg_rsp
  below = omega (arith, get_reg-lt v.reg reg_rsp)

  rsp_pushed :
      (val pc : ℕ) → get_reg_val (pushed s val pc).r reg_rsp ≡ sub64 (get_reg_val s.r reg_rsp) 8
  rsp_pushed val pc =
      get_reg-set_reg v.reg reg_rsp (sub64 (get_reg_val s.r reg_rsp) 8) reg_rsp (omega arith)

  top_pushed :
      (val pc : ℕ)
      → val < word_mod
      → get_word_val (pushed s val pc).m (sub64 (get_reg_val s.r reg_rsp) 8) ≡ found val
  top_pushed val pc hv =
      get_word-written v.mem (sub64 (get_reg_val s.r reg_rsp) 8) val hv (omega (arith, below))

  -- Once the stack pointer is moved back all registers are as before the push.
  regs_restored :
      (val pc q : ℕ)
      → get_reg_val
          (set_reg_val (pushed s val pc).r reg_rsp (add64 (sub64 (get_reg_val s.r reg_rsp) 8) 8))
          q
        ≡ get_reg_val s.r q
  regs_restored val pc q =
      let dval = sub64 (get_reg_val s.r reg_rsp) 8 in
      let h : dval < word_mod = omega arith in
      ground (
        arith,
        below,
        get_reg-lt v.reg reg_rsp,
        get_reg-set_reg (set_reg_val-IsReg v.reg reg_rsp dval h) reg_rsp (add64 dval 8) q,
        get_reg-set_reg v.reg reg_rsp dval q,
      )

  push_step :
      (i : Insn)
      → i.ok1 ≡ true
      → i.hi1 < reg_none
      → dispatch pushq i s ≡ done aok (pushed s (get_reg_val s.r i.hi1) i.ftpc)
  unfolding dispatch exec_pushq
  push_step i ok h =
      let dval = sub64 (get_reg_val s.r reg_rsp) 8 in
      ground (
        arith,
        below,
        set_word-in v.mem dval (get_reg_val s.r i.hi1) (get_reg-lt v.reg i.hi1)
            (omega (arith, below)),
      )

  call_step :
      (i : Insn)
      → IsInsn i
      → i.ok1 ≡ true
      → i.okc ≡ true
      → dispatch call i s ≡ done aok (pushed s i.ftpc i.cval)
  unfolding dispatch exec_call
  call_step i w ok okc =
      let dval = sub64 (get_reg_val s.r reg_rsp) 8 in
      ground (arith, below, set_word-in v.mem dval i.ftpc w.next_word (omega (arith, below)))

  ret_step :
      (j : Insn) (val pc : ℕ)
      → val < word_mod
      → let s1 = pushed s val pc in
        dispatch ret j s1
        ≡ done aok
            (popped s1 (set_reg_val s1.r reg_rsp (add64 (sub64 (get_reg_val s.r reg_rsp) 8) 8)) val)
  unfolding dispatch exec_ret
  ret_step j val pc hv = ground (arith, rsp_pushed val pc, top_pushed val pc hv)

  pop_step :
      (j : Insn) (val pc : ℕ)
      → val < word_mod
      → j.ok1 ≡ true
      → j.hi1 < reg_none
      → let s1 = pushed s val pc in
        let r = set_reg_val s1.r reg_rsp (add64 (sub64 (get_reg_val s.r reg_rsp) 8) 8) in
        dispatch popq j s1 ≡ done aok (popped s1 (set_reg_val r j.hi1 val) j.ftpc)
  unfolding dispatch exec_popq
  pop_step j val pc hv ok h = ground (arith, rsp_pushed val pc, top_pushed val pc hv)

-- With eight bytes of the memory free below the stack pointer, `pushq` of one register and `popq`
-- into another both succeed; then the second register holds what the first held, every other
-- register what it held before (the stack pointer too, unless it is the second register), and the
-- program counter stands after the `popq`.
pub pushq-popq :
    {s : State} (i j : Insn)
    → IsState s
    → 8 ≤ get_reg_val s.r reg_rsp
    → get_reg_val s.r reg_rsp ≤ s.m.len
    → i.ok1 ≡ true
    → i.hi1 < reg_none
    → j.ok1 ≡ true
    → j.hi1 < reg_none
    → (s1 : State) × (s2 : State) × (dispatch pushq i s ≡ done aok s1)
      × (dispatch popq j s1 ≡ done aok s2)
      × ((q : ℕ)
          → get_reg_val s2.r q ≡ (if q == j.hi1 then get_reg_val s.r i.hi1 else get_reg_val s.r q))
      × (s2.pc ≡ j.ftpc)
pushq-popq {s} i j v room top oi hi oj hj =
    let val = get_reg_val s.r i.hi1 in
    let hv = get_reg-lt v.reg i.hi1 in
    let dval = sub64 (get_reg_val s.r reg_rsp) 8 in
    let s1 = pushed s val i.ftpc in
    let w1 = set_reg_val-IsReg v.reg reg_rsp dval (omega arith) in
    let w2 = set_reg_val-IsReg w1 reg_rsp (add64 dval 8) (omega arith) in
    (
      s1,
      popped s1 (set_reg_val (set_reg_val s1.r reg_rsp (add64 dval 8)) j.hi1 val) j.ftpc,
      push_step v room top i oi hi,
      pop_step v room top j val i.ftpc hv oj hj,
      λ q. ground (arith, get_reg-set_reg w2 j.hi1 val q hv, regs_restored v room top val i.ftpc q),
      refl,
    )

-- With eight bytes free below the stack pointer, `call` goes to its target, and a `ret` there comes
-- back behind the `call` with every register as it was.
pub call-ret :
    {s : State} (i j : Insn)
    → IsState s
    → IsInsn i
    → 8 ≤ get_reg_val s.r reg_rsp
    → get_reg_val s.r reg_rsp ≤ s.m.len
    → i.ok1 ≡ true
    → i.okc ≡ true
    → (s1 : State) × (s2 : State) × (dispatch call i s ≡ done aok s1)
      × (s1.pc ≡ i.cval)
      × (dispatch ret j s1 ≡ done aok s2)
      × (s2.pc ≡ i.ftpc)
      × ((q : ℕ) → get_reg_val s2.r q ≡ get_reg_val s.r q)
call-ret {s} i j v w room top oi oc =
    let s1 = pushed s i.ftpc i.cval in
    (
      s1,
      popped s1 (set_reg_val s1.r reg_rsp (add64 (sub64 (get_reg_val s.r reg_rsp) 8) 8)) i.ftpc,
      call_step v room top i w oi oc,
      refl,
      ret_step v room top j i.ftpc i.cval w.next_word,
      refl,
      regs_restored v room top i.ftpc i.cval,
    )

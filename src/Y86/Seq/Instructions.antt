-- ===== src/Y86/Seq/Instructions.antt =====
-- Each instruction: the stages after the fetch against its case of `step_state`.
use csapp_3e_study.Base.{ℕ, ◌-◌, ◌≡◌, refl, ap, ap₂, ◌∙◌, arith, Bool, true, false, if◌then◌else◌}
use csapp_3e_study.Base.Words.{word_mod, add64, sub64}
use csapp_3e_study.Y86.Memory.{Mem, get_reg_val, set_reg_val, reg_none, reg_rsp}
use csapp_3e_study.Y86.Memory.Registers.{get_reg-lt, get_reg-out}
use csapp_3e_study.Y86.Alu.{Alu, alu_of, compute_alu, compute_cc, cond_of, cond_holds}
use csapp_3e_study.Y86.Machine.{State, aok, Insn}
use csapp_3e_study.Y86.Machine.{halt, nop, rrmovq, irmovq, rmmovq, mrmovq, alu, jmp, call, ret}
use csapp_3e_study.Y86.Machine.{pushq, popq, iaddq, pop2, unknown}
use csapp_3e_study.Y86.Machine.Execute.{
  exec_rrmovq, exec_irmovq, exec_rmmovq, exec_mrmovq, exec_alu, exec_jmp, exec_call, exec_ret,
  exec_pushq, exec_popq, exec_iaddq, address, dispatch,
}
use csapp_3e_study.Y86.Machine.Invariant.{IsState, IsInsn}
use csapp_3e_study.Y86.Machine.Safety.{address-lt}
use csapp_3e_study.Y86.Seq.{Version, std, full, Sim, state_of}
use csapp_3e_study.Y86.Seq.Control.{gen_stat}
use csapp_3e_study.Y86.Seq.Step.{read_port, write_port, update_state, write_back, later_stages}
use csapp_3e_study.Y86.Seq.Ports.{read_port_lem, write_port_lem, write_port-none}
use csapp_3e_study.Y86.Seq.Fetching.{supports, fetched}
use csapp_3e_study.Y86.Seq.Agreement.{
  Agrees, operands_valid, one_write, two_writes, Agrees-done, store-Agrees, load-Agrees,
}

-- The state with a register file and the address of the next instruction.
abbrev next : Sim → Insn → Mem → State
next y i r = record (state_of y) { r = r; pc = i.ftpc }

pub full_only : (v : Version) → supports v iaddq ≡ true → v ≡ full
full_only std e = absurd (cc)
full_only full e = refl

module _ (y : Sim) (w : IsState (state_of y)) (v : Version) (i : Insn) (k : IsInsn i)
    (o1 : i.ok1 ≡ true) (oc : i.okc ≡ true) where
  moved :
      (b : Bool) (val val' : ℕ)
      → val ≡ val'
      → write_port (write_port y.reg (if b then i.lo1 else reg_none) val) reg_none 0
        ≡ (if b then set_reg_val y.reg i.lo1 val' else y.reg)
  moved true val val' e = one_write y.reg i.lo1 val val' 0 e
  moved false val val' e = write_port-none _ 0 ∙ write_port-none y.reg val

  no_write : (vale valm : ℕ) → write_port (write_port y.reg reg_none vale) reg_none valm ≡ y.reg
  no_write vale valm = write_port-none _ valm ∙ write_port-none y.reg vale

  same_address : add64 i.cval (read_port y.reg i.lo1) ≡ address i (state_of y)
  same_address = ground (arith, k.cval_word, read_port_lem y.reg i.lo1, get_reg-out w.reg i.lo1)

  pub rrmovq-Agrees :
      operands_valid rrmovq i ≡ true
      → Agrees (exec_rrmovq i (state_of y)) (later_stages v rrmovq (fetched i) y)
  unfolding later_stages update_state write_back compute_alu exec_rrmovq
  rrmovq-Agrees o =
      let val = get_reg_val y.reg i.hi1 in
      let b = cond_holds y.cc (cond_of i.lo0) in
      Agrees-done aok (next y i (if b then set_reg_val y.reg i.lo1 val else y.reg)) _
        (ground (arith, o)) refl
        (λ _.
          ap (next y i)
            (moved b _ val (omega (arith, get_reg-lt w.reg i.hi1, read_port_lem y.reg i.hi1))))

  pub irmovq-Agrees :
      operands_valid irmovq i ≡ true
      → Agrees (exec_irmovq i (state_of y)) (later_stages v irmovq (fetched i) y)
  unfolding later_stages update_state write_back compute_alu exec_irmovq
  irmovq-Agrees o =
      Agrees-done aok (next y i (set_reg_val y.reg i.lo1 i.cval)) _ (ground (arith, o)) refl
        (λ _. ap (next y i) (one_write y.reg i.lo1 _ i.cval 0 (omega (arith, k.cval_word))))

  pub jmp-Agrees : Agrees (exec_jmp i (state_of y)) (later_stages v jmp (fetched i) y)
  unfolding later_stages update_state write_back compute_alu exec_jmp
  jmp-Agrees =
      let pc = if cond_holds y.cc (cond_of i.lo0) then i.cval else i.ftpc in
      Agrees-done aok (record (state_of y) { pc = pc }) _ (ground arith) refl
        (λ _.
          ap (λ r. record (state_of y) { r = r; pc = pc })
            (write_port-none _ 0 ∙ write_port-none y.reg _))

  pub alu-Agrees : Agrees (exec_alu i (state_of y)) (later_stages v alu (fetched i) y)
  unfolding later_stages update_state write_back exec_alu
  alu-Agrees =
      let a = read_port_lem y.reg i.hi1 in
      let b = read_port_lem y.reg i.lo1 in
      let op = alu_of i.lo0 in
      let c = compute_cc op (get_reg_val y.reg i.hi1) (get_reg_val y.reg i.lo1) in
      Agrees-done aok
        (record (next y i (
          set_reg_val y.reg i.lo1
            (compute_alu op (get_reg_val y.reg i.hi1) (get_reg_val y.reg i.lo1)))) { cc = c })
        _ (ground arith) refl
        (λ _.
          ap₂ (λ r c. record (next y i r) { cc = c })
            (one_write y.reg i.lo1 _ _ 0 (ap₂ (compute_alu op) a b)) (ap₂ (compute_cc op) a b))

  pub iaddq-Agrees :
      operands_valid iaddq i ≡ true
      → Agrees (exec_iaddq i (state_of y)) (later_stages full iaddq (fetched i) y)
  unfolding later_stages update_state write_back compute_alu exec_iaddq
  iaddq-Agrees o =
      let b = read_port_lem y.reg i.lo1 in
      let d = get_reg_val y.reg i.lo1 in
      Agrees-done aok
        (record (next y i (set_reg_val y.reg i.lo1 (add64 d i.cval))) {
          cc = compute_cc Alu.add i.cval d;
        })
        _ (ground (arith, o)) refl
        (λ _.
          ap₂ (λ r c. record (next y i r) { cc = c })
            (one_write y.reg i.lo1 _ _ 0 (omega (arith, b))) (ap (compute_cc Alu.add i.cval) b))

  pub rmmovq-Agrees :
      operands_valid rmmovq i ≡ true
      → Agrees (exec_rmmovq i (state_of y)) (later_stages v rmmovq (fetched i) y)
  unfolding later_stages update_state write_back compute_alu exec_rmmovq
  rmmovq-Agrees o =
      rw (o1, oc, o)
        (store-Agrees (state_of y) _ (λ e. gen_stat false e true rmmovq)
          (λ m. record (state_of y) { m = m; pc = i.ftpc }) w.mem (address-lt i (state_of y) k)
          (get_reg-lt w.reg i.hi1) same_address same_address (read_port_lem y.reg i.hi1) refl refl
          refl
          (λ m.
            ap (λ r. record (state_of y) { r = r; m = m; pc = i.ftpc })
              (no_write (add64 i.cval (read_port y.reg i.lo1)) 0)))

  pub mrmovq-Agrees :
      operands_valid mrmovq i ≡ true
      → Agrees (exec_mrmovq i (state_of y)) (later_stages v mrmovq (fetched i) y)
  unfolding later_stages update_state write_back compute_alu exec_mrmovq
  mrmovq-Agrees o =
      rw (o1, oc, o)
        (load-Agrees (state_of y) y.mem y.valm _ (λ e. gen_stat false e true mrmovq)
          (λ val. next y i (set_reg_val y.reg i.hi1 val)) w.mem (address-lt i (state_of y) k)
          same_address refl refl
          (λ val. ap (next y i) (
            write_port_lem _ i.hi1 val
            ∙ ap (λ r. set_reg_val r i.hi1 val) (write_port-none y.reg _))))

  pub call-Agrees : Agrees (exec_call i (state_of y)) (later_stages v call (fetched i) y)
  unfolding later_stages update_state write_back compute_alu exec_call
  call-Agrees =
      let d = sub64 (get_reg_val y.reg reg_rsp) 8 in
      let s = record (state_of y) { r = set_reg_val y.reg reg_rsp d } in
      let e : add64 (word_mod - 8) (read_port y.reg reg_rsp) ≡ d =
        omega (arith, read_port_lem y.reg reg_rsp) in
      rw (o1, oc)
        (store-Agrees s _ (λ e. gen_stat false e true call) (λ m. record s { m = m; pc = i.cval })
          w.mem (omega arith) k.next_word e e refl refl refl refl
          (λ m. ap (λ r. record s { r = r; m = m; pc = i.cval }) (one_write y.reg reg_rsp _ d 0 e)))

  pub ret-Agrees : Agrees (exec_ret i (state_of y)) (later_stages v ret (fetched i) y)
  unfolding later_stages update_state write_back compute_alu exec_ret
  ret-Agrees =
      let d = get_reg_val y.reg reg_rsp in
      let e = read_port_lem y.reg reg_rsp in
      load-Agrees (state_of y) y.mem y.valm _ (λ e. gen_stat false e true ret)
        (λ val. record (state_of y) { r = set_reg_val y.reg reg_rsp (add64 d 8); pc = val }) w.mem
        (get_reg-lt w.reg reg_rsp) e refl refl
        (λ val.
          ap (λ r. record (state_of y) { r = r; pc = val })
            (one_write y.reg reg_rsp _ (add64 d 8) val (omega (arith, e))))

  pub pushq-Agrees :
      operands_valid pushq i ≡ true
      → Agrees (exec_pushq i (state_of y)) (later_stages v pushq (fetched i) y)
  unfolding later_stages update_state write_back compute_alu exec_pushq
  pushq-Agrees o =
      let d = sub64 (get_reg_val y.reg reg_rsp) 8 in
      let s = record (state_of y) { r = set_reg_val y.reg reg_rsp d } in
      let e : add64 (word_mod - 8) (read_port y.reg reg_rsp) ≡ d =
        omega (arith, read_port_lem y.reg reg_rsp) in
      rw (o1, o)
        (store-Agrees s _ (λ e. gen_stat false e true pushq) (λ m. record s { m = m; pc = i.ftpc })
          w.mem (omega arith) (get_reg-lt w.reg i.hi1) e e (read_port_lem y.reg i.hi1) refl refl
          refl
          (λ m. ap (λ r. record s { r = r; m = m; pc = i.ftpc }) (one_write y.reg reg_rsp _ d 0 e)))

  pub popq-Agrees :
      operands_valid popq i ≡ true
      → Agrees (exec_popq i (state_of y)) (later_stages v popq (fetched i) y)
  unfolding later_stages update_state write_back compute_alu exec_popq
  popq-Agrees o =
      let d = get_reg_val y.reg reg_rsp in
      let s = record (state_of y) { r = set_reg_val y.reg reg_rsp (add64 d 8) } in
      let e = read_port_lem y.reg reg_rsp in
      rw (o1, o)
        (load-Agrees s y.mem y.valm _ (λ e. gen_stat false e true popq)
          (λ val. record s { r = set_reg_val s.r i.hi1 val; pc = i.ftpc }) w.mem
          (get_reg-lt w.reg reg_rsp) e refl refl
          (λ val.
            ap (next y i) (two_writes y.reg reg_rsp i.hi1 _ (add64 d 8) val (omega (arith, e)))))

  pub nop-Agrees : Agrees (dispatch nop i (state_of y)) (later_stages v nop (fetched i) y)
  unfolding dispatch later_stages update_state write_back
  nop-Agrees = (refl, λ _. ap (next y i) (no_write (compute_alu Alu.add 0 0) 0))

  pub halt-Agrees : Agrees (dispatch halt i (state_of y)) (later_stages v halt (fetched i) y)
  unfolding dispatch later_stages
  halt-Agrees = (refl, λ c. absurd (cc))

  pub pop2-Agrees : Agrees (dispatch pop2 i (state_of y)) (later_stages v pop2 (fetched i) y)
  unfolding dispatch later_stages
  pop2-Agrees = (refl, λ c. absurd (cc))

  pub unknown-Agrees :
      Agrees (dispatch unknown i (state_of y)) (later_stages v unknown (fetched i) y)
  unfolding dispatch later_stages
  unknown-Agrees = (refl, λ c. absurd (cc))

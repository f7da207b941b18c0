-- ===== src/Y86/Machine/Faults.antt =====
-- When `step_state` leaves the array of the memory.
use csapp_3e_study.Base.{
  ℕ, ◌≡◌, refl, arith, inl, inr, Option, some, none, ◌&&◌, if◌then◌else◌, ◌↔◌,
}
use csapp_3e_study.Base.Words.{sub64}
use csapp_3e_study.Y86.Memory.{found, get_reg_val, reg_rsp}
use csapp_3e_study.Y86.Memory.Bounds.{
  Wraps, get_word_cases, set_word_cases, get_word-Wraps, set_word-Wraps,
}
use csapp_3e_study.Y86.Memory.Registers.{get_reg-lt}
use csapp_3e_study.Y86.Machine.{State, Insn, crash, reg_valid}
use csapp_3e_study.Y86.Machine.{
  Itype, halt, nop, rrmovq, irmovq, rmmovq, mrmovq, alu, jmp, call, ret,
}
use csapp_3e_study.Y86.Machine.{pushq, popq, iaddq}
use csapp_3e_study.Y86.Machine.Fetch.{fetch}
use csapp_3e_study.Y86.Machine.Execute.{
  exec_rrmovq, exec_irmovq, exec_rmmovq, exec_mrmovq, exec_alu, exec_jmp, exec_call, exec_ret,
  exec_pushq, exec_popq, exec_iaddq, address, dispatch, step_state,
}
use csapp_3e_study.Y86.Machine.Invariant.{IsState, IsInsn, fetch_lem}
use csapp_3e_study.Y86.Machine.Safety.{address-lt}

-- The address of the word that an instruction moves to or from memory, once its operands are
-- accepted.
abbrev pub data_address : Itype → Insn → State → Option ℕ
data_address rmmovq i s = if i.ok1 && i.okc && reg_valid i.hi1 then some (address i s) else none
data_address mrmovq i s = if i.ok1 && i.okc && reg_valid i.hi1 then some (address i s) else none
data_address call i s = if i.ok1 && i.okc then some (sub64 (get_reg_val s.r reg_rsp) 8) else none
data_address ret i s = some (get_reg_val s.r reg_rsp)
data_address pushq i s =
    if i.ok1 && reg_valid i.hi1 then some (sub64 (get_reg_val s.r reg_rsp) 8) else none
data_address popq i s = if i.ok1 && reg_valid i.hi1 then some (get_reg_val s.r reg_rsp) else none
data_address _ i s = none

-- The instruction at the program counter moves a word at an address from which `pos + 8` wraps.
abbrev pub Overruns : State → Type 0
Overruns s =
    (i : Insn) × (p : ℕ) × (fetch s ≡ found i) × (data_address i.hi0 i s ≡ some p) × Wraps p

module _ {s : State} (v : IsState s) {i : Insn} (w : IsInsn i) where
  rmmovq_crash :
      exec_rmmovq i s ≡ crash → (data_address rmmovq i s ≡ some (address i s)) × Wraps (address i s)
  unfolding exec_rmmovq
  rmmovq_crash e = ground (
    arith,
    set_word_cases v.mem (address i s) (get_reg_val s.r i.hi1) (address-lt i s w)
        (get_reg-lt v.reg i.hi1),
  )

  mrmovq_crash :
      exec_mrmovq i s ≡ crash → (data_address mrmovq i s ≡ some (address i s)) × Wraps (address i s)
  unfolding exec_mrmovq
  mrmovq_crash e = ground (arith, get_word_cases v.mem (address i s) (address-lt i s w))

  call_crash :
      exec_call i s ≡ crash
      → let p = sub64 (get_reg_val s.r reg_rsp) 8 in (data_address call i s ≡ some p) × Wraps p
  unfolding exec_call
  call_crash e = ground (
    arith,
    set_word_cases v.mem (sub64 (get_reg_val s.r reg_rsp) 8) i.ftpc (omega arith) w.next_word,
  )

  pushq_crash :
      exec_pushq i s ≡ crash
      → let p = sub64 (get_reg_val s.r reg_rsp) 8 in (data_address pushq i s ≡ some p) × Wraps p
  unfolding exec_pushq
  pushq_crash e = ground (
    arith,
    set_word_cases v.mem (sub64 (get_reg_val s.r reg_rsp) 8) (get_reg_val s.r i.hi1) (omega arith)
        (get_reg-lt v.reg i.hi1),
  )

  ret_crash : exec_ret i s ≡ crash → Wraps (get_reg_val s.r reg_rsp)
  unfolding exec_ret
  ret_crash e =
      ground (arith, get_word_cases v.mem (get_reg_val s.r reg_rsp) (get_reg-lt v.reg reg_rsp))

  popq_crash :
      exec_popq i s ≡ crash
      → let p = get_reg_val s.r reg_rsp in (data_address popq i s ≡ some p) × Wraps p
  unfolding exec_popq
  popq_crash e =
      ground (arith, get_word_cases v.mem (get_reg_val s.r reg_rsp) (get_reg-lt v.reg reg_rsp))

  dispatch_crash :
      (h : Itype) → dispatch h i s ≡ crash → (p : ℕ) × (data_address h i s ≡ some p) × Wraps p
  unfolding dispatch
  dispatch_crash halt e = absurd (ground arith)
  dispatch_crash nop e = absurd (ground arith)
  dispatch_crash rrmovq e = absurd (unfold exec_rrmovq in ground arith)
  dispatch_crash irmovq e = absurd (unfold exec_irmovq in ground arith)
  dispatch_crash alu e = absurd (unfold exec_alu in ground arith)
  dispatch_crash jmp e = absurd (unfold exec_jmp in ground arith)
  dispatch_crash iaddq e = absurd (unfold exec_iaddq in ground arith)
  dispatch_crash rmmovq e = let (a, b) = rmmovq_crash e in (_, a, b)
  dispatch_crash mrmovq e = let (a, b) = mrmovq_crash e in (_, a, b)
  dispatch_crash call e = let (a, b) = call_crash e in (_, a, b)
  dispatch_crash ret e = (_, refl, ret_crash e)
  dispatch_crash pushq e = let (a, b) = pushq_crash e in (_, a, b)
  dispatch_crash popq e = let (a, b) = popq_crash e in (_, a, b)
  dispatch_crash _ e = absurd (ground arith)

-- The other way round: the bounds tests of the memory do not stop such an access.
module _ {s : State} (v : IsState s) (i : Insn) (p : ℕ) (o : Wraps p) where
  overrun_crash : (h : Itype) → data_address h i s ≡ some p → dispatch h i s ≡ crash
  unfolding dispatch
  overrun_crash halt e = absurd (ground arith)
  overrun_crash rmmovq e =
      unfold exec_rmmovq in ground (arith, set_word-Wraps v.mem p (get_reg_val s.r i.hi1) o)
  overrun_crash mrmovq e = unfold exec_mrmovq in ground (arith, get_word-Wraps v.mem p o)
  overrun_crash call e = unfold exec_call in ground (arith, set_word-Wraps v.mem p i.ftpc o)
  overrun_crash ret e = unfold exec_ret in ground (arith, get_word-Wraps v.mem p o)
  overrun_crash pushq e =
      unfold exec_pushq in ground (arith, set_word-Wraps v.mem p (get_reg_val s.r i.hi1) o)
  overrun_crash popq e = unfold exec_popq in ground (arith, get_word-Wraps v.mem p o)
  overrun_crash _ e = absurd (ground arith)

-- From a valid state `step_state` indexes outside the array exactly if the instruction moves a word
-- at one of the eight addresses just below 2 ^ 63, where the sum in the bounds test wraps.
pub step_state-crash_iff : {s : State} → IsState s → (step_state s ≡ crash) ↔ Overruns s
unfolding step_state
step_state-crash_iff {s} v = (there, back)
  where
    there : step_state s ≡ crash → Overruns s
    there e = elim (fetch_lem v) [
      | inl (f, _) ↦ absurd (ground arith)
      | inr (i, f, w) ↦ let (p, a, o) = dispatch_crash v w i.hi0 (ground arith) in (i, p, f, a, o)
    ]

    back : Overruns s → step_state s ≡ crash
    back (i, p, f, a, o) = rw (f, step_state) (overrun_crash v i p o i.hi0 a)

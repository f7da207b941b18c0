-- ===== src/Y86/Tests.antt =====
-- The simulator on small programs, and the theorems at concrete states.
use csapp_3e_study.Base.{
  ℕ, ◌+◌, ◌-◌, ◌^◌, ◌≤◌, ◌<◌, ◌≡◌, ◌↔◌, ◌⊎◌, refl, arith, true, List, [], ◌∷◌, ◌++◌, ◌==◌,
  if◌then◌else◌, replicate,
}
use csapp_3e_study.Base.Int.{pos}
use csapp_3e_study.Y86.Memory.{
  Mem, found, init_mem, init_reg, get_byte_val, get_word_val, read_loop, set_word_val, write_loop,
  get_reg_val, set_reg_val,
}
use csapp_3e_study.Y86.Memory.Bounds.{IsMem, written}
use csapp_3e_study.Y86.Memory.RoundTrip.{set_word-get_word}
use csapp_3e_study.Y86.Alu.{alu_of, compute_alu, overflow, compute_cc, cond_of, cond_holds, sub, l}
use csapp_3e_study.Y86.Alu.Compare.{relation, cond_holds-sub}
use csapp_3e_study.Y86.Machine.{
  State, done, crash, aok, hlt, Insn, pushq, popq, call, ret, itype_of, need_regids, need_imm,
  new_state,
}
use csapp_3e_study.Y86.Machine.Fetch.{fetch_regids, fetch_imm, fetch}
use csapp_3e_study.Y86.Machine.Execute.{
  exec_rrmovq, exec_irmovq, exec_rmmovq, exec_mrmovq, exec_alu, exec_jmp, exec_call, exec_ret,
  exec_pushq, exec_popq, exec_iaddq, dispatch, step_state,
}
use csapp_3e_study.Y86.Machine.Run.{Report, stopped, after, run_from, run}
use csapp_3e_study.Y86.Machine.Invariant.{IsState}
use csapp_3e_study.Y86.Machine.Safety.{Kept, step_state-Kept}
use csapp_3e_study.Y86.Machine.Faults.{Overruns, step_state-crash_iff}
use csapp_3e_study.Y86.Machine.Stack.{pushq-popq, call-ret}
use csapp_3e_study.Y86.Machine.Programs.{Sound, run_lem}

-- All that a run computes with.
machine : Unit {0}
unfolding init_mem init_reg get_byte_val get_word_val read_loop set_word_val write_loop get_reg_val
    set_reg_val alu_of compute_alu overflow compute_cc cond_of cond_holds itype_of need_regids
    need_imm new_state fetch_regids fetch_imm fetch exec_rrmovq exec_irmovq exec_rmmovq exec_mrmovq
    exec_alu exec_jmp exec_call exec_ret exec_pushq exec_popq exec_iaddq dispatch step_state after
    run_from run
machine = tt

-- irmovq $96, %rsp; irmovq $7, %rax; irmovq $5, %rcx; subq %rcx, %rax; pushq %rax; popq %rdx; halt
abbrev code : List ℕ
code =
    0x30 ∷ 0xf4 ∷ 96 ∷ 0 ∷ 0 ∷ 0 ∷ 0 ∷ 0 ∷ 0 ∷ 0 ∷ 0x30 ∷ 0xf0 ∷ 7 ∷ 0 ∷ 0 ∷ 0 ∷ 0 ∷ 0 ∷ 0 ∷ 0
    ∷ 0x30 ∷ 0xf1 ∷ 5 ∷ 0 ∷ 0 ∷ 0 ∷ 0 ∷ 0 ∷ 0 ∷ 0 ∷ 0x61 ∷ 0x10 ∷ 0xa0 ∷ 0x0f ∷ 0xb0 ∷ 0x2f ∷ 0x00
    ∷ []

abbrev start : State
start = record {
  pc = 0;
  r = record { len = 128; contents = replicate 128 0 };
  m = record { len = 96; contents = code ++ replicate 59 0 };
  cc = 4;
}

-- What a report says of the steps, the status, and two registers.
abbrev summary : Report → ℕ × ℕ × ℕ × ℕ
summary (stopped k hlt s) = (k, s.pc, get_reg_val s.r 2, get_reg_val s.r 4)
summary r = (0, 0, 0, 0)

program_runs : summary (run 100 start) ≡ (7, 36, 2, 96)
unfolding machine
program_runs = refl

start-IsState : IsState start
start-IsState = omega arith

set_word-get_word_example :
    (m' : Mem) × (set_word_val start.m 40 300 ≡ found m')
    × (get_word_val m' 40 ≡ found 300)
    × ((q : ℕ) → (q + 8 ≤ 40) ⊎ (40 + 8 ≤ q) → get_word_val m' q ≡ get_word_val start.m q)
    × ((q : ℕ) → (q < 40) ⊎ (40 + 8 ≤ q) → get_byte_val m' q ≡ get_byte_val start.m q)
    × (m'.len ≡ 96)
    × IsMem m'
set_word-get_word_example = set_word-get_word 40 300 start-IsState.mem (omega arith) (omega arith)

-- 2 - 3, where the subtrahend stands first.
cond_holds-sub_example : cond_holds (compute_cc sub 3 2) l ≡ relation l (pos 2) (pos 3)
cond_holds-sub_example = cond_holds-sub 3 2 (omega arith) (omega arith) l

-- The first instruction of the program.
abbrev after_first : State
after_first = record start { pc = 10; r = written start.r 32 96 }

step_state-Kept_example : Kept start aok after_first
unfolding machine
step_state-Kept_example = step_state-Kept aok after_first start-IsState refl

step_state-crash_iff_example : (step_state start ≡ crash) ↔ Overruns start
step_state-crash_iff_example = step_state-crash_iff start-IsState

-- `ret` with the stack pointer at 2 ^ 63 - 8.
abbrev overrun : State
overrun = record {
  pc = 0;
  r = written start.r 32 (2 ^ 63 - 8);
  m = record { len = 32; contents = 0x90 ∷ replicate 31 0 };
  cc = 4;
}

ret_overruns : step_state overrun ≡ crash
unfolding machine
ret_overruns = refl

-- The program once the stack pointer is set.
abbrev ready : State
ready = record start { pc = 32; r = written start.r 32 96 }

ready-IsState : IsState ready
ready-IsState = omega arith

abbrev push_rax : Insn
push_rax = record {
  hi0 = pushq;
  lo0 = 0;
  ok1 = true;
  hi1 = 0;
  lo1 = 15;
  okc = true;
  cval = 0;
  ftpc = 34;
}

abbrev pop_rdx : Insn
pop_rdx = record push_rax { hi0 = popq; hi1 = 2; ftpc = 36 }

abbrev call_there : Insn
call_there = record {
  hi0 = call;
  lo0 = 0;
  ok1 = true;
  hi1 = 15;
  lo1 = 15;
  okc = true;
  cval = 50;
  ftpc = 41;
}

pushq-popq_example :
    (s1 : State) × (s2 : State) × (dispatch pushq push_rax ready ≡ done aok s1)
    × (dispatch popq pop_rdx s1 ≡ done aok s2)
    × ((q : ℕ)
        → get_reg_val s2.r q ≡ (if q == 2 then get_reg_val ready.r 0 else get_reg_val ready.r q))
    × (s2.pc ≡ 36)
unfolding machine
pushq-popq_example =
    pushq-popq push_rax pop_rdx ready-IsState (omega arith) (omega arith) refl (omega arith) refl
      (omega arith)

call-ret_example :
    (s1 : State) × (s2 : State) × (dispatch call call_there ready ≡ done aok s1)
    × (s1.pc ≡ 50)
    × (dispatch ret call_there s1 ≡ done aok s2)
    × (s2.pc ≡ 41)
    × ((q : ℕ) → get_reg_val s2.r q ≡ get_reg_val ready.r q)
unfolding machine
call-ret_example =
    call-ret call_there call_there ready-IsState (omega arith) (omega arith) (omega arith) refl refl

run_lem_example : Sound start 3 0 (run 3 start)
run_lem_example = run_lem 3 start-IsState

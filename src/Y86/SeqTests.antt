-- ===== src/Y86/SeqTests.antt =====
-- The simulator of the sequential processor on small programs, and the theorems about it there.
use csapp_3e_study.Base.{
  inr, ℕ, ◌≡◌, refl, arith, Bool, true, false, List, [], ◌∷◌, ◌++◌, replicate, Option, some, none,
}
use csapp_3e_study.Y86.Memory.{
  Mem, init_mem, init_reg, clear_mem, get_byte_val, get_word_val, read_loop, set_word_val,
  write_loop, get_reg_val, set_reg_val,
}
use csapp_3e_study.Y86.Memory.Bounds.{IsMem}
use csapp_3e_study.Y86.Memory.Registers.{init_reg-IsReg}
use csapp_3e_study.Y86.Alu.{alu_of, compute_alu, overflow, compute_cc, cond_of, cond_holds}
use csapp_3e_study.Y86.Machine.{
  Stat, bub, aok, adr, done, Itype, iaddq, itype_of, need_regids, need_imm,
}
use csapp_3e_study.Y86.Machine.Fetch.{fetch_regids, fetch_imm, fetch}
use csapp_3e_study.Y86.Machine.Execute.{
  exec_rrmovq, exec_irmovq, exec_rmmovq, exec_mrmovq, exec_alu, exec_jmp, exec_call, exec_ret,
  exec_pushq, exec_popq, exec_iaddq, dispatch, step_state,
}
use csapp_3e_study.Y86.Machine.Run.{after, run_from, run}
use csapp_3e_study.Y86.Machine.Invariant.{IsState}
use csapp_3e_study.Y86.Differences.{copy_mem, word_at, diff_words, diff_mem, diff_reg}
use csapp_3e_study.Y86.Seq.{std, full, Sim, state_of, sim_init, sim_reset}
use csapp_3e_study.Y86.Seq.Step.{
  read_port, write_port, write_back, update_state, read_ids, read_constant, fetch_rest, fetch_stage,
  later_stages, cycle, sim_step, go_on, sim_run_from, sim_run,
}
use csapp_3e_study.Y86.Seq.Check.{loaded_sim, isa_state, isa_match, run_tty_sim}
use csapp_3e_study.Y86.Seq.Fetching.{supports}
use csapp_3e_study.Y86.Seq.Agreement.{Agrees}
use csapp_3e_study.Y86.Seq.Refinement.{sim_step-Agrees}
use csapp_3e_study.Y86.Seq.Runs.{Matches, sim_run-Matches}
use csapp_3e_study.Y86.Seq.Comparison.{start, run_tty_sim_lem}

-- All that a run of either simulator computes with.
machine : Unit {0}
unfolding init_mem init_reg clear_mem get_byte_val get_word_val read_loop set_word_val write_loop
    get_reg_val set_reg_val alu_of compute_alu overflow compute_cc cond_of cond_holds itype_of
    need_regids need_imm fetch_regids fetch_imm fetch exec_rrmovq exec_irmovq exec_rmmovq
    exec_mrmovq exec_alu exec_jmp exec_call exec_ret exec_pushq exec_popq exec_iaddq dispatch
    step_state after run_from run read_port write_port write_back update_state read_ids
    read_constant fetch_rest fetch_stage later_stages cycle sim_step go_on sim_run_from sim_run
    loaded_sim isa_state isa_match run_tty_sim copy_mem word_at diff_words diff_mem diff_reg
    sim_init sim_reset
machine = tt

-- irmovq $64, %rsp; pushq %rsp; popq %rax; iaddq $1, %rax; halt
abbrev program : List ℕ
program =
    48 ∷ 244 ∷ 64 ∷ replicate 7 0
    ++ 160 ∷ 79 ∷ 176 ∷ 15 ∷ 192 ∷ 240 ∷ 1 ∷ replicate 7 0
    ++ 0 ∷ replicate 39 0

abbrev loaded : Mem
loaded = record { len = 64; contents = program }

abbrev empty_mem : Mem
empty_mem = record { len = 0; contents = [] }

abbrev any_sim : Sim
any_sim = record {
  mem = empty_mem;
  reg = empty_mem;
  cc = 0;
  cc_in = 0;
  pc = 0;
  pc_in = 0;
  dest_e = 0;
  dest_m = 0;
  vale = 0;
  valm = 0;
  mem_write = true;
  mem_addr = 0;
  mem_data = 0;
}

-- `halt` is the fifth instruction; with a limit of four the last pending write is not made.
checks :
    (run_tty_sim full 9 (loaded_sim any_sim loaded) ≡ some true)
    × (run_tty_sim full 4 (loaded_sim any_sim loaded) ≡ some false)
    × (run_tty_sim std 9 (loaded_sim any_sim loaded) ≡ some false)
unfolding machine
checks = (refl, refl, refl)

-- `pushq %rax` with an empty stack: `step_state` has moved the stack pointer when the store is
-- refused, and the simulator stops before it makes the pending write.
refused_push :
    run_tty_sim std 9
      (loaded_sim any_sim (record { len = 32; contents = 160 ∷ 15 ∷ replicate 30 0 }))
    ≡ some false
unfolding machine
refused_push = refl

-- The byte of an `rmmovq` is the last of the memory: `step_state` returns STAT_ADR, and the simulator
-- STAT_AOK, with a write to address 0 pending.
abbrev cut_off : Sim
cut_off = record any_sim {
  mem = record { len = 32; contents = replicate 31 7 ++ 64 ∷ [] };
  reg = init_reg;
  dest_e = 15;
  dest_m = 15;
  mem_write = false;
  pc_in = 31;
}

abbrev status_and_write : Option (Stat × Sim) → Stat × Bool × ℕ
status_and_write (some (e, x)) = (e, x.mem_write, x.mem_addr)
status_and_write none = (bub, false, 1)

cut_off_write :
    (status_and_write (sim_step std cut_off) ≡ (aok, true, 0))
    × (step_state (record (state_of cut_off) { pc = 31 })
        ≡ done adr (record (state_of cut_off) { pc = 31 }))
unfolding machine
cut_off_write = (refl, refl)

abbrev begun : Sim
begun = record any_sim {
  mem = loaded;
  reg = init_reg;
  cc = 4;
  cc_in = 4;
  dest_e = 15;
  dest_m = 15;
  mem_write = false;
}

all_supported : (h : Itype) → supports full h ≡ true
all_supported iaddq = refl
all_supported _ = refl

loaded-IsMem : IsMem loaded
loaded-IsMem = omega arith

begun-IsState : IsState (start loaded)
begun-IsState = record {
  reg = init_reg-IsReg;
  mem = loaded-IsMem;
  pc_word = omega arith;
  flags = omega arith;
}

begun_update : update_state begun ≡ some begun
unfolding machine
begun_update = refl

sim_step-Agrees_example : Agrees (step_state (start loaded)) (sim_step full begun)
unfolding machine
sim_step-Agrees_example =
    sim_step-Agrees full begun begun begun_update begun-IsState
      (inr (_, refl, refl, refl, refl, refl))

sim_run-Matches_example : Matches (run 9 (start loaded)) (sim_run full 9 begun)
sim_run-Matches_example =
    sim_run-Matches full 9 begun begun begun_update begun-IsState (λ t i r f. all_supported i.hi0)

run_tty_sim_lem_example : run_tty_sim full 9 (loaded_sim any_sim loaded) ≡ some true
unfolding machine
run_tty_sim_lem_example =
    run_tty_sim_lem full 9 any_sim loaded {k = 5} loaded-IsMem refl (λ t i r f. all_supported i.hi0)
      refl

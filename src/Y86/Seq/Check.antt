-- ===== src/Y86/Seq/Check.antt =====
-- `run_tty_sim` of ssim.c with -t: the simulator runs a program, the instruction set simulator runs
-- it too, and the two are compared.
use csapp_3e_study.Base.{ℕ, Bool, ◌&&◌, not, Option, some, none, ◌==◌, false}
use csapp_3e_study.Y86.Memory.{Mem}
use csapp_3e_study.Y86.Machine.{State}
use csapp_3e_study.Y86.Machine.Run.{stopped, crashed, run}
use csapp_3e_study.Y86.Differences.{copy_mem, diff_mem, diff_reg}
use csapp_3e_study.Y86.Seq.{Version, Sim, sim_init}
use csapp_3e_study.Y86.Seq.Step.{ended, overrun, sim_run}

-- The simulator after `sim_init` and `load_mem`, which leaves the memory `loaded`.
unfoldable pub loaded_sim : Sim → Mem → Sim
loaded_sim x loaded = record (sim_init x) { mem = loaded }

-- `isa_state`: `new_state` leaves its program counter 0.
unfoldable pub isa_state : Sim → State
isa_state x = record { pc = 0; r = copy_mem x.reg; m = copy_mem x.mem; cc = x.cc }

unfoldable pub isa_match : State → Sim → Bool
unfolding diff_reg diff_mem
isa_match s x = not (diff_reg false s.r x.reg).0 && not (diff_mem false s.m x.mem).0 && s.cc == x.cc

-- Both runs and `match`; `none` is an access outside an array.
unfoldable pub run_tty_sim : Version → ℕ → Sim → Option Bool
run_tty_sim v instr_limit x = elim (sim_run v instr_limit x) [
  | ended icount status y ↦ elim (run instr_limit (isa_state x)) [
    | stopped step e s ↦ some (isa_match s y)
    | crashed ↦ none
  ]
  | overrun ↦ none
]

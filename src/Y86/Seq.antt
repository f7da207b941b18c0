-- ===== src/Y86/Seq.antt =====
-- labs/04-architecture/sim/seq/ssim.c, the simulator of the sequential processor (SEQ): its state,
-- and the control logic that seq-std.hcl and seq-full.hcl describe. `plusmode` is 0.
pub mod Control
pub mod Step
pub mod Check
pub mod Ports
pub mod Fetching
pub mod Agreement
pub mod Instructions
pub mod Refinement
pub mod Successes
pub mod Runs
pub mod Comparison
use csapp_3e_study.Base.{ℕ, ◌^◌, Bool, true, false}
use csapp_3e_study.Y86.Memory.{Mem, init_mem, init_reg, clear_mem, reg_none}
use csapp_3e_study.Y86.Alu.{default_cc}
use csapp_3e_study.Y86.Machine.{State}

-- Which of the two files the logic is from.
pub data Version : Type 0 where
  std full : Version

abbrev pub is_full : Version → Bool
is_full std = false
is_full full = true

-- The variables that one cycle leaves to the next. Those with `_in` and `dest_e` to `mem_data` are
-- what the cycle has computed and `update_state` applies.
pub record Sim : Type 0 where
  pub mem : Mem
  pub reg : Mem
  pub cc : ℕ
  pub cc_in : ℕ
  pub pc : ℕ
  pub pc_in : ℕ
  pub dest_e : ℕ
  pub dest_m : ℕ
  pub vale : ℕ
  pub valm : ℕ
  pub mem_write : Bool
  pub mem_addr : ℕ
  pub mem_data : ℕ

-- What of it the programmer sees.
abbrev pub state_of : Sim → State
state_of x = record { pc = x.pc; r = x.reg; m = x.mem; cc = x.cc }

-- `MEM_SIZE`
abbrev pub mem_size : ℕ
mem_size = 2 ^ 13

unfoldable pub sim_reset : Sim → Sim
sim_reset x = record x {
  reg = clear_mem x.reg;
  pc_in = 0;
  cc = default_cc;
  cc_in = default_cc;
  dest_e = reg_none;
  dest_m = reg_none;
  vale = 0;
  valm = 0;
  mem_write = false;
  mem_addr = 0;
  mem_data = 0;
}

unfoldable pub sim_init : Sim → Sim
sim_init x =
    let y = sim_reset (record x { mem = init_mem mem_size; reg = init_reg }) in
    record y { mem = clear_mem y.mem }

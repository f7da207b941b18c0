-- ===== src/Y86/Seq/Comparison.antt =====
-- The comparison that `run_tty_sim` makes with -t.
use csapp_3e_study.Base.{
  ℕ, ◌%◌, ◌≡◌, refl, ap, ap₂, ◌∙◌, sym, subst, arith, true, false, ==_iff, some, inr,
}
use csapp_3e_study.Y86.Memory.{Mem, init_mem, init_reg, clear_mem}
use csapp_3e_study.Y86.Memory.Bounds.{IsMem}
use csapp_3e_study.Y86.Memory.Registers.{init_reg-IsReg}
use csapp_3e_study.Y86.Alu.{default_cc}
use csapp_3e_study.Y86.Machine.{State, hlt}
use csapp_3e_study.Y86.Machine.Invariant.{IsState}
use csapp_3e_study.Y86.Machine.Run.{stopped, run}
use csapp_3e_study.Y86.Differences.{copy_mem, diff_mem, diff_reg}
use csapp_3e_study.Y86.Differences.States.{copy_mem-same, diff_mem_iff}
use csapp_3e_study.Y86.Seq.{Version, Sim, state_of, sim_init, sim_reset}
use csapp_3e_study.Y86.Seq.Step.{sim_run, update_state, write_back, write_port}
use csapp_3e_study.Y86.Seq.Check.{loaded_sim, isa_state, isa_match, run_tty_sim}
use csapp_3e_study.Y86.Seq.Runs.{Supported, Matches, sim_run-Matches}

cleared : clear_mem init_reg ≡ init_reg
unfolding clear_mem init_reg init_mem
cleared = refl

-- The state in which both simulators start.
abbrev pub start : Mem → State
start loaded = record { pc = 0; r = init_reg; m = loaded; cc = default_cc }

start-IsState : (loaded : Mem) → IsMem loaded → IsState (start loaded)
start-IsState loaded w = record {
  reg = init_reg-IsReg;
  mem = w;
  pc_word = omega arith;
  flags = omega arith;
}

same_mem : (m : Mem) → (diff_mem false m m).0 ≡ false
same_mem m = (diff_mem_iff false m m).1 (λ _ _. refl)

isa_match-same :
    (s : State) (z : Sim) → z.mem ≡ s.m → z.reg ≡ s.r → z.cc ≡ s.cc → isa_match s z ≡ true
unfolding isa_match diff_reg
isa_match-same s z em er ec =
    rw (em, er, ec, same_mem s.m, same_mem s.r) ((==_iff s.cc s.cc).1 refl)

module _ (x : Sim) (loaded : Mem) (w : IsMem loaded) (h : loaded.len % 32 ≡ 0) where
  first_update :
      (y : Sim) × (update_state (loaded_sim x loaded) ≡ some y) × (state_of y ≡ start loaded)
  unfolding loaded_sim sim_init sim_reset update_state write_back write_port init_reg init_mem
      clear_mem
  first_update = (_, refl, refl)

  first_isa : isa_state (loaded_sim x loaded) ≡ start loaded
  unfolding loaded_sim sim_init sim_reset isa_state init_reg
  first_isa =
      ap₂ (λ r m. record { pc = 0; r = r; m = m; cc = default_cc })
        (ap copy_mem cleared ∙ copy_mem-same init_reg init_reg-IsReg.mem refl)
        (copy_mem-same loaded w h)

-- The simulator starts as `sim_init` and `load_mem` leave it, with a loaded memory of whole blocks. If
-- the version has every instruction that is read on the way, and a `halt` ends at most `instr_limit`
-- steps of the instruction set simulator, then the comparison with it finds no difference.
pub run_tty_sim_lem :
    (v : Version) (instr_limit : ℕ) (x : Sim) (loaded : Mem) {k : ℕ} {s : State}
    → IsMem loaded
    → loaded.len % 32 ≡ 0
    → Supported v (start loaded)
    → run instr_limit (start loaded) ≡ stopped k hlt s
    → run_tty_sim v instr_limit (loaded_sim x loaded) ≡ some true
unfolding run_tty_sim
run_tty_sim_lem v n x loaded {k} {s} w h p e =
    let (y, u, es) = first_update x loaded w h in
    let back = sym es in
    let m =
      sim_run-Matches v n (loaded_sim x loaded) y u (subst IsState back (start-IsState loaded w))
        (subst (Supported v) back p) in
    let r : run n (state_of y) ≡ stopped k hlt s = ap (run n) es ∙ e in
    let (z, ez, (em, er, ec)) =
      subst (λ t. Matches t (sim_run v n (loaded_sim x loaded))) r m (inr refl) in
    rw (run_tty_sim, ez, first_isa x loaded w h, e) (ap some (isa_match-same s z em er ec))

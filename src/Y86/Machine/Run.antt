-- ===== src/Y86/Machine/Run.antt =====
-- The loop of `main` in labs/04-architecture/sim/misc/yis.c.
use csapp_3e_study.Base.{ℕ, zero, suc, ◌+◌}
use csapp_3e_study.Y86.Machine.{State, Stat, aok, Outcome, done, crash}
use csapp_3e_study.Y86.Machine.Execute.{step_state}

-- What the loop leaves: the steps made, the last status and the state.
pub data Report : Type 0 where
  stopped : ℕ → Stat → State → Report
  crashed : Report

-- The loop's test `e == STAT_AOK`, and what it goes on with.
unfoldable pub after : (ℕ → State → Report) → ℕ → Outcome → Report
after go step (done aok s) = go step s
after go step (done e s) = stopped step e s
after go step crash = crashed

-- `n` steps are left of `max_steps`, and `step` are made; the status so far is STAT_AOK.
unfoldable pub run_from : ℕ → ℕ → State → Report
run_from zero step s = stopped step aok s
run_from (suc n) step s = after (run_from n) (step + 1) (step_state s)

unfoldable pub run : ℕ → State → Report
run max_steps s = run_from max_steps 0 s

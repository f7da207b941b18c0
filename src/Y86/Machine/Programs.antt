-- ===== src/Y86/Machine/Programs.antt =====
-- Whole runs by the loop of yis.c.
use csapp_3e_study.Base.{◌^◌, ℕ, zero, suc, ◌+◌, ◌≤◌, ◌<◌, ◌≡◌, ◌≢◌, refl, ◌∙◌, arith}
use csapp_3e_study.Y86.Memory.Bounds.{init_mem-IsMem}
use csapp_3e_study.Y86.Memory.Registers.{init_reg-IsReg}
use csapp_3e_study.Y86.Machine.{State, Stat, aok, Outcome, done, crash, new_state}
use csapp_3e_study.Y86.Machine.Execute.{step_state}
use csapp_3e_study.Y86.Machine.Invariant.{IsState}
use csapp_3e_study.Y86.Machine.Safety.{step_state-Kept}
use csapp_3e_study.Y86.Machine.Run.{Report, stopped, crashed, after, run_from, run}

-- `k` steps from one state to another: the last has the status, and those before it STAT_AOK. With no
-- step the status is STAT_AOK.
pub data Steps : State → ℕ → Stat → State → Type 0 where
  no_step : {s : State} → Steps s 0 aok s
  last : {s s' : State} {st : Stat} → step_state s ≡ done st s' → st ≢ aok → Steps s 1 st s'
  more :
      {s s1 s' : State} {k : ℕ} {st : Stat}
      → step_state s ≡ done aok s1
      → Steps s1 k st s'
      → Steps s (suc k) st s'

-- What a report after `step` earlier steps and at most `n` more from a state says.
abbrev pub Sound : State → ℕ → ℕ → Report → Type 0
Sound s n step (stopped k st s') =
    ((j : ℕ) × (k ≡ step + j) × (j ≤ n) × (st ≡ aok → j ≡ n) × Steps s j st s')
    × IsState s'
    × (s'.m.len ≡ s.m.len)
Sound s n step crashed =
    (j : ℕ) × (s' : State) × (j < n) × Steps s j aok s' × (step_state s' ≡ crash)

-- One more step before the rest.
widen :
    (r : Report) (n step : ℕ) (s s1 : State)
    → step_state s ≡ done aok s1
    → s1.m.len ≡ s.m.len
    → Sound s1 n (step + 1) r
    → Sound s (suc n) step r
widen crashed n step s s1 e room (j, s', lt, steps, last_step) =
    (suc j, s', omega arith, more e steps, last_step)
widen (stopped k st s') n step s s1 e room ((j, k_is, le, all, steps), valid, same) =
    ((suc j, omega arith, omega arith, λ a. omega (arith, all a), more e steps), valid, same ∙ room)

run_from-Sound : (n step : ℕ) (s : State) → IsState s → Sound s n step (run_from n step s)
unfolding run_from after
run_from-Sound zero step s v = ((0, omega arith, omega arith, λ e. omega arith, no_step), v, refl)
run_from-Sound (suc n) step s v = go (run_from-Sound n (step + 1)) (step_state s) refl
  where
    go :
        ((s' : State) → IsState s' → Sound s' n (step + 1) (run_from n (step + 1) s'))
        → (o : Outcome) → step_state s ≡ o
        → Sound s (suc n) step (after (run_from n) (step + 1) o)
    go ih crash e = (0, s, omega arith, no_step, e)
    go ih (done aok s') e =
        let k = step_state-Kept aok s' v e in
        widen (run_from n (step + 1) s') n step s s' e k.room (ih s' k.valid)
    go ih (done st s') e =
        let k = step_state-Kept _ s' v e in
        ((1, omega arith, omega arith, λ h. absurd (cc), last e (λ h. cc)), k.valid, k.room)

-- The loop of yis.c, started in a valid state. Where it stops, with a number of steps, a status and a
-- state, these are those of so many steps of `step_state`, each but the last with STAT_AOK; the number is
-- at most `max_steps`, and is `max_steps` if the last status is STAT_AOK; and the state is valid and has
-- as much memory. Where it leaves an array, fewer than `max_steps` steps with STAT_AOK lead to a state in
-- which `step_state` does.
pub run_lem : (max_steps : ℕ) {s : State} → IsState s → Sound s max_steps 0 (run max_steps s)
unfolding run
run_lem max_steps {s} v = run_from-Sound max_steps 0 s v

-- A machine that `new_state` makes with a memory of `memlen` bytes, and room for a block more below
-- 2 ^ 31, is valid.
pub new_state-IsState :
    (memlen : ℕ)
    → memlen + 32 ≤ 2 ^ 31
    → IsState (new_state memlen) × (memlen ≤ (new_state memlen).m.len)
unfolding new_state
new_state-IsState memlen h =
    let (w, lo, hi) = init_mem-IsMem memlen h in
    (record { reg = init_reg-IsReg; mem = w; pc_word = omega arith; flags = omega arith }, lo)

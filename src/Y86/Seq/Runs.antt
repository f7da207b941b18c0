-- ===== src/Y86/Seq/Runs.antt =====
-- Whole runs: `sim_run` of the simulator against the loop of yis.c.
use csapp_3e_study.Base.{
  ℕ, zero, suc, ◌+◌, ◌≡◌, refl, ap, ◌∙◌, sym, subst, true, Option, some, none, inl, inr, arith, ◌⊎◌,
}
use csapp_3e_study.Y86.Memory.{found}
use csapp_3e_study.Y86.Machine.{State, Stat, aok, hlt, Outcome, done, crash, Insn}
use csapp_3e_study.Y86.Machine.Fetch.{fetch}
use csapp_3e_study.Y86.Machine.Execute.{step_state}
use csapp_3e_study.Y86.Machine.Invariant.{IsState, fetch_lem}
use csapp_3e_study.Y86.Machine.Safety.{step_state-Kept}
use csapp_3e_study.Y86.Machine.Run.{Report, stopped, crashed, after, run_from, run}
use csapp_3e_study.Y86.Seq.{Version, Sim, state_of}
use csapp_3e_study.Y86.Seq.Step.{
  update_state, cycle, sim_step, Ending, ended, go_on, sim_run_from, sim_run,
}
use csapp_3e_study.Y86.Seq.Fetching.{supports}
use csapp_3e_study.Y86.Seq.Agreement.{Agrees, Shows}
use csapp_3e_study.Y86.Seq.Refinement.{sim_step-updated, cycle-Agrees}
use csapp_3e_study.Y86.Seq.Successes.{step_state-Complete, cycle_halt}

-- Some steps, each with STAT_AOK, lead from a state to another.
pub data Reaches : State → State → Type 0 where
  here : {s : State} → Reaches s s
  step : {s s' t : State} → step_state s ≡ done aok s' → Reaches s' t → Reaches s t

-- The version has every instruction that is read on the way.
abbrev pub Supported : Version → State → Type 0
Supported v s = (t : State) (i : Insn) → Reaches s t → fetch t ≡ found i → supports v i.hi0 ≡ true

-- What the simulator `z` is where the steps end: after a `halt` it is in the state, and after
-- STAT_AOK its pending writes still lead there.
abbrev pub Ends : Sim → Stat → State → Type 0
Ends z hlt s = (z.mem ≡ s.m) × (z.reg ≡ s.r) × (z.cc ≡ s.cc)
Ends z aok s = Shows (update_state z) s
Ends z _ s = Unit

-- The pending writes of a simulator that shows a state.
shown : {o : Option Sim} {s : State} → Shows o s → (y : Sim) × (o ≡ some y) × (state_of y ≡ s)
shown {o = some y} e = (y, refl, e)
shown {o = none} e = absurd e

agreed :
    (s : State) {r : Option (Stat × Sim)}
    → Agrees (done aok s) r
    → (x : Sim) × (r ≡ some (aok, x)) × Shows (update_state x) s
agreed s {r = some (e, x)} (es, h) = (x, ap (λ e. some (e, x)) es, h refl)
agreed s {r = none} h = absurd h

-- A cycle beside a step that succeeds.
cycle-aok :
    (v : Version) (x y : Sim) (s : State)
    → update_state x ≡ some y
    → IsState (state_of y)
    → Supported v (state_of y)
    → step_state (state_of y) ≡ done aok s
    → (x' : Sim) × (sim_step v x ≡ some (aok, x')) × Shows (update_state x') s
cycle-aok v x y s u w p e = elim (fetch_lem w) [
  | inl (f, _) ↦ absurd (unfold step_state in ground arith)
  | inr (i, f, _) ↦
      let c = step_state-Complete v (state_of y) s i w e f (p _ i here f) in
      let (x', ex, h) = agreed s (subst (λ o. Agrees o (cycle v y)) e (cycle-Agrees v y w c)) in
      (x', sim_step-updated v x u ∙ ex, h)
]

-- A run of the simulator beside a run of steps that ends with STAT_AOK or STAT_HLT: as many cycles
-- as steps, the same status, and the state.
abbrev pub Matches : Report → Ending → Type 0
Matches (stopped k st s) e = (st ≡ aok) ⊎ (st ≡ hlt) → (z : Sim) × (e ≡ ended k st z) × Ends z st s
Matches crashed e = Unit

sim_run_from-Matches :
    (v : Version) (n icount : ℕ) (x y : Sim)
    → update_state x ≡ some y
    → IsState (state_of y)
    → Supported v (state_of y)
    → Matches (run_from n icount (state_of y)) (sim_run_from v n icount x)
unfolding run_from sim_run_from after go_on
sim_run_from-Matches v zero icount x y u w p = λ _. (x, refl, rw u refl)
sim_run_from-Matches v (suc n) icount x y u w p =
    go (sim_run_from-Matches v n (icount + 1)) (step_state (state_of y)) refl
  where
    go :
        ((x y : Sim)
          → update_state x ≡ some y
          → IsState (state_of y)
          → Supported v (state_of y)
          → Matches (run_from n (icount + 1) (state_of y)) (sim_run_from v n (icount + 1) x))
        → (o : Outcome) → step_state (state_of y) ≡ o
        → Matches (after (run_from n) (icount + 1) o) (sim_run_from v (suc n) icount x)
    go ih crash e = tt
    go ih (done hlt s) e = λ _.
        let (z, ez, es, em, er, ec) = cycle_halt v y s w e in
        let back = sym es in
        (
          z,
          ap (go_on (sim_run_from v n) (icount + 1)) (sim_step-updated v x u ∙ ez),
          (em ∙ ap (λ t. t.m) back, er ∙ ap (λ t. t.r) back, ec ∙ ap (λ t. t.cc) back),
        )
    go ih (done aok s) e =
        let (x', ex, h) = cycle-aok v x y s u w p e in
        let (y', u', es) = shown h in
        subst (λ r. Matches (run_from n (icount + 1) s) r)
          (sym (ap (go_on (sim_run_from v n) (icount + 1)) ex))
          (subst (λ t. Matches (run_from n (icount + 1) t) (sim_run_from v n (icount + 1) x')) es
            (ih x' y' u' (subst IsState (sym es) (step_state-Kept aok s w e).valid)
              (λ t i r f. p t i (step e (subst (λ a. Reaches a t) es r)) f)))
    go ih (done st s) e = λ q. elim q [ inl c ↦ absurd (cc) | inr c ↦ absurd (cc) ]

-- Where the pending writes of the simulator lead to a valid state, and the version has every
-- instruction that is read on the way: if `n` steps from that state at most end with STAT_AOK or
-- STAT_HLT, then `sim_run` makes as many cycles as there are steps and ends with the same status.
-- After a `halt` its memory, registers and condition codes are those of the steps; after STAT_AOK its
-- pending writes lead to the state of the steps.
pub sim_run-Matches :
    (v : Version) (n : ℕ) (x y : Sim)
    → update_state x ≡ some y
    → IsState (state_of y)
    → Supported v (state_of y)
    → Matches (run n (state_of y)) (sim_run v n x)
unfolding run sim_run
sim_run-Matches v n x y = sim_run_from-Matches v n 0 x y

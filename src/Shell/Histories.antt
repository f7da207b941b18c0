-- ===== src/Shell/Histories.antt =====
-- The table along a history of the shell: jobs started by `eval`, children reaped by `waitfg` and
-- `sigchld_handler`, and jobs continued by `fg` and `bg`.
use csapp_3e_study.Base.{
  ℕ, ◌<◌, ◌≡◌, ◌≢◌, ◌⊎◌, inl, inr, refl, sym, subst, arith, Bool, true, List, [], ◌∷◌, none,
  length-replicate,
}
use csapp_3e_study.Base.Tables.{All, All-replicate}
use csapp_3e_study.Base.Int.{ℤ, pos}
use csapp_3e_study.Shell.Jobs.{
  JobState, undef, Shell, max_jobs, cleared, initjobs, getjobpid, addjob,
}
use csapp_3e_study.Shell.Jobs.Table.{count_pid, Slot, IsShell}
use csapp_3e_study.Shell.Jobs.Changes.{getjobpid_cases, addjob_lem}
use csapp_3e_study.Shell.Control.{Status, reap_child, do_bgfg, wait_childs}
use csapp_3e_study.Shell.Reaping.{once, reap_child_lem}
use csapp_3e_study.Shell.Continuing.{do_bgfg_lem}

-- One call that changes the table. A process that `fork` returns is not in the table, since the
-- kernel keeps the number of a child until it is reaped; an argument 0 of fg and bg is left out.
pub data Step (s : Shell) : Shell → Type 0 where
  started :
      (pid : ℕ) (state : JobState) (cmdline : List ℕ)
      → 0 < pid
      → state ≢ undef
      → count_pid pid s.jobs ≡ 0
      → Step s (addjob s pid state cmdline).1
  waited :
      (statuses : List (ℕ × Status))
      → All (λ c. 0 < c.0) statuses
      → Step s (wait_childs s statuses).0
  continued :
      (to_bg arg_jid : Bool) (id : ℤ)
      → (arg_jid ≡ true) ⊎ (id ≢ pos 0)
      → Step s (do_bgfg s to_bg arg_jid id).1

pub data Reached : Shell → Type 0 where
  initial : Reached initjobs
  next : {s s' : Shell} → Reached s → Step s s' → Reached s'

pub reap-none :
    (s : Shell) (pid : ℕ) (status : Status)
    → getjobpid s (pos pid) ≡ none
    → (reap_child s pid status).0 ≡ s
unfolding reap_child
reap-none s pid status e = rw (e, reap_child)

pub reap_child-IsShell :
    (s : Shell) (pid : ℕ) (status : Status)
    → IsShell s
    → 0 < pid
    → IsShell (reap_child s pid status).0
reap_child-IsShell s pid status w h = elim (getjobpid_cases s pid) [
  | inl (e, z) ↦ subst IsShell (sym (reap-none s pid status e)) w
  | inr (k, j, e, at, q) ↦
      (reap_child_lem s pid status w h
        (subst (λ p. count_pid p s.jobs ≡ 1) q (once s k j w at (omega (arith, q))))).0
]

pub wait_childs-IsShell :
    (s : Shell) (statuses : List (ℕ × Status))
    → All (λ c. 0 < c.0) statuses
    → IsShell s
    → IsShell (wait_childs s statuses).0
unfolding wait_childs
wait_childs-IsShell s [] h w = w
wait_childs-IsShell s ((pid, status) ∷ rest) h w =
    wait_childs-IsShell (reap_child s pid status).0 rest h.1 (reap_child-IsShell s pid status w h.0)

initjobs-IsShell : IsShell initjobs
unfolding initjobs
initjobs-IsShell = record {
  size = length-replicate max_jobs cleared;
  slots = All-replicate Slot max_jobs cleared (inl refl);
  pids = λ p h. ground arith;
  next = omega arith;
}

Step-IsShell : {s s' : Shell} → Step s s' → IsShell s → IsShell s'
Step-IsShell {s} (started pid state cmdline h n z) w =
    elim (addjob_lem s pid state cmdline w h n z) [
      | inl (full, e) ↦ subst (λ r. IsShell r.1) (sym e) w
      | inr (k, s', e, at, jobs, counts, valid) ↦ subst (λ r. IsShell r.1) (sym e) valid
    ]
Step-IsShell {s} (waited statuses h) w = wait_childs-IsShell s statuses h w
Step-IsShell {s} (continued to_bg arg_jid id ok) w = (do_bgfg_lem s to_bg arg_jid id w ok).1

-- Along every history that starts with the empty table, in which started processes are new and fg
-- and bg are not given process 0, the table is well formed: sixteen entries, each cleared or with a
-- process, a job number and a state, no process twice, and a next number above 0.
pub Reached-IsShell : {s : Shell} → Reached s → IsShell s
Reached-IsShell initial = initjobs-IsShell
Reached-IsShell (next r step) = Step-IsShell step (Reached-IsShell r)

-- ===== src/Shell/Eval/Foreground.antt =====
-- No job is in the foreground between two command lines.
use csapp_3e_study.Base.{
  ℕ, zero, suc, ◌+◌, ◌≤◌, ◌<◌, ◌≡◌, ◌∙◌, inl, inr, ap, sym, subst, arith, true, List, [], ◌∷◌,
  Option, some, none, set,
}
use csapp_3e_study.Base.Tables.{At, All}
use csapp_3e_study.Base.Int.{pos}
use csapp_3e_study.Shell.Jobs.{Job, st, Shell, cleared, is_fg, getjobpid, deletejob}
use csapp_3e_study.Shell.Jobs.Table.{one_if, count_pid, count_fg, IsShell}
use csapp_3e_study.Shell.Jobs.Changes.{getjobpid_cases, count_fg-set, deletejob_lem}
use csapp_3e_study.Shell.Control.{Status, exited, signaled, stopped, reap_child, wait_childs}
use csapp_3e_study.Shell.Reaping.{reap_stopped, reap_signaled, reap_exited}
use csapp_3e_study.Shell.Histories.{reap-none, reap_child-IsShell, wait_childs-IsShell}
use csapp_3e_study.Shell.Eval.{waitfg}

-- Only the process is in the foreground.
abbrev pub FgOnly : ℕ → List Job → Type 0
FgOnly pid = All (λ j. is_fg j.state ≡ true → j.pid ≡ pid)

pub no_fg-FgOnly : (pid : ℕ) (js : List Job) → count_fg js ≡ 0 → FgOnly pid js
no_fg-FgOnly pid [] h = tt
no_fg-FgOnly pid (j ∷ js) h = (λ e. absurd (ground arith), no_fg-FgOnly pid js (omega arith))

count_fg-le : (pid : ℕ) (js : List Job) → FgOnly pid js → count_fg js ≤ count_pid pid js
count_fg-le pid [] h = omega arith
count_fg-le pid (j ∷ js) h = ground (arith, h.0, count_fg-le pid js h.1)

-- The entry of the process is the only one that can be in the foreground.
count_fg-At :
    (pid : ℕ) (js : List Job) (k : ℕ) (j : Job)
    → FgOnly pid js
    → At js k j
    → j.pid ≡ pid
    → count_fg js + 1 ≤ count_pid pid js + one_if (is_fg j.state)
count_fg-At pid [] k j h at e = cc
count_fg-At pid (x ∷ js) zero j h at e = ground (arith, count_fg-le pid js h.1)
count_fg-At pid (x ∷ js) (suc k) j h at e = ground (arith, h.0, count_fg-At pid js k j h.1 at e)

-- What a command line leaves: no job in the foreground, or only the one that is waited for.
abbrev pub Settled : Option ℕ → Shell → Type 0
Settled none s = count_fg s.jobs ≡ 0
Settled (some pid) s = (0 < pid) × FgOnly pid s.jobs

-- Reaping takes the process out of the foreground, and changes nothing else about it.
module _ (s : Shell) (w : IsShell s) where
  deleted_fg :
      (k : ℕ) (j : Job)
      → At s.jobs k j
      → count_fg (deletejob s k).jobs + one_if (is_fg j.state) ≡ count_fg s.jobs
  deleted_fg k j at =
      let gone : (deletejob s k).jobs ≡ set s.jobs k cleared = (deletejob_lem s k j w at).0 in
      subst (λ js. count_fg js + one_if (is_fg j.state) ≡ count_fg s.jobs) (sym gone)
        (omega (arith, count_fg-set s k j cleared at))

  reap_found :
      (status : Status) (k : ℕ) (j : Job)
      → 0 < j.pid
      → getjobpid s (pos j.pid) ≡ some k
      → At s.jobs k j
      → count_fg (reap_child s j.pid status).0.jobs + one_if (is_fg j.state) ≡ count_fg s.jobs
  reap_found (stopped sig) k j h e at =
      subst (λ (x : Shell). count_fg x.jobs + one_if (is_fg j.state) ≡ count_fg s.jobs)
        (sym (reap_stopped s k j w at h e sig))
        (omega (arith, count_fg-set s k j (record j { state = st }) at))
  reap_found (signaled sig) k j h e at =
      subst (λ (x : Shell). count_fg x.jobs + one_if (is_fg j.state) ≡ count_fg s.jobs)
        (sym (reap_signaled s k j w at h e sig)) (deleted_fg k j at)
  reap_found exited k j h e at =
      subst (λ (x : Shell). count_fg x.jobs + one_if (is_fg j.state) ≡ count_fg s.jobs)
        (sym (reap_exited s k j w at h e)) (deleted_fg k j at)

  count_fg-reap_child :
      (pid : ℕ) (status : Status)
      → 0 < pid
      → count_fg (reap_child s pid status).0.jobs ≤ count_fg s.jobs
  count_fg-reap_child pid status h = elim (getjobpid_cases s pid) [
    | inl (e, z) ↦
        subst (λ (x : Shell). count_fg x.jobs ≤ count_fg s.jobs) (sym (reap-none s pid status e))
          (omega arith)
    | inr (k, j, e, at, q) ↦
        subst (λ p. count_fg (reap_child s p status).0.jobs ≤ count_fg s.jobs) q
          (omega (
            arith,
            reap_found status k j (omega (arith, q)) (ap (λ p. getjobpid s (pos p)) q ∙ e) at,
          ))
  ]

  -- The process that was waited for is no more in the foreground, nor is any other.
  reap_child-settles :
      (pid : ℕ) (status : Status)
      → Settled (some pid) s
      → count_fg (reap_child s pid status).0.jobs ≡ 0
  reap_child-settles pid status (h, only) = elim (getjobpid_cases s pid) [
    | inl (e, z) ↦
        subst (λ (x : Shell). count_fg x.jobs ≡ 0) (sym (reap-none s pid status e))
          (omega (arith, count_fg-le pid s.jobs only))
    | inr (k, j, e, at, q) ↦
        subst (λ p. count_fg (reap_child s p status).0.jobs ≡ 0) q
          (omega (
            arith,
            reap_found status k j (omega (arith, q)) (ap (λ p. getjobpid s (pos p)) q ∙ e) at,
            count_fg-At pid s.jobs k j only at q,
            w.pids pid h,
          ))
  ]

count_fg-wait_childs :
    (s : Shell) (statuses : List (ℕ × Status))
    → IsShell s
    → All (λ c. 0 < c.0) statuses
    → count_fg (wait_childs s statuses).0.jobs ≤ count_fg s.jobs
unfolding wait_childs
count_fg-wait_childs s [] w h = omega arith
count_fg-wait_childs s ((pid, status) ∷ rest) w h = omega (
  arith,
  count_fg-reap_child s w pid status h.0,
  count_fg-wait_childs (reap_child s pid status).0 rest (reap_child-IsShell s pid status w h.0) h.1,
)

-- After `waitfg` with a status of the process, no job is in the foreground.
pub waitfg-settles :
    (s : Shell) (pid : ℕ) (status : Status) (others : List (ℕ × Status))
    → IsShell s
    → Settled (some pid) s
    → All (λ c. 0 < c.0) others
    → IsShell (waitfg s pid (some status) others).0
      × (count_fg (waitfg s pid (some status) others).0.jobs ≡ 0)
unfolding waitfg
waitfg-settles s pid status others w (h, only) others_pos =
    let valid = reap_child-IsShell s pid status w h in
    (
      wait_childs-IsShell (reap_child s pid status).0 others others_pos valid,
      omega (
        arith,
        reap_child-settles s w pid status (h, only),
        count_fg-wait_childs (reap_child s pid status).0 others valid others_pos,
      ),
    )

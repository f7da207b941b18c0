-- ===== src/Shell/Reaping.antt =====
-- What reaping a child does to the table, on every status.
use csapp_3e_study.Base.{
  ℕ, ◌<◌, ◌≡◌, ◌≢◌, ◌∙◌, refl, ap, subst, sym, arith, some, ◌==◌, set, length-set, inl, inr,
}
use csapp_3e_study.Base.Tables.{At, All-set, All-at, le-total, get_or-At}
use csapp_3e_study.Base.Int.{pos}
use csapp_3e_study.Shell.Jobs.{Job, undef, st, Shell, cleared, getjobpid, deletejob}
use csapp_3e_study.Shell.Jobs.Table.{one_if, count_pid, Slot, IsShell}
use csapp_3e_study.Shell.Jobs.Changes.{getjobpid_cases, count_pid-set, deletejob_lem}
use csapp_3e_study.Shell.Control.{Status, exited, signaled, stopped, reap_child}

-- How many entries of the table keep the process.
abbrev pub left : Status → ℕ
left (stopped sig) = 1
left (signaled sig) = 0
left exited = 0

-- The process of an entry of the table is in it once.
pub once :
    (s : Shell) (k : ℕ) (j : Job)
    → IsShell s
    → At s.jobs k j
    → 0 < j.pid
    → count_pid j.pid s.jobs ≡ 1
once s k j w at h =
    ground (arith, le-total (λ x. one_if (x.pid == j.pid)) s.jobs k j at, w.pids j.pid h)

pub taken : (j : Job) → Slot j → 0 < j.pid → (0 < j.pid) × (0 < j.jid) × (j.state ≢ undef)
taken j (inl e) h = absurd (omega (arith, ap (λ x. x.pid) e))
taken j (inr t) h = t

-- What becomes of the job of the process.
abbrev pub reaped_job : Status → Job → Job
reaped_job (stopped sig) j = record j { state = st }
reaped_job (signaled sig) j = cleared
reaped_job exited j = cleared

-- What reaping leaves of a process that is in the table.
abbrev pub Reaped : Shell → ℕ → Status → Shell → Type 0
Reaped s pid status s' =
    IsShell s'
    × (count_pid pid s'.jobs ≡ left status)
    × ((p : ℕ) → 0 < p → p ≢ pid → count_pid p s'.jobs ≡ count_pid p s.jobs)
    × ((k : ℕ) × (j : Job) × At s.jobs k j
        × (j.pid ≡ pid)
        × (s'.jobs ≡ set s.jobs k (reaped_job status j)))

module _ (s : Shell) (k : ℕ) (j : Job) (w : IsShell s) (at : At s.jobs k j) (h : 0 < j.pid) where
  stop_IsShell : IsShell (record s { jobs = set s.jobs k (record j { state = st }) })
  stop_IsShell = record {
    size = length-set s.jobs k _ ∙ w.size;
    slots = All-set Slot s.jobs k _ w.slots (inr (h, occupied.1, λ e. cc));
    pids = λ p hp. omega (arith, count_pid-set s k j (record j { state = st }) at p, w.pids p hp);
    next = w.next;
  }
    where
      occupied : (0 < j.pid) × (0 < j.jid) × (j.state ≢ undef)
      occupied = taken j (All-at Slot s.jobs k j at w.slots) h

  deleted : Reaped s j.pid exited (deletejob s k)
  deleted =
      let (e, above, counts, valid) = deletejob_lem s k j w at in
      (
        valid,
        ground (arith, counts j.pid h, once s k j w at h),
        λ p hp n. ground (arith, counts p hp),
        (k, j, at, refl, e),
      )

  module _ (found : getjobpid s (pos j.pid) ≡ some k) where
    pub reap_stopped :
        (sig : ℕ)
        → (reap_child s j.pid (stopped sig)).0
          ≡ record s { jobs = set s.jobs k (record j { state = st }) }
    unfolding reap_child
    reap_stopped sig = rw (found, get_or-At s.jobs k j cleared at, reap_child)

    pub reap_signaled : (sig : ℕ) → (reap_child s j.pid (signaled sig)).0 ≡ deletejob s k
    unfolding reap_child
    reap_signaled sig = rw (found, reap_child)

    pub reap_exited : (reap_child s j.pid exited).0 ≡ deletejob s k
    unfolding reap_child
    reap_exited = rw (found, reap_child)

    reap_at : (status : Status) → Reaped s j.pid status (reap_child s j.pid status).0
    reap_at (stopped sig) = subst (Reaped s j.pid (stopped sig)) (sym (reap_stopped sig)) (
      stop_IsShell,
      ground (arith, count_pid-set s k j (record j { state = st }) at j.pid, once s k j w at h),
      λ p hp n. omega (arith, count_pid-set s k j (record j { state = st }) at p),
      (k, j, at, refl, refl),
    )
    reap_at (signaled sig) = subst (Reaped s j.pid (signaled sig)) (sym (reap_signaled sig)) deleted
    reap_at exited = subst (Reaped s j.pid exited) (sym reap_exited) deleted

-- Reaping a process above 0 that is once in a well-formed table changes one entry of the table, which is
-- a job of the process: it becomes stopped, and is otherwise as it was, if the process stopped, and is
-- cleared if it ended. The table stays well formed, and the process is in it, once, exactly if it stopped.
pub reap_child_lem :
    (s : Shell) (pid : ℕ) (status : Status)
    → IsShell s
    → 0 < pid
    → count_pid pid s.jobs ≡ 1
    → Reaped s pid status (reap_child s pid status).0
reap_child_lem s pid status w h c = elim (getjobpid_cases s pid) [
  | inl (e, z) ↦ absurd (omega arith)
  | inr (k, j, e, at, q) ↦
      subst (λ x. Reaped s x status (reap_child s x status).0) q
        (reap_at s k j w at (omega arith) (ap (λ x. getjobpid s (pos x)) q ∙ e) status)
]

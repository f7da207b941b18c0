-- ===== src/Shell/Jobs/Changes.antt =====
-- What `addjob` and `deletejob` do to the table.
use csapp_3e_study.Base.{
  ℕ, ◌+◌, ◌≤◌, ◌<◌, ◌≡◌, ◌≢◌, refl, ap, ◌∙◌, arith, List, [], ◌∷◌, some, none, ◌==◌, ltb,
  if◌then◌else◌, get_or, set, length-set, inl, inr, ◌⊎◌, ==_iff,
}
use csapp_3e_study.Base.Tables.{At, All, All-set, All-at, All-map, total-set, get_or-At}
use csapp_3e_study.Base.Int.{pos}
use csapp_3e_study.Shell.Jobs.{
  Job, JobState, undef, Shell, max_jobs, cleared, too_many_jobs, is_fg, getjobpid, maxjob, addjob,
  deletejob,
}
use csapp_3e_study.Shell.Jobs.Table.{
  one_if, count_pid, count_fg, Slot, IsShell, find_cases, total-none, maxjob_cases,
}

-- A write to the entry `k` of the table.
module _ (s : Shell) (k : ℕ) (j j' : Job) (at : At s.jobs k j) where
  pub count_pid-set :
      (p : ℕ)
      → count_pid p (set s.jobs k j') + one_if (j.pid == p)
        ≡ count_pid p s.jobs + one_if (j'.pid == p)
  count_pid-set p = total-set (λ x. one_if (x.pid == p)) s.jobs k j j' at

  pub count_fg-set :
      count_fg (set s.jobs k j') + one_if (is_fg j.state)
      ≡ count_fg s.jobs + one_if (is_fg j'.state)
  count_fg-set = total-set (λ x. one_if (is_fg x.state)) s.jobs k j j' at

-- `getjobpid` at a process number: an entry with it, or none is in the table.
pub getjobpid_cases :
    (s : Shell) (p : ℕ)
    → ((getjobpid s (pos p) ≡ none) × (count_pid p s.jobs ≡ 0))
      ⊎ ((k : ℕ) × (j : Job) × (getjobpid s (pos p) ≡ some k) × At s.jobs k j × (j.pid ≡ p))
unfolding getjobpid
getjobpid_cases s p = elim (find_cases (λ j. j.pid == p) s.jobs 0) [
  | inl (e, all) ↦ inl (e, total-none (λ j. j.pid == p) s.jobs all)
  | inr (k, j, e, at, t) ↦ inr (k, j, e ∙ ap some (omega arith), at, (==_iff j.pid p).0 t)
]

-- An entry with process 0 is a cleared one.
free_cleared : (j : Job) → Slot j → j.pid ≡ 0 → j ≡ cleared
free_cleared j (inl e) z = e
free_cleared j (inr b) z = absurd (omega arith)

-- Adding a process above 0 that is not in a well-formed table, in a state other than UNDEF: with no
-- free entry nothing changes but for the message; otherwise the job stands in an entry that was free, with the next number, every other process is in the table as before, and
-- the table stays well formed.
pub addjob_lem :
    (s : Shell) (pid : ℕ) (state : JobState) (cmdline : List ℕ)
    → IsShell s
    → 0 < pid
    → state ≢ undef
    → count_pid pid s.jobs ≡ 0
    → ((count_pid 0 s.jobs ≡ 0) × (addjob s pid state cmdline ≡ (none, s, too_many_jobs ∷ [])))
      ⊎ ((k : ℕ) × (s' : Shell) × (addjob s pid state cmdline ≡ (some k, s', []))
          × At s.jobs k cleared
          × (s'.jobs
              ≡ set s.jobs k
                  (record { pid = pid; jid = s.nextjid; state = state; cmdline = cmdline }))
          × ((p : ℕ) → 0 < p → count_pid p s'.jobs ≡ count_pid p s.jobs + one_if (pid == p))
          × IsShell s')
unfolding addjob
addjob_lem s pid state cmdline w h n z = elim (getjobpid_cases s 0) [
  | inl (e, full) ↦ inl (full, rw (e, addjob))
  | inr (k, j, e, at, q) ↦
      let new : Job = record { pid = pid; jid = s.nextjid; state = state; cmdline = cmdline } in
      let free = free_cleared j (All-at Slot s.jobs k j at w.slots) q in
      let at' : At s.jobs k cleared = at ∙ ap some free in
      let counts : (p : ℕ)
          → 0 < p
          → count_pid p (set s.jobs k new) ≡ count_pid p s.jobs + one_if (pid == p) =
        λ p hp. ground (arith, count_pid-set s k cleared new at' p) in
      let next : ℕ = if ltb max_jobs (s.nextjid + 1) then 1 else s.nextjid + 1 in
      let s' : Shell = record { jobs = set s.jobs k new; nextjid = next } in
      inr (
        k,
        s',
        rw (e, addjob),
        at',
        refl,
        counts,
        record {
          size = length-set s.jobs k new ∙ w.size;
          slots = All-set Slot s.jobs k new w.slots (inr (h, w.next, n));
          pids = λ p hp. ground (arith, counts p hp, w.pids p hp, z);
          next = ground arith;
        },
      )
]

-- The next number that `deletejob` chooses.
abbrev next_of : Shell → ℕ
next_of s = elim (maxjob s) [ none ↦ 1 | some m ↦ (get_or s.jobs m cleared).jid + 1 ]

next_above : (s : Shell) → All (λ x. x.jid < next_of s) s.jobs × (0 < next_of s)
next_above s = elim (maxjob_cases s) [
  | inl (e, all) ↦
      rw (e, next_of)
        (All-map (λ x. x.jid ≤ 0) (λ x. x.jid < 1) (λ x h. omega arith) s.jobs all, omega arith)
  | inr (k, m, e, at, all) ↦
      rw (e, next_of, get_or-At s.jobs k m cleared at)
        (
          All-map (λ x. x.jid ≤ m.jid) (λ x. x.jid < m.jid + 1) (λ x h. omega arith) s.jobs all,
          omega arith,
        )
]

-- Deleting the job of an entry of a well-formed table: the entry is cleared and nothing else in the table changes, the
-- next number is above every number in use, and the table stays well formed.
pub deletejob_lem :
    (s : Shell) (k : ℕ) (j : Job)
    → IsShell s
    → At s.jobs k j
    → let s' = deletejob s k in
      (s'.jobs ≡ set s.jobs k cleared)
      × All (λ x. x.jid < s'.nextjid) s'.jobs
      × ((p : ℕ) → 0 < p → count_pid p s'.jobs + one_if (j.pid == p) ≡ count_pid p s.jobs)
      × IsShell s'
unfolding deletejob
deletejob_lem s k j w at =
    let s1 = record s { jobs = set s.jobs k cleared } in
    let counts : (p : ℕ) → 0 < p → count_pid p s1.jobs + one_if (j.pid == p) ≡ count_pid p s.jobs =
      λ p hp. ground (arith, count_pid-set s k j cleared at p) in
    let (above, positive) = next_above s1 in
    (
      refl,
      above,
      counts,
      record {
        size = length-set s.jobs k cleared ∙ w.size;
        slots = All-set Slot s.jobs k cleared w.slots (inl refl);
        pids = λ p hp. omega (arith, counts p hp, w.pids p hp);
        next = positive;
      },
    )

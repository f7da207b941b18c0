-- ===== src/Shell/Tests.antt =====
-- The job table on small histories, and the theorems at concrete tables.
use csapp_3e_study.Base.{
  ℕ, zero, suc, ◌+◌, ◌≤◌, ◌<◌, ◌≡◌, ◌≢◌, ◌⊎◌, inl, inr, refl, arith, true, false, List, [], ◌∷◌,
  ◌++◌, Option, some, none, ◌==◌, set, get_or, replicate,
}
use csapp_3e_study.Base.Tables.{At, All-replicate}
use csapp_3e_study.Base.Int.{ℤ, pos}
use csapp_3e_study.Shell.Jobs.{
  JobState, undef, fg, bg, Shell, cleared, Event, killpg, too_many_jobs, initjobs, find, getjobpid,
  getjobjid, max_from, maxjob, addjob, deletejob,
}
use csapp_3e_study.Shell.Jobs.Table.{one_if, count_pid, Slot, IsShell}
use csapp_3e_study.Shell.Jobs.Changes.{addjob_lem}
use csapp_3e_study.Shell.Control.{exited, stopped, sigcont, reap_child, wait_childs, do_bgfg}
use csapp_3e_study.Shell.Reaping.{Reaped, reap_child_lem}
use csapp_3e_study.Shell.Continuing.{Continued, do_bgfg_lem}
use csapp_3e_study.Base.Texts.{codes, split_at}
use csapp_3e_study.Shell.Lines.{
  blank_last, skip_blanks, next_word, words, last_is_bg, drop_last, parseline,
}
use csapp_3e_study.Shell.Lines.Printing.{plain, quoted, texts, joined, ending, parseline-joined}
use csapp_3e_study.Shell.Histories.{Reached, initial, next, started, waited, Reached-IsShell}

-- All that a history computes with.
table : Unit {0}
unfolding initjobs find getjobpid getjobjid max_from maxjob addjob deletejob reap_child wait_childs
    do_bgfg split_at blank_last skip_blanks next_word words last_is_bg drop_last parseline
table = tt

-- One job in the background, and room for more.
abbrev one_job : Shell
one_job = record {
  jobs = record { pid = 7; jid = 1; state = bg; cmdline = 108 ∷ 115 ∷ [] } ∷ replicate 15 cleared;
  nextjid = 2;
}

bg-undef : bg ≢ undef
bg-undef e = cc

one_pid : (p : ℕ) → 0 < p → count_pid p one_job.jobs ≤ 1
one_pid p h = ground arith

one_job-IsShell : IsShell one_job
one_job-IsShell = record {
  size = refl;
  slots = (inr (omega arith, omega arith, bg-undef), All-replicate Slot 15 cleared (inl refl));
  pids = one_pid;
  next = omega arith;
}

-- Sixteen jobs.
abbrev add_jobs : ℕ → Shell → Shell
add_jobs zero s = s
add_jobs (suc n) s = (addjob (add_jobs n s) (100 + n) bg []).1

-- With two jobs of sixteen deleted and two added, the first and the seventh have number 1.
abbrev numbers : Shell → ℕ × ℕ × ℕ
numbers s =
    ((get_or s.jobs 0 cleared).jid, (get_or s.jobs 6 cleared).jid, (get_or s.jobs 5 cleared).jid)

shared_number : numbers (add_jobs 2 (deletejob (deletejob (add_jobs 16 initjobs) 5) 6)) ≡ (1, 1, 17)
unfolding table
shared_number = refl

addjob_lem_example :
    ((count_pid 0 one_job.jobs ≡ 0)
      × (addjob one_job 9 bg [] ≡ (none, one_job, too_many_jobs ∷ [])))
    ⊎ ((k : ℕ) × (s' : Shell) × (addjob one_job 9 bg [] ≡ (some k, s', []))
        × At one_job.jobs k cleared
        × (s'.jobs ≡ set one_job.jobs k (record { pid = 9; jid = 2; state = bg; cmdline = [] }))
        × ((p : ℕ) → 0 < p → count_pid p s'.jobs ≡ count_pid p one_job.jobs + one_if (9 == p))
        × IsShell s')
addjob_lem_example = addjob_lem one_job 9 bg [] one_job-IsShell (omega arith) bg-undef refl

abbrev emptied : Shell
emptied = deletejob one_job 0

reap_child_lem_example : Reaped one_job 7 (stopped 20) (reap_child one_job 7 (stopped 20)).0
reap_child_lem_example = reap_child_lem one_job 7 (stopped 20) one_job-IsShell (omega arith) refl

-- With process 0, `fg` finds a free entry and signals the group of the shell itself.
abbrev effects : Option ℕ × Shell × List Event → Option ℕ × JobState × List Event
effects (waits, s, es) = (waits, (get_or s.jobs 1 cleared).state, es)

fg_zero : effects (do_bgfg one_job false false (pos 0)) ≡ (some 0, fg, killpg 0 sigcont ∷ [])
unfolding table
fg_zero = refl

do_bgfg_lem_example :
    Continued one_job false true (pos 1) (do_bgfg one_job false true (pos 1))
    × IsShell (do_bgfg one_job false true (pos 1)).1
do_bgfg_lem_example = do_bgfg_lem one_job false true (pos 1) one_job-IsShell (inl refl)

-- A job is started, and its process ends.
abbrev history : Shell
history = (wait_childs (addjob initjobs 7 bg []).1 ((7, exited) ∷ [])).0

no_pid : count_pid 7 initjobs.jobs ≡ 0
unfolding table
no_pid = refl

history-Reached : Reached history
history-Reached =
    next (next initial (started 7 bg [] (omega arith) bg-undef no_pid))
      (waited ((7, exited) ∷ []) (omega arith, tt))

Reached-IsShell_example : IsShell history
Reached-IsShell_example = Reached-IsShell history-Reached

-- A background job with a quoted argument.
quoted_line :
    parseline (codes "echo 'a b' c &" ++ 10 ∷ [])
    ≡ some (codes "echo" ∷ codes "a b" ∷ codes "c" ∷ [], true)
unfolding table
quoted_line = refl

foreground : last_is_bg (texts (plain (codes "ls") ∷ quoted (codes "a b") ∷ [])) ≡ false
unfolding table
foreground = refl

parseline-joined_example :
    parseline (joined (plain (codes "ls") ∷ quoted (codes "a b") ∷ []) (ending false))
    ≡ some (texts (plain (codes "ls") ∷ quoted (codes "a b") ∷ []), false)
parseline-joined_example =
    parseline-joined (plain (codes "ls")) (quoted (codes "a b") ∷ []) false (omega arith)
      (omega arith) (λ _. foreground)

-- A `strtol` that reads no number.
abbrev no_number : List ℕ → Option ℤ
no_number text = none

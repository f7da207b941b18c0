-- ===== src/Shell/Control.antt =====
-- tsh.c: the reaping of children, the built-in commands `fg` and `bg`, and the signal handlers.
use csapp_3e_study.Base.{
  ℕ, Bool, List, [], ◌∷◌, ◌++◌, Option, some, none, if◌then◌else◌, get_or, set,
}
use csapp_3e_study.Base.Int.{ℤ, pos}
use csapp_3e_study.Shell.Jobs.{
  Shell, Job, fg, bg, st, Event, killpg, job_info, stopped_by, terminated_by, no_such_job,
  no_such_process, cleared, getjobfg, getjobpid, getjobjid, deletejob,
}

-- A wait status, as WIFSTOPPED and WIFSIGNALED take it apart.
pub data Status : Type 0 where
  exited : Status
  signaled stopped : ℕ → Status

-- The job at an index that a lookup returned.
abbrev pub job_at : Shell → ℕ → Job
job_at s i = get_or s.jobs i cleared

unfoldable pub reap_child : Shell → ℕ → Status → Shell × List Event
reap_child s pid status = elim (getjobpid s (pos pid)) [
  | none ↦ (s, [])
  | some i ↦ elim status [
    | stopped sig ↦ (
      record s { jobs = set s.jobs i (record (job_at s i) { state = st }) },
      stopped_by (job_at s i).jid (job_at s i).pid sig ∷ [],
    )
    | signaled sig ↦ (deletejob s i, terminated_by (job_at s i).jid (job_at s i).pid sig ∷ [])
    | exited ↦ (deletejob s i, [])
  ]
]

-- `wait_childs`: the list is what `waitpid` returns until it returns 0 or -1.
unfoldable pub wait_childs : Shell → List (ℕ × Status) → Shell × List Event
wait_childs s [] = (s, [])
wait_childs s ((pid, status) ∷ rest) =
    let (s1, e1) = reap_child s pid status in let (s2, e2) = wait_childs s1 rest in (s2, e1 ++ e2)

-- SIGCONT
abbrev pub sigcont : ℕ
sigcont = 18

-- `do_bgfg` once its argument is read: `arg_jid` for `%id`, and `to_bg` for `bg`. The result says on
-- which process `waitfg` is called.
unfoldable pub do_bgfg : Shell → Bool → Bool → ℤ → Option ℕ × Shell × List Event
do_bgfg s to_bg arg_jid id = elim (if arg_jid then getjobjid s id else getjobpid s id) [
  | none ↦ (none, s, (if arg_jid then no_such_job else no_such_process) ∷ [])
  | some i ↦
      let job = record (job_at s i) { state = if to_bg then bg else fg } in
      (
        if to_bg then none else some job.pid,
        record s { jobs = set s.jobs i job },
        killpg job.pid sigcont ∷ (if to_bg then job_info job.jid job.pid job.cmdline ∷ [] else []),
      )
]

-- `sigint_tstp_handler`
unfoldable pub sigint_tstp_handler : Shell → ℕ → List Event
sigint_tstp_handler s sig = elim (getjobfg s) [
  | none ↦ []
  | some i ↦ killpg (job_at s i).pid sig ∷ []
]

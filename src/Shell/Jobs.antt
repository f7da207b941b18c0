-- ===== src/Shell/Jobs.antt =====
-- tsh.c, "Helper routines that manipulate the job list". A pointer into `jobs` is an index.
pub mod Table
pub mod Changes
use csapp_3e_study.Base.{
  ℕ, zero, suc, ◌+◌, Bool, true, false, List, [], ◌∷◌, ◌++◌, Option, some, none, ◌==◌, ltb,
  if◌then◌else◌, get_elem?, get_or, set, replicate,
}
use csapp_3e_study.Base.Int.{ℤ, pos, negsuc}

-- MAXJOBS
abbrev pub max_jobs : ℕ
max_jobs = 16

-- UNDEF, FG, BG and ST
pub data JobState : Type 0 where
  undef fg bg st : JobState

-- `struct job_t`; a command line is its bytes.
pub record Job : Type 0 where
  pub pid : ℕ
  pub jid : ℕ
  pub state : JobState
  pub cmdline : List ℕ

-- What the shell does to the world: signals to process groups, and the lines that it prints.
pub data Event : Type 0 where
  killpg : ℕ → ℕ → Event
  too_many_jobs : Event
  job_info : ℕ → ℕ → List ℕ → Event
  job_line : ℕ → ℕ → JobState → List ℕ → Event
  stopped_by : ℕ → ℕ → ℕ → Event
  terminated_by : ℕ → ℕ → ℕ → Event
  no_such_process : Event
  no_such_job : Event
  argument_required argument_invalid : Event
  fork_failed : Event

-- The globals `jobs` and `nextjid`.
pub record Shell : Type 0 where
  pub jobs : List Job
  pub nextjid : ℕ

-- `clearjob`
abbrev pub cleared : Job
cleared = record { pid = 0; jid = 0; state = undef; cmdline = [] }

-- `initjobs`, with `nextjid` as it is initialised.
unfoldable pub initjobs : Shell
initjobs = record { jobs = replicate max_jobs cleared; nextjid = 1 }

-- The index of the first job that passes the test, counted from `i`.
unfoldable pub find : (Job → Bool) → List Job → ℕ → Option ℕ
find test [] i = none
find test (j ∷ js) i = if test j then some i else find test js (i + 1)

abbrev pub is_fg : JobState → Bool
is_fg fg = true
is_fg undef = false
is_fg bg = false
is_fg st = false

unfoldable pub getjobfg : Shell → Option ℕ
unfolding find
getjobfg s = find (λ j. is_fg j.state) s.jobs 0

unfoldable pub getjobpid : Shell → ℤ → Option ℕ
unfolding find
getjobpid s (negsuc n) = none
getjobpid s (pos pid) = find (λ j. j.pid == pid) s.jobs 0

unfoldable pub getjobjid : Shell → ℤ → Option ℕ
unfolding find
getjobjid s (negsuc n) = none
getjobjid s (pos jid) = if ltb jid 1 then none else find (λ j. j.jid == jid) s.jobs 0

-- The loop of `maxjob` from index `i` on, with `job` and `max`.
unfoldable pub max_from : List Job → ℕ → Option ℕ → ℕ → Option ℕ × ℕ
max_from [] i job max = (job, max)
max_from (j ∷ js) i job max =
    max_from js (i + 1) (if ltb max j.jid then some i else job)
      (if ltb max j.jid then j.jid else max)

unfoldable pub maxjob : Shell → Option ℕ
unfolding max_from
maxjob s = (max_from s.jobs 0 none 0).0

unfoldable pub addjob : Shell → ℕ → JobState → List ℕ → Option ℕ × Shell × List Event
unfolding getjobpid
addjob s pid state cmdline = elim (getjobpid s (pos 0)) [
  | none ↦ (none, s, too_many_jobs ∷ [])
  | some i ↦
      let job : Job = record { pid = pid; jid = s.nextjid; state = state; cmdline = cmdline } in
      (
        some i,
        record {
          jobs = set s.jobs i job;
          nextjid = if ltb max_jobs (s.nextjid + 1) then 1 else s.nextjid + 1;
        },
        [],
      )
]

unfoldable pub deletejob : Shell → ℕ → Shell
unfolding maxjob
deletejob s i =
    let s' = record s { jobs = set s.jobs i cleared } in
    record s' {
      nextjid = elim (maxjob s') [ none ↦ 1 | some m ↦ (get_or s'.jobs m cleared).jid + 1 ];
    }

-- `listjobs`
unfoldable pub listjobs : List Job → List Event
listjobs [] = []
listjobs (j ∷ js) =
    if j.pid == 0 then listjobs js else job_line j.jid j.pid j.state j.cmdline ∷ listjobs js

-- `destructjob` for each job, as `do_quit` calls it: SIGHUP is signal 1.
unfoldable pub destructjobs : List Job → List Event
destructjobs [] = []
destructjobs (j ∷ js) = if j.pid == 0 then destructjobs js else killpg j.pid 1 ∷ destructjobs js

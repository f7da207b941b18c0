-- ===== src/Shell/Eval.antt =====
-- labs/07-shell/tsh.c: `eval`, the built-in commands, and `waitfg`.
pub mod Foreground
pub mod Commands
use csapp_3e_study.Base.{
  ℕ, Bool, true, false, ◌||◌, List, [], ◌∷◌, ◌++◌, Option, some, none, ◌==◌, if◌then◌else◌, get_or,
}
use csapp_3e_study.Base.Int.{ℤ, pos, negsuc}
use csapp_3e_study.Base.Texts.{codes, same_text}
use csapp_3e_study.Shell.Jobs.{
  Shell, fg, bg, Event, job_info, argument_required, argument_invalid, fork_failed, cleared, addjob,
  listjobs, destructjobs,
}
use csapp_3e_study.Shell.Control.{Status, job_at, reap_child, wait_childs, do_bgfg}
use csapp_3e_study.Shell.Lines.{parseline}

-- What a command line leads to: the process that `waitfg` is called on, if any, with the table and
-- the events; the end of the shell; or an access through a null pointer or behind `argv`.
pub data Evaluated : Type 0 where
  finished : Option ℕ → Shell → List Event → Evaluated
  quits : List Event → Evaluated
  crash : Evaluated

-- `%`
abbrev pub percent : ℕ
percent = 37

-- `do_bgfg` from its argument on, where `strtol` is the number that a text is read as, if it is one.
unfoldable pub bgfg_text : (List ℕ → Option ℤ) → Shell → Bool → List ℕ → Evaluated
bgfg_text strtol s to_bg arg =
    let arg_jid : Bool = elim arg [ [] ↦ false | c ∷ cs ↦ c == percent ] in
    let id_text : List ℕ = elim arg [ [] ↦ [] | c ∷ cs ↦ if c == percent then cs else c ∷ cs ] in
    elim (strtol id_text) [
      | none ↦ finished none s (argument_invalid ∷ [])
      | some id ↦ let (waits, s', es) = do_bgfg s to_bg arg_jid id in finished waits s' es
    ]

unfoldable pub bgfg_args : (List ℕ → Option ℤ) → Shell → Bool → List (List ℕ) → Evaluated
unfolding bgfg_text
bgfg_args strtol s to_bg [] = finished none s (argument_required ∷ [])
bgfg_args strtol s to_bg (arg ∷ more) = bgfg_text strtol s to_bg arg

-- `builtin_cmd`: `none` where the command is not built in.
unfoldable pub builtin_cmd : (List ℕ → Option ℤ) → Shell → List ℕ → List (List ℕ) → Option Evaluated
builtin_cmd strtol s prgnam args =
    if same_text prgnam (codes "fg")
    then some (bgfg_args strtol s false args)
    else if same_text prgnam (codes "bg")
    then some (bgfg_args strtol s true args)
    else if same_text prgnam (codes "jobs")
    then some (finished none s (listjobs s.jobs))
    else if same_text prgnam (codes "quit")
    then some (quits (destructjobs s.jobs))
    else none

-- After `addjob`, whose pointer is null where the table is full.
abbrev pub job_added : ℕ → Bool → Option ℕ × Shell × List Event → Evaluated
job_added pid true (none, s, es) = crash
job_added pid true (some i, s, es) =
    let j = job_at s i in finished none s (es ++ job_info j.jid j.pid j.cmdline ∷ [])
job_added pid false (job, s, es) = finished (some pid) s es

-- The rest of `eval`, in the shell, where `fork` has returned: `none` if it failed.
unfoldable pub start_job : Shell → Option ℕ → Bool → List ℕ → Evaluated
start_job s none to_bg cmdline = finished none s (fork_failed ∷ [])
start_job s (some pid) to_bg cmdline =
    job_added pid to_bg (addjob s pid (if to_bg then bg else fg) cmdline)

unfoldable pub eval : (List ℕ → Option ℤ) → Shell → Option ℕ → List ℕ → Evaluated
eval strtol s forked cmdline = elim (parseline cmdline) [
  | none ↦ crash
  | some (args, to_bg) ↦ elim args [
    | [] ↦ finished none s []
    | prgnam ∷ more ↦ elim (builtin_cmd strtol s prgnam more) [
      | some done ↦ done
      | none ↦ start_job s forked to_bg cmdline
    ]
  ]
]

-- `waitfg`, where `waitpid` has returned the status of the process, or no status since a handler has
-- reaped it; then the children that `wait_childs` finds.
unfoldable pub waitfg : Shell → ℕ → Option Status → List (ℕ × Status) → Shell × List Event
waitfg s pid none others = (s, [])
waitfg s pid (some status) others =
    let (s1, e1) = reap_child s pid status in let (s2, e2) = wait_childs s1 others in (s2, e1 ++ e2)

-- ===== src/Shell/Eval/Commands.antt =====
-- What a whole command line leaves of the table.
use csapp_3e_study.Base.{ℕ, ◌<◌, ◌≡◌, Bool, List, [], ◌∷◌, Option, some, none}
use csapp_3e_study.Base.Tables.{All}
use csapp_3e_study.Base.Int.{ℤ}
use csapp_3e_study.Shell.Jobs.{Shell, Event}
use csapp_3e_study.Shell.Jobs.Table.{count_pid, count_fg, IsShell}
use csapp_3e_study.Shell.Control.{Status, do_bgfg}
use csapp_3e_study.Shell.Eval.{Evaluated, finished, quits, crash, start_job, waitfg}
use csapp_3e_study.Shell.Eval.Foreground.{Settled}

-- The table after `eval` is well formed, with only the process that is waited for in the foreground.
abbrev pub Settles : Evaluated → Type 0
Settles (finished waits s es) = IsShell s × Settled waits s
Settles (quits es) = Unit
Settles crash = Unit

-- What `fork` returns: no process, or one that is not in the table.
abbrev pub Fresh : Shell → Option ℕ → Type 0
Fresh s none = Unit
Fresh s (some pid) = (0 < pid) × (count_pid pid s.jobs ≡ 0)

module _ (s : Shell) (w : IsShell s) (quiet : count_fg s.jobs ≡ 0) where
  module _ (strtol : List ℕ → Option ℤ) where
    -- `do_bgfg` once `strtol` has returned.
    abbrev read_id : Bool → Bool → Option ℤ → Evaluated
    read_id to_bg arg_jid r = elim r [
      | none ↦ finished none s (Event.argument_invalid ∷ [])
      | some id ↦ let (waits, s', es) = do_bgfg s to_bg arg_jid id in finished waits s' es
    ]

    abbrev OptSettles : Option Evaluated → Type 0
    OptSettles none = Unit
    OptSettles (some r) = Settles r

  -- `eval` once its line is parsed.
  module _ (strtol : List ℕ → Option ℤ) (forked : Option ℕ) (cmdline : List ℕ)
      (f : Fresh s forked) where
    abbrev not_built_in : Bool → Option Evaluated → Evaluated
    not_built_in to_bg r = elim r [ some done ↦ done | none ↦ start_job s forked to_bg cmdline ]

-- What a command line leads to once `waitfg` has returned, with whatever status of the process that it
-- waits for and whatever children it reaps: a well-formed table and no job in the foreground.
abbrev pub Quiet : Evaluated → Type 0
Quiet (finished none s es) = IsShell s × (count_fg s.jobs ≡ 0)
Quiet (finished (some pid) s es) =
    (status : Status) (others : List (ℕ × Status))
    → All (λ c. 0 < c.0) others
    → let s' = (waitfg s pid (some status) others).0 in IsShell s' × (count_fg s'.jobs ≡ 0)
Quiet (quits es) = Unit
Quiet crash = Unit

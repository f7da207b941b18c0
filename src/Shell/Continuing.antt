-- ===== src/Shell/Continuing.antt =====
-- What `fg` and `bg` do to the table.
use csapp_3e_study.Base.{
  ℕ, zero, suc, ◌<◌, ◌≡◌, ◌≢◌, ◌∙◌, ge→ltb, refl, ap, subst, sym, arith, Bool, true, false, List,
  [], ◌∷◌, Option, some, none, ◌==◌, set, length-set, inl, inr, ◌⊎◌, if◌then◌else◌, ==_iff,
}
use csapp_3e_study.Base.Tables.{At, All, All-set, All-map, All-at, get_or-At}
use csapp_3e_study.Base.Int.{ℤ, pos, negsuc}
use csapp_3e_study.Shell.Jobs.{
  Job, undef, fg, bg, Shell, cleared, find, getjobpid, getjobjid, Event, killpg, job_info,
  no_such_job, no_such_process,
}
use csapp_3e_study.Shell.Jobs.Table.{Slot, IsShell, find_cases}
use csapp_3e_study.Shell.Jobs.Changes.{count_pid-set}
use csapp_3e_study.Shell.Reaping.{taken}
use csapp_3e_study.Shell.Control.{do_bgfg, sigcont}

-- The number by which the argument names a job.
abbrev pub name_of : Bool → Job → ℤ
name_of arg_jid j = if arg_jid then pos j.jid else pos j.pid

abbrev lookup : Shell → Bool → ℤ → Option ℕ
lookup s arg_jid id = if arg_jid then getjobjid s id else getjobpid s id

-- No job has the name.
abbrev pub Unnamed : Shell → Bool → ℤ → Type 0
Unnamed s arg_jid id = All (λ j. 0 < j.pid → name_of arg_jid j ≢ id) s.jobs

everywhere : (P : Job → Type 0) → ((j : Job) → P j) → (js : List Job) → All P js
everywhere P h [] = tt
everywhere P h (j ∷ js) = (h j, everywhere P h js)

-- What a lookup ends with.
abbrev Looked : Shell → Bool → ℤ → Option ℕ → Type 0
Looked s arg_jid id r =
    ((r ≡ none) × Unnamed s arg_jid id)
    ⊎ ((k : ℕ) × (j : Job) × (r ≡ some k) × At s.jobs k j × (name_of arg_jid j ≡ id) × (id ≢ pos 0))

pos_inj : {a b : ℕ} → pos a ≡ pos b → a ≡ b
pos_inj e = cc

module _ (s : Shell) where
  lookup_pid : (n : ℕ) → pos n ≢ pos 0 → Looked s false (pos n) (getjobpid s (pos n))
  unfolding getjobpid
  lookup_pid n h = elim (find_cases (λ j. j.pid == n) s.jobs 0) [
    | inl (e, all) ↦
        inl (
          e,
          All-map (λ j. (j.pid == n) ≡ false) _ (λ j f p q. ground (arith, pos_inj q)) s.jobs all,
        )
    | inr (k, j, e, at, t) ↦
        inr (k, j, e ∙ ap some (omega arith), at, ap pos ((==_iff j.pid n).0 t), h)
  ]

  getjobjid-find : (n : ℕ) → 0 < n → getjobjid s (pos n) ≡ find (λ j. j.jid == n) s.jobs 0
  unfolding getjobjid
  getjobjid-find n h = rw (ge→ltb n 1 h) refl

  lookup_jid : (n : ℕ) → 0 < n → Looked s true (pos n) (getjobjid s (pos n))
  lookup_jid n h = elim (find_cases (λ j. j.jid == n) s.jobs 0) [
    | inl (e, all) ↦ inl (
      getjobjid-find n h ∙ e,
      All-map (λ j. (j.jid == n) ≡ false) _ (λ j f p q. ground (arith, pos_inj q)) s.jobs all,
    )
    | inr (k, j, e, at, t) ↦ inr (
      k,
      j,
      getjobjid-find n h ∙ e ∙ ap some (omega arith),
      at,
      ap pos ((==_iff j.jid n).0 t),
      λ q. omega (arith, pos_inj q, h),
    )
  ]

  negative_name : (arg_jid : Bool) (n : ℕ) → Unnamed s arg_jid (negsuc n)
  negative_name true n = everywhere (λ j. 0 < j.pid → pos j.jid ≢ negsuc n) (λ j h q. cc) s.jobs
  negative_name false n = everywhere (λ j. 0 < j.pid → pos j.pid ≢ negsuc n) (λ j h q. cc) s.jobs

  live_number : (j : Job) → Slot j → 0 < j.pid → name_of true j ≢ pos 0
  live_number j (inl e) h q = omega (arith, ap (λ x. x.pid) e)
  live_number j (inr t) h q = omega (arith, t.1, pos_inj q)

  lookup_lem :
      (arg_jid : Bool) (id : ℤ)
      → IsShell s
      → (arg_jid ≡ true) ⊎ (id ≢ pos 0)
      → Looked s arg_jid id (lookup s arg_jid id)
  unfolding getjobpid getjobjid
  lookup_lem true (negsuc n) w ok = inl (refl, negative_name true n)
  lookup_lem false (negsuc n) w ok = inl (refl, negative_name false n)
  lookup_lem true (pos zero) w ok = inl (refl, All-map Slot _ live_number s.jobs w.slots)
  lookup_lem true (pos (suc n)) w ok = lookup_jid (suc n) (omega arith)
  lookup_lem false (pos n) w (inl e) = absurd cc
  lookup_lem false (pos n) w (inr h) = lookup_pid n h

-- The entry of the table that goes on, and what it becomes.
abbrev pub continued : Bool → Job → Job
continued to_bg j = record j { state = if to_bg then bg else fg }

-- What `do_bgfg` does: a name that no job has is reported and changes nothing; otherwise a job with
-- the name is put into the state asked for and its process group gets SIGCONT, and it is reported if
-- it goes to the background and waited for if not.
abbrev pub Continued : Shell → Bool → Bool → ℤ → Option ℕ × Shell × List Event → Type 0
Continued s to_bg arg_jid id r =
    (Unnamed s arg_jid id
      × (r ≡ (none, s, (if arg_jid then no_such_job else no_such_process) ∷ [])))
    ⊎ ((k : ℕ) × (j : Job) × At s.jobs k j
        × (name_of arg_jid j ≡ id)
        × (0 < j.pid)
        × (r ≡ (
          if to_bg then none else some j.pid,
          record s { jobs = set s.jobs k (continued to_bg j) },
          killpg j.pid sigcont ∷ (if to_bg then job_info j.jid j.pid j.cmdline ∷ [] else []),
        )))

do_bgfg-found :
    (s : Shell) (to_bg arg_jid : Bool) (id : ℤ) (k : ℕ) (j : Job)
    → lookup s arg_jid id ≡ some k
    → At s.jobs k j
    → do_bgfg s to_bg arg_jid id ≡ (
      if to_bg then none else some j.pid,
      record s { jobs = set s.jobs k (continued to_bg j) },
      killpg j.pid sigcont ∷ (if to_bg then job_info j.jid j.pid j.cmdline ∷ [] else []),
    )
unfolding do_bgfg
do_bgfg-found s to_bg arg_jid id k j e at = rw (e, get_or-At s.jobs k j cleared at, do_bgfg)

do_bgfg-none :
    (s : Shell) (to_bg arg_jid : Bool) (id : ℤ)
    → lookup s arg_jid id ≡ none
    → do_bgfg s to_bg arg_jid id
      ≡ (none, s, (if arg_jid then no_such_job else no_such_process) ∷ [])
unfolding do_bgfg
do_bgfg-none s to_bg arg_jid id e = rw (e, do_bgfg)

named_pid :
    (j : Job) (arg_jid : Bool) (id : ℤ) → Slot j → id ≢ pos 0 → name_of arg_jid j ≡ id → 0 < j.pid
named_pid j arg_jid id (inr t) h e = t.0
named_pid j true id (inl c) h e = absurd (h (sym e ∙ ap (λ x. pos x.jid) c))
named_pid j false id (inl c) h e = absurd (h (sym e ∙ ap (λ x. pos x.pid) c))

continue_IsShell :
    (s : Shell) (to_bg : Bool) (k : ℕ) (j : Job)
    → IsShell s
    → At s.jobs k j
    → 0 < j.pid
    → IsShell (record s { jobs = set s.jobs k (continued to_bg j) })
continue_IsShell s to_bg k j w at h = record {
  size = length-set s.jobs k _ ∙ w.size;
  slots =
      All-set Slot s.jobs k _ w.slots (slot to_bg (taken j (All-at Slot s.jobs k j at w.slots) h));
  pids = λ p hp. omega (arith, count_pid-set s k j (continued to_bg j) at p, w.pids p hp);
  next = w.next;
}
  where
    slot : (b : Bool) → (0 < j.pid) × (0 < j.jid) × (j.state ≢ undef) → Slot (continued b j)
    slot true t = inr (t.0, t.1, λ e. cc)
    slot false t = inr (t.0, t.1, λ e. cc)

-- fg and bg on a well-formed table, with a job number or with a process other than 0: a name that no
-- job has is reported and changes nothing; otherwise a job with the name takes the state asked for,
-- its process group gets SIGCONT, and it is reported or waited for. The table stays well formed.
pub do_bgfg_lem :
    (s : Shell) (to_bg arg_jid : Bool) (id : ℤ)
    → IsShell s
    → (arg_jid ≡ true) ⊎ (id ≢ pos 0)
    → Continued s to_bg arg_jid id (do_bgfg s to_bg arg_jid id)
      × IsShell (do_bgfg s to_bg arg_jid id).1
do_bgfg_lem s to_bg arg_jid id w ok = elim (lookup_lem s arg_jid id w ok) [
  | inl (e, unnamed) ↦
      subst (λ r. Continued s to_bg arg_jid id r × IsShell r.1)
        (sym (do_bgfg-none s to_bg arg_jid id e)) (inl (unnamed, refl), w)
  | inr (k, j, e, at, named, h) ↦
      let live = named_pid j arg_jid id (All-at Slot s.jobs k j at w.slots) h named in
      subst (λ r. Continued s to_bg arg_jid id r × IsShell r.1)
        (sym (do_bgfg-found s to_bg arg_jid id k j e at))
        (inr (k, j, at, named, live, refl), continue_IsShell s to_bg k j w at live)
]

-- ===== src/Shell/Jobs/Table.antt =====
-- The invariant of the job table, and the lookups.
use csapp_3e_study.Base.{
  ℕ, suc, ◌+◌, ◌≤◌, ◌<◌, ◌≡◌, ◌≢◌, refl, ap, ◌∙◌, subst, sym, arith, Bool, true, false, List, [],
  ◌∷◌, Option, some, none, ◌==◌, if◌then◌else◌, length, inl, inr, ◌⊎◌, Bool-cases, dec_lt, lt→ltb,
  ge→ltb,
}
use csapp_3e_study.Base.Tables.{At, All, total}
use csapp_3e_study.Shell.Jobs.{Job, undef, Shell, max_jobs, cleared, find, is_fg, max_from, maxjob}

abbrev pub one_if : Bool → ℕ
one_if b = if b then 1 else 0

-- How many entries have the process, and how many are in the foreground.
abbrev pub count_pid : ℕ → List Job → ℕ
count_pid p = total (λ j. one_if (j.pid == p))

abbrev pub count_fg : List Job → ℕ
count_fg = total (λ j. one_if (is_fg j.state))

-- An entry is free and cleared, or it has a process, a job number and a state.
abbrev pub Slot : Job → Type 0
Slot j = (j ≡ cleared) ⊎ ((0 < j.pid) × (0 < j.jid) × (j.state ≢ undef))

pub record IsShell (s : Shell) : Type 0 where
  pub size : length s.jobs ≡ max_jobs
  pub slots : All Slot s.jobs
  pub pids : (p : ℕ) → 0 < p → count_pid p s.jobs ≤ 1
  pub next : 0 < s.nextjid

-- A search ends at the first entry that passes the test, or no entry does.
pub find_cases :
    (test : Job → Bool) (js : List Job) (i : ℕ)
    → ((find test js i ≡ none) × All (λ j. test j ≡ false) js)
      ⊎ ((k : ℕ) × (j : Job) × (find test js i ≡ some (i + k)) × At js k j × (test j ≡ true))
unfolding find
find_cases test [] i = inl (refl, tt)
find_cases test (x ∷ js) i = elim (Bool-cases (test x)) [
  | inl pass ↦ inr (0, x, rw pass (ap some (omega arith)), refl, pass)
  | inr fail ↦ elim (find_cases test js (i + 1)) [
    | inl (e, all) ↦ inl (rw fail e, (fail, all))
    | inr (k, j, e, at, t) ↦ inr (suc k, j, rw fail (e ∙ ap some (omega arith)), at, t)
  ]
]

-- No entry passes, so none is counted.
pub total-none :
    (test : Job → Bool) (js : List Job)
    → All (λ j. test j ≡ false) js
    → total (λ j. one_if (test j)) js ≡ 0
total-none test [] h = refl
total-none test (x ∷ js) h = rw h.0 (omega (arith, total-none test js h.1))

-- What `maxjob` ends with: no job number is larger, and it is that of the entry found, or the one
-- that it started with.
abbrev pub MaxEnd : List Job → ℕ → Option ℕ → ℕ → Option ℕ × ℕ → Type 0
MaxEnd js i job max r =
    All (λ j. j.jid ≤ r.1) js
    × (max ≤ r.1)
    × (((r.0 ≡ job) × (r.1 ≡ max))
        ⊎ ((k : ℕ) × (j : Job) × (r.0 ≡ some (i + k)) × At js k j × (r.1 ≡ j.jid)))

module _ (x : Job) (js : List Job) (i : ℕ) (job : Option ℕ) (max : ℕ) where
  max_from_more : max < x.jid → max_from (x ∷ js) i job max ≡ max_from js (i + 1) (some i) x.jid
  unfolding max_from
  max_from_more h = rw (lt→ltb max x.jid h) refl

  max_from_less : x.jid ≤ max → max_from (x ∷ js) i job max ≡ max_from js (i + 1) job max
  unfolding max_from
  max_from_less h = rw (ge→ltb max x.jid h) refl

max_from-MaxEnd :
    (js : List Job) (i : ℕ) (job : Option ℕ) (max : ℕ) → MaxEnd js i job max (max_from js i job max)
max_from-MaxEnd [] i job max = unfold max_from in (tt, omega arith, inl (refl, refl))
max_from-MaxEnd (x ∷ js) i job max = elim (dec_lt max x.jid) [
  | yes more ↦
      let (all, le, e) = max_from-MaxEnd js (i + 1) (some i) x.jid in
      subst (MaxEnd (x ∷ js) i job max) (sym (max_from_more x js i job max more)) (
        (le, all),
        omega arith,
        inr (elim e [
          | inl (a, b) ↦ (0, x, a ∙ ap some (omega arith), refl, b)
          | inr (k, j, a, at, b) ↦ (suc k, j, a ∙ ap some (omega arith), at, b)
        ]),
      )
  | no less ↦
      let (all, le, e) = max_from-MaxEnd js (i + 1) job max in
      subst (MaxEnd (x ∷ js) i job max) (sym (max_from_less x js i job max (omega arith))) (
        (omega arith, all),
        le,
        elim e [
          | inl same ↦ inl same
          | inr (k, j, a, at, b) ↦ inr (suc k, j, a ∙ ap some (omega arith), at, b)
        ],
      )
]

-- The largest job number in use, or no job has one.
pub maxjob_cases :
    (s : Shell)
    → ((maxjob s ≡ none) × All (λ j. j.jid ≤ 0) s.jobs)
      ⊎ ((k : ℕ) × (m : Job) × (maxjob s ≡ some k)
          × At s.jobs k m
          × All (λ j. j.jid ≤ m.jid) s.jobs)
unfolding maxjob
maxjob_cases s =
    let (all, le, e) = max_from-MaxEnd s.jobs 0 none 0 in
    elim e [
      | inl (a, b) ↦ inl (a, subst (λ m. All (λ j. j.jid ≤ m) s.jobs) b all)
      | inr (k, j, a, at, b) ↦
          inr (k, j, a ∙ ap some (omega arith), at, subst (λ m. All (λ j. j.jid ≤ m) s.jobs) b all)
    ]

-- ===== src/Shell/Lines.antt =====
-- labs/07-shell/tsh.c: `parseline`, on the bytes of a command line before its final 0.
pub mod Printing
use csapp_3e_study.Base.{
  ℕ, zero, suc, ◌+◌, Bool, true, false, List, [], ◌∷◌, ◌++◌, Option, some, none, ◌==◌, ltb,
  if◌then◌else◌, length,
}
use csapp_3e_study.Base.Texts.{split_at}

-- MAXARGS
abbrev pub max_args : ℕ
max_args = 128

-- A space, a single quote, and an ampersand.
abbrev pub blank : ℕ
blank = 32

abbrev pub quote : ℕ
quote = 39

abbrev pub ampersand : ℕ
ampersand = 38

-- The last byte of the line becomes a space.
unfoldable pub blank_last : List ℕ → List ℕ
blank_last [] = []
blank_last (c ∷ []) = blank ∷ []
blank_last (c ∷ d ∷ cs) = c ∷ blank_last (d ∷ cs)

unfoldable pub skip_blanks : List ℕ → List ℕ
skip_blanks [] = []
skip_blanks (c ∷ cs) = if c == blank then skip_blanks cs else c ∷ cs

-- Where the next argument ends: at the next quote behind a quote, or at the next space.
unfoldable pub next_word : List ℕ → Option (List ℕ × List ℕ)
next_word [] = none
next_word (c ∷ cs) = if c == quote then split_at quote cs else split_at blank (c ∷ cs)

-- The loop that builds `argv`. The fuel is the number of bytes.
unfoldable pub words : ℕ → List ℕ → List (List ℕ)
unfolding next_word skip_blanks
words zero buf = []
words (suc fuel) buf = elim (next_word buf) [
  | none ↦ []
  | some (arg, rest) ↦ arg ∷ words fuel (skip_blanks rest)
]

-- Whether the last argument starts with an ampersand.
unfoldable pub last_is_bg : List (List ℕ) → Bool
last_is_bg [] = false
last_is_bg ([] ∷ []) = false
last_is_bg ((c ∷ cs) ∷ []) = c == ampersand
last_is_bg (arg ∷ next ∷ more) = last_is_bg (next ∷ more)

unfoldable pub drop_last : List (List ℕ) → List (List ℕ)
drop_last [] = []
drop_last (arg ∷ []) = []
drop_last (arg ∷ next ∷ more) = arg ∷ drop_last (next ∷ more)

-- `parseline`: the arguments, and whether the job is to run in the background. `none` where there are
-- more arguments than `argv` has room for, and the loop writes behind it.
unfoldable pub parseline : List ℕ → Option (List (List ℕ) × Bool)
unfolding blank_last skip_blanks words last_is_bg drop_last
parseline cmdline =
    let buf = skip_blanks (blank_last cmdline) in
    let args = words (length buf) buf in
    if ltb max_args (length args) then none else elim args [
      | [] ↦ some ([], true)
      | arg ∷ more ↦
          let bg = last_is_bg (arg ∷ more) in
          some (if bg then drop_last (arg ∷ more) else arg ∷ more, bg)
    ]

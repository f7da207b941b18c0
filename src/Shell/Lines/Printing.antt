-- ===== src/Shell/Lines/Printing.antt =====
-- `parseline` on a line that was written from arguments.
use csapp_3e_study.Base.{
  ℕ, zero, suc, ◌+◌, ◌≤◌, ◌<◌, ◌≡◌, ◌≢◌, ◌∙◌, refl, ap, arith, Bool, true, false, List, [], ◌∷◌,
  ◌++◌, some, if◌then◌else◌, length, length-append, ne→==, ge→ltb,
}
use csapp_3e_study.Base.Texts.{Without, split_at-append}
use csapp_3e_study.Shell.Lines.{
  max_args, blank, quote, ampersand, blank_last, skip_blanks, next_word, words, last_is_bg,
  drop_last, parseline,
}

-- An argument as it is written: in quotes or not.
pub data Word : Type 0 where
  plain quoted : List ℕ → Word

abbrev pub text_of : Word → List ℕ
text_of (plain cs) = cs
text_of (quoted cs) = cs

abbrev pub texts : List Word → List (List ℕ)
texts [] = []
texts (w ∷ ws) = text_of w ∷ texts ws

-- An argument without quotes is not empty, has no space and does not start with a quote; one in quotes
-- has no quote.
abbrev pub IsWord : Word → Type 0
IsWord (plain []) = ⊥
IsWord (plain (c ∷ cs)) = (c ≢ quote) × Without blank (c ∷ cs)
IsWord (quoted cs) = Without quote cs

abbrev pub AllWords : List Word → Type 0
AllWords [] = Unit
AllWords (w ∷ ws) = IsWord w × AllWords ws

abbrev pub written : Word → List ℕ → List ℕ
written (plain cs) rest = cs ++ rest
written (quoted cs) rest = quote ∷ (cs ++ quote ∷ rest)

-- The arguments with a space between two, before the rest of the line.
abbrev pub joined : List Word → List ℕ → List ℕ
joined [] rest = rest
joined (w ∷ []) rest = written w rest
joined (w ∷ v ∷ ws) rest = written w (blank ∷ joined (v ∷ ws) rest)

-- The same with a space behind each.
abbrev spaced : List Word → List ℕ
spaced [] = []
spaced (w ∷ ws) = written w (blank ∷ spaced ws)

blank_last-append :
    (a : List ℕ) (b : ℕ) (bs : List ℕ) → blank_last (a ++ b ∷ bs) ≡ a ++ blank_last (b ∷ bs)
unfolding blank_last
blank_last-append [] b bs = refl
blank_last-append (c ∷ []) b bs = refl
blank_last-append (c ∷ d ∷ cs) b bs = ap (λ l. c ∷ l) (blank_last-append (d ∷ cs) b bs)

blank_last-written :
    (w : Word) (b : ℕ) (bs : List ℕ)
    → blank_last (written w (b ∷ bs)) ≡ written w (blank_last (b ∷ bs))
blank_last-written (plain cs) b bs = blank_last-append cs b bs
blank_last-written (quoted cs) b bs =
    blank_last-append (quote ∷ cs) quote (b ∷ bs) ∙ unfold blank_last in refl

length-written : (w : Word) (rest : List ℕ) → length rest ≤ length (written w rest)
length-written (plain cs) rest = omega (arith, length-append cs rest)
length-written (quoted cs) rest = omega (arith, length-append cs (quote ∷ rest))

length-joined : (ws : List Word) (e : ℕ) → 0 < length (joined ws (e ∷ []))
length-joined [] e = omega arith
length-joined (w ∷ []) e = omega (arith, length-written w (e ∷ []))
length-joined (w ∷ v ∷ ws) e = omega (arith, length-written w (blank ∷ joined (v ∷ ws) (e ∷ [])))

length-spaced : (ws : List Word) → length ws ≤ length (spaced ws)
length-spaced [] = omega arith
length-spaced (w ∷ ws) = omega (arith, length-written w (blank ∷ spaced ws), length-spaced ws)

blank_last_cons : (c : ℕ) (cs : List ℕ) → 0 < length cs → blank_last (c ∷ cs) ≡ c ∷ blank_last cs
unfolding blank_last
blank_last_cons c [] h = absurd (omega arith)
blank_last_cons c (d ∷ cs) h = refl

blank_last-joined :
    (w : Word) (ws : List Word) (e : ℕ) → blank_last (joined (w ∷ ws) (e ∷ [])) ≡ spaced (w ∷ ws)
blank_last-joined w [] e = blank_last-written w e [] ∙ unfold blank_last in refl
blank_last-joined w (v ∷ ws) e =
    blank_last-written w blank (joined (v ∷ ws) (e ∷ []))
    ∙ ap (written w) (
        blank_last_cons blank (joined (v ∷ ws) (e ∷ [])) (length-joined (v ∷ ws) e)
        ∙ ap (λ l. blank ∷ l) (blank_last-joined v ws e))

skip_blanks-spaced : (ws : List Word) → AllWords ws → skip_blanks (spaced ws) ≡ spaced ws
unfolding skip_blanks
skip_blanks-spaced [] h = refl
skip_blanks-spaced (plain [] ∷ ws) h = absurd (h.0)
skip_blanks-spaced (plain (c ∷ cs) ∷ ws) h = rw (ne→== c blank (h.0.1.0)) refl
skip_blanks-spaced (quoted cs ∷ ws) h = refl

next_word-written :
    (w : Word) (rest : List ℕ)
    → IsWord w
    → (rest' : List ℕ) × (next_word (written w (blank ∷ rest)) ≡ some (text_of w, rest'))
      × (skip_blanks rest' ≡ skip_blanks rest)
unfolding next_word skip_blanks
next_word-written (plain []) rest h = elim h [ ]
next_word-written (plain (c ∷ cs)) rest h =
    (rest, rw (ne→== c quote (h.0)) (split_at-append blank (c ∷ cs) rest h.1), refl)
next_word-written (quoted cs) rest h =
    (blank ∷ rest, split_at-append quote cs (blank ∷ rest) h, refl)

words_more :
    (fuel : ℕ) (buf arg rest : List ℕ)
    → next_word buf ≡ some (arg, rest)
    → words (suc fuel) buf ≡ arg ∷ words fuel (skip_blanks rest)
unfolding words
words_more fuel buf arg rest e = rw (e, words)

words-spaced :
    (fuel : ℕ) (ws : List Word) → length ws ≤ fuel → AllWords ws → words fuel (spaced ws) ≡ texts ws
words-spaced zero [] h k = unfold words in refl
words-spaced (suc fuel) [] h k = unfold words next_word in refl
words-spaced zero (w ∷ ws) h k = absurd (omega arith)
words-spaced (suc fuel) (w ∷ ws) h k =
    let (rest, e, skip) = next_word-written w (spaced ws) k.0 in
    words_more fuel (spaced (w ∷ ws)) (text_of w) rest e
    ∙ ap (λ l. text_of w ∷ l)
        (ap (words fuel) (skip ∙ skip_blanks-spaced ws k.1)
          ∙ words-spaced fuel ws (omega arith) k.1)

length-texts : (ws : List Word) → length (texts ws) ≡ length ws
length-texts [] = refl
length-texts (w ∷ ws) = ap suc (length-texts ws)

-- The parse once the arguments are known.
parse_words :
    (cmdline : List ℕ) (arg : List ℕ) (more : List (List ℕ))
    → words (length (skip_blanks (blank_last cmdline))) (skip_blanks (blank_last cmdline))
      ≡ arg ∷ more
    → length (arg ∷ more) ≤ max_args
    → parseline cmdline
      ≡ some (
        if last_is_bg (arg ∷ more) then drop_last (arg ∷ more) else arg ∷ more,
        last_is_bg (arg ∷ more),
      )
unfolding parseline
parse_words cmdline arg more e h = rw (e, ge→ltb max_args (length (arg ∷ more)) h, parseline)

parse_joined :
    (w : Word) (ws : List Word) (e : ℕ)
    → AllWords (w ∷ ws)
    → length (w ∷ ws) ≤ max_args
    → parseline (joined (w ∷ ws) (e ∷ []))
      ≡ some (
        if last_is_bg (texts (w ∷ ws)) then drop_last (texts (w ∷ ws)) else texts (w ∷ ws),
        last_is_bg (texts (w ∷ ws)),
      )
parse_joined w ws e h l =
    let line = joined (w ∷ ws) (e ∷ []) in
    let buf : skip_blanks (blank_last line) ≡ spaced (w ∷ ws) =
      ap skip_blanks (blank_last-joined w ws e) ∙ skip_blanks-spaced (w ∷ ws) h in
    parse_words line (text_of w) (texts ws)
      (ap (λ b. words (length b) b) buf
        ∙ words-spaced (length (spaced (w ∷ ws))) (w ∷ ws) (length-spaced (w ∷ ws)) h)
      (omega (arith, length-texts (w ∷ ws)))

-- The end of a line, with an ampersand or without.
abbrev pub ending : Bool → List ℕ
ending true = blank ∷ ampersand ∷ 10 ∷ []
ending false = 10 ∷ []

abbrev and_amp : List Word → List Word
and_amp [] = plain (ampersand ∷ []) ∷ []
and_amp (w ∷ ws) = w ∷ and_amp ws

joined-and_amp :
    (w : Word) (ws : List Word) → joined (w ∷ ws) (ending true) ≡ joined (w ∷ and_amp ws) (10 ∷ [])
joined-and_amp w [] = refl
joined-and_amp w (v ∷ ws) = ap (λ l. written w (blank ∷ l)) (joined-and_amp v ws)

AllWords-and_amp : (ws : List Word) → AllWords ws → AllWords (and_amp ws)
AllWords-and_amp [] h = omega arith
AllWords-and_amp (w ∷ ws) h = (h.0, AllWords-and_amp ws h.1)

length-and_amp : (ws : List Word) → length (and_amp ws) ≡ length ws + 1
length-and_amp [] = omega arith
length-and_amp (w ∷ ws) = omega (arith, length-and_amp ws)

last_is_bg-and_amp :
    (w : Word) (ws : List Word) → last_is_bg (text_of w ∷ texts (and_amp ws)) ≡ true
unfolding last_is_bg
last_is_bg-and_amp w [] = refl
last_is_bg-and_amp w (v ∷ ws) = last_is_bg-and_amp v ws

drop_last-and_amp :
    (w : Word) (ws : List Word) → drop_last (text_of w ∷ texts (and_amp ws)) ≡ text_of w ∷ texts ws
unfolding drop_last
drop_last-and_amp w [] = refl
drop_last-and_amp w (v ∷ ws) = ap (λ l. text_of w ∷ l) (drop_last-and_amp v ws)

-- A line of at least one argument, each in quotes or not, with one space between two, and an ampersand
-- or none before the line break, is parsed to the arguments and to whether the ampersand is there; this
-- where they are fewer than 128, and the last does not start with one itself if there
-- is none behind it.
pub parseline-joined :
    (w : Word) (ws : List Word) (to_bg : Bool)
    → AllWords (w ∷ ws)
    → length (w ∷ ws) < max_args
    → (to_bg ≡ false → last_is_bg (texts (w ∷ ws)) ≡ false)
    → parseline (joined (w ∷ ws) (ending to_bg)) ≡ some (texts (w ∷ ws), to_bg)
parseline-joined w ws false h l k = parse_joined w ws 10 h (omega arith) ∙ rw (k refl) refl
parseline-joined w ws true h l k =
    ap parseline (joined-and_amp w ws)
    ∙ parse_joined w (and_amp ws) 10 (h.0, AllWords-and_amp ws h.1)
        (omega (arith, length-and_amp ws))
    ∙ rw (last_is_bg-and_amp w ws, drop_last-and_amp w ws) refl

-- ===== src/CacheSim/Sets/Loop.antt =====
-- What the loop of `access_cache` finds.
use csapp_3e_study.Base.{
  ℕ, zero, suc, ◌+◌, ◌≤◌, ◌<◌, ◌≡◌, ◌≢◌, inl, inr, refl, ap, ◌∙◌, arith, List, [], ◌∷◌, Option,
  some, none, ◌==◌, if◌then◌else◌, Option-cases, ℕ_discrete, dec_lt,
}
use csapp_3e_study.Base.Tables.{At, All, total}
use csapp_3e_study.CacheSim.Sets.{Line, Scan, found, victim, scan}

-- 1 if the line holds the tag.
abbrev pub holds : Option ℕ → ℕ → ℕ
holds none u = 0
holds (some t) u = if t == u then 1 else 0

-- How many lines hold the tag.
abbrev pub count : ℕ → List Line → ℕ
count u = total (λ l. holds l.tag u)

-- The invalid lines stand behind the valid ones.
abbrev pub Packed : List Line → Type 0
Packed [] = Unit
Packed (l ∷ ls) = (l.tag ≡ none → All (λ x. x.tag ≡ none) ls) × Packed ls

-- The first `k` lines are valid.
abbrev pub Front : List Line → ℕ → Type 0
Front [] k = Unit
Front (l ∷ ls) zero = Unit
Front (l ∷ ls) (suc k) = (l.tag ≢ none) × Front ls k

-- The loop from line `i` on, with `m` and `a` for `min_ts` and `argmin`, ends at line `k` of the
-- rest, or with `m` and `a` as they were.
pub data Outcome (t : ℕ) (ls : List Line) (i m a : ℕ) : Scan → Type 0 where
  is_hit :
      (k : ℕ) (l : Line) {j : ℕ}
      → At ls k l
      → l.tag ≡ some t
      → j ≡ i + k
      → Outcome t ls i m a (found j)
  is_free :
      (k : ℕ) (l : Line) {j w : ℕ}
      → At ls k l
      → l.tag ≡ none
      → Front ls k
      → count t ls ≡ 0
      → j ≡ i + k
      → w ≡ 0
      → Outcome t ls i m a (victim j w)
  is_old :
      (k : ℕ) (l : Line) {j w : ℕ}
      → At ls k l
      → l.ts < m
      → All (λ x. (x.tag ≢ none) × (w ≤ x.ts)) ls
      → count t ls ≡ 0
      → j ≡ i + k
      → w ≡ l.ts
      → Outcome t ls i m a (victim j w)
  is_kept :
      {j w : ℕ}
      → All (λ x. (x.tag ≢ none) × (w ≤ x.ts)) ls
      → count t ls ≡ 0
      → j ≡ a
      → w ≡ m
      → Outcome t ls i m a (victim j w)

count-free : (t : ℕ) (ls : List Line) → All (λ x. x.tag ≡ none) ls → count t ls ≡ 0
count-free t [] h = refl
count-free t (l ∷ ls) h = rw h.0 (omega (arith, count-free t ls h.1))

-- One line further: the line in front is valid, does not hold the tag, and is not the oldest.
keep :
    {t : ℕ} {ls : List Line} {i m a : ℕ} {r : Scan} (l : Line)
    → Outcome t ls (i + 1) m a r
    → l.tag ≢ none
    → holds l.tag t ≡ 0
    → m ≤ l.ts
    → Outcome t (l ∷ ls) i m a r
keep l (is_hit k x at e q) v n o = is_hit (suc k) x at e (omega arith)
keep l (is_free k x at e f z q u) v n o =
    is_free (suc k) x at e (v, f) (omega arith) (omega arith) u
keep l (is_old k x at lt all z q u) v n o =
    is_old (suc k) x at lt ((v, omega arith), all) (omega arith) (omega arith) u
keep l (is_kept all z q u) v n o = is_kept ((v, omega arith), all) (omega arith) q u

-- The same where the line in front is the oldest so far.
replace :
    {t : ℕ} {ls : List Line} {i m a : ℕ} {r : Scan} (l : Line)
    → Outcome t ls (i + 1) l.ts i r
    → l.tag ≢ none
    → holds l.tag t ≡ 0
    → l.ts < m
    → Outcome t (l ∷ ls) i m a r
replace l (is_hit k x at e q) v n o = is_hit (suc k) x at e (omega arith)
replace l (is_free k x at e f z q u) v n o =
    is_free (suc k) x at e (v, f) (omega arith) (omega arith) u
replace l (is_old k x at lt all z q u) v n o =
    is_old (suc k) x at (omega arith) ((v, omega arith), all) (omega arith) (omega arith) u
replace l (is_kept all z q u) v n o =
    is_old 0 l refl o ((v, omega arith), all) (omega arith) (omega arith) u

module _ (t : ℕ) (l : Line) (ls : List Line) (i m a : ℕ) where
  scan_free : l.tag ≡ none → scan t (l ∷ ls) i m a ≡ victim i 0
  unfolding scan
  scan_free e = ground arith

  scan_hit : l.tag ≡ some t → scan t (l ∷ ls) i m a ≡ found i
  unfolding scan
  scan_hit e = ground arith

  scan_older :
      (u : ℕ) → l.tag ≡ some u → u ≢ t → l.ts < m → scan t (l ∷ ls) i m a ≡ scan t ls (i + 1) l.ts i
  unfolding scan
  scan_older u e n lt = ground arith

  scan_newer :
      (u : ℕ) → l.tag ≡ some u → u ≢ t → m ≤ l.ts → scan t (l ∷ ls) i m a ≡ scan t ls (i + 1) m a
  unfolding scan
  scan_newer u e n ge = ground arith

holds-ne : (o : Option ℕ) (u t : ℕ) → o ≡ some u → u ≢ t → holds o t ≡ 0
holds-ne o u t e n = ground arith

pub scan-Outcome :
    (t : ℕ) (ls : List Line) (i m a : ℕ) → Packed ls → Outcome t ls i m a (scan t ls i m a)
scan-Outcome t [] i m a p = unfold scan in is_kept tt refl refl refl
scan-Outcome t (l ∷ ls) i m a p = elim (Option-cases l.tag) [
  | inl e ↦
      rw (scan_free t l ls i m a e)
        (is_free 0 l refl e tt (count-free t (l ∷ ls) (e, p.0 e)) (omega arith) refl)
  | inr (u, e) ↦
      let busy : l.tag ≢ none = λ z. cc in
      elim (ℕ_discrete u t) [
        | yes same ↦
            let e' : l.tag ≡ some t = e ∙ ap some same in
            rw (scan_hit t l ls i m a e') (is_hit 0 l refl e' (omega arith))
        | no other ↦ elim (dec_lt l.ts m) [
          | yes lt ↦ rw (scan_older t l ls i m a u e other lt) (
              replace l (scan-Outcome t ls (i + 1) l.ts i p.1) busy (holds-ne l.tag u t e other) lt)
          | no ge ↦ rw (scan_newer t l ls i m a u e other (omega arith)) (
              keep l (scan-Outcome t ls (i + 1) m a p.1) busy (holds-ne l.tag u t e other)
                (omega arith))
        ]
      ]
]

-- ===== src/Y86/Differences/Words.antt =====
-- What the comparisons find.
use csapp_3e_study.Base.{
  ℕ, zero, suc, ◌+◌, ◌*◌, ◌≤◌, ◌<◌, ◌≡◌, ◌↔◌, ◌∙◌, refl, sym, subst, arith, Bool, true, false, ◌&&◌,
  Bool-cases, inl, inr, ltb, ◌==◌, ==_iff, ge→ltb, lt→ltb, ◌⊎◌, eq→==,
}
use csapp_3e_study.Y86.Memory.{Mem}
use csapp_3e_study.Y86.Differences.{word_at, diff_words}

lt-or-ge : (a b : ℕ) → (a < b) ⊎ (b ≤ a)
lt-or-ge a b = ground arith

pub true≢false : true ≡ false → ⊥
true≢false e = cc

-- A difference stays found.
diff_words-found :
    (outfile : Bool) (o n : Mem) (len fuel pos : ℕ)
    → (diff_words outfile o n len fuel pos true).0 ≡ true
unfolding diff_words
diff_words-found outfile o n len zero pos = refl
diff_words-found outfile o n len (suc fuel) pos = elim (Bool-cases (outfile && ltb pos len)) [
  | inl e ↦ rw e (diff_words-found outfile o n len fuel (pos + 8))
  | inr e ↦ rw e refl
]

-- The words from `pos` on, as far as the fuel and the length go, are the same.
abbrev pub SameFrom : Mem → Mem → ℕ → ℕ → ℕ → Type 0
SameFrom o n len zero pos = Unit
SameFrom o n len (suc fuel) pos =
    (pos < len → word_at o pos ≡ word_at n pos) × SameFrom o n len fuel (pos + 8)

SameFrom-end : (o n : Mem) (len fuel pos : ℕ) → len ≤ pos → SameFrom o n len fuel pos
SameFrom-end o n len zero pos h = tt
SameFrom-end o n len (suc fuel) pos h =
    (λ l. absurd (omega (arith, h, l)), SameFrom-end o n len fuel (pos + 8) (omega arith))

module _ (outfile : Bool) (o n : Mem) (len : ℕ) where
  diff_words_end :
      (fuel pos : ℕ) → len ≤ pos → (diff_words outfile o n len (suc fuel) pos false).0 ≡ false
  unfolding diff_words
  diff_words_end fuel pos h = rw (ge→ltb pos len h) refl

  diff_words_same :
      (fuel pos : ℕ)
      → pos < len
      → word_at o pos ≡ word_at n pos
      → (diff_words outfile o n len (suc fuel) pos false).0
        ≡ (diff_words outfile o n len fuel (pos + 8) false).0
  unfolding diff_words
  diff_words_same fuel pos h e =
      rw (lt→ltb pos len h, eq→== (word_at n pos) (word_at o pos) (sym e)) refl

  diff_words_differ :
      (fuel pos : ℕ)
      → pos < len
      → (word_at n pos == word_at o pos) ≡ false
      → (diff_words outfile o n len (suc fuel) pos false).0 ≡ true
  unfolding diff_words
  diff_words_differ fuel pos h e =
      rw (lt→ltb pos len h, e) (diff_words-found outfile o n len fuel (pos + 8))

  pub diff_words_iff :
      (fuel pos : ℕ)
      → ((diff_words outfile o n len fuel pos false).0 ≡ false) ↔ SameFrom o n len fuel pos
  unfolding diff_words
  diff_words_iff zero pos = (λ _. tt, λ _. refl)
  diff_words_iff (suc fuel) pos = elim (lt-or-ge pos len) [
    | inr ge ↦ (λ _. SameFrom-end o n len (suc fuel) pos ge, λ _. diff_words_end fuel pos ge)
    | inl lt ↦ elim (Bool-cases (word_at n pos == word_at o pos)) [
      | inl e ↦
          let same = sym ((==_iff (word_at n pos) (word_at o pos)).0 e) in
          let step = diff_words_same fuel pos lt same in
          let (to, from) = diff_words_iff fuel (pos + 8) in
          (λ d. (λ _. same, to (sym step ∙ d)), λ s. step ∙ from s.1)
      | inr e ↦
          let found = diff_words_differ fuel pos lt e in
          (
            λ d. absurd (true≢false (sym found ∙ d)),
            λ s.
                absurd
                  (true≢false (sym (eq→== (word_at n pos) (word_at o pos) (sym (s.0 lt))) ∙ e)),
          )
    ]
  ]

  pub SameFrom-iff :
      (fuel pos : ℕ)
      → SameFrom o n len fuel pos ↔ (
          (k : ℕ)
          → k < fuel
          → pos + 8 * k < len
          → word_at o (pos + 8 * k) ≡ word_at n (pos + 8 * k))
  SameFrom-iff zero pos = (λ _ k h l. absurd (omega (arith, h)), λ _. tt)
  SameFrom-iff (suc fuel) pos =
      let (to, from) = SameFrom-iff fuel (pos + 8) in
      (
        λ s k h l. all_words fuel pos (s.0) (to (s.1)) k h l,
        λ s. (first fuel pos s, from (others fuel pos s)),
      )
    where
      all_words :
          (fuel pos : ℕ)
          → (pos < len → word_at o pos ≡ word_at n pos)
          → ((k : ℕ)
              → k < fuel
              → pos + 8 + 8 * k < len
              → word_at o (pos + 8 + 8 * k) ≡ word_at n (pos + 8 + 8 * k))
          → (k : ℕ) → k < suc fuel
          → pos + 8 * k < len
          → word_at o (pos + 8 * k) ≡ word_at n (pos + 8 * k)
      all_words fuel pos f r zero h l =
          subst (λ p. word_at o p ≡ word_at n p) (omega arith) (f (omega arith))
      all_words fuel pos f r (suc k) h l =
          let at : pos + 8 + 8 * k ≡ pos + 8 * suc k = omega arith in
          subst (λ p. word_at o p ≡ word_at n p) at (r k (omega arith) (omega arith))

      first :
          (fuel pos : ℕ)
          → ((k : ℕ)
              → k < suc fuel
              → pos + 8 * k < len
              → word_at o (pos + 8 * k) ≡ word_at n (pos + 8 * k))
          → pos < len
          → word_at o pos ≡ word_at n pos
      first fuel pos s l =
          let at : pos + 8 * 0 ≡ pos = omega arith in
          subst (λ p. word_at o p ≡ word_at n p) at (s 0 (omega arith) (omega arith))

      others :
          (fuel pos : ℕ)
          → ((k : ℕ)
              → k < suc fuel
              → pos + 8 * k < len
              → word_at o (pos + 8 * k) ≡ word_at n (pos + 8 * k))
          → (k : ℕ) → k < fuel
          → pos + 8 + 8 * k < len
          → word_at o (pos + 8 + 8 * k) ≡ word_at n (pos + 8 + 8 * k)
      others fuel pos s k h l =
          let at : pos + 8 * suc k ≡ pos + 8 + 8 * k = omega arith in
          subst (λ p. word_at o p ≡ word_at n p) at (s (suc k) (omega arith) (omega arith))

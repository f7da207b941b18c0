-- ===== src/Transpose/Loops.antt =====
-- What a loop writes, if each of its rounds writes entries of the transpose.
use csapp_3e_study.Base.{
  ℕ, zero, suc, ◌+◌, ◌≤◌, ◌<◌, ◌≡◌, arith, Bool, false, ◌||◌, if◌then◌else◌, dec_lt,
}
use csapp_3e_study.Transpose.{Matrix, for_loop}

-- The entries of `p` are those of the transpose of `a`, and the others are as they were.
abbrev pub Writes : Matrix → (ℕ → ℕ → Bool) → Matrix → Matrix → Type 0
Writes a p b b' = (r c : ℕ) → b' r c ≡ (if p r c then a c r else b r c)

pub Writes-both :
    (a : Matrix) (p q : ℕ → ℕ → Bool) (b b1 b2 : Matrix)
    → Writes a p b b1
    → Writes a q b1 b2
    → Writes a (λ r c. p r c || q r c) b b2
Writes-both a p q b b1 b2 f g r c = ground (arith, f r c, g r c)

pub Writes-same :
    (a : Matrix) (p q : ℕ → ℕ → Bool) (b b' : Matrix)
    → ((r c : ℕ) → p r c ≡ q r c)
    → Writes a p b b'
    → Writes a q b b'
Writes-same a p q b b' e f r c = ground (arith, f r c, e r c)

-- The entries that the rounds from `lo` on write.
pub record Rounds (step hi : ℕ) (p : ℕ → ℕ → ℕ → Bool) (u : ℕ → ℕ → ℕ → Bool) : Type 0 where
  pub now : (lo r c : ℕ) → lo < hi → u lo r c ≡ (p lo r c || u (lo + step) r c)
  pub over : (lo r c : ℕ) → hi ≤ lo → u lo r c ≡ false

pub for_loop-Writes :
    (a : Matrix) (step hi : ℕ) (p u : ℕ → ℕ → ℕ → Bool) (body : ℕ → Matrix → Matrix)
    (inv : ℕ → Type 0)
    → 1 ≤ step
    → Rounds step hi p u
    → ((i : ℕ) → inv i → inv (i + step))
    → ((i : ℕ) (b : Matrix) → inv i → i < hi → Writes a (p i) b (body i b))
    → (n lo : ℕ) (b : Matrix) → inv lo
    → hi ≤ lo + n
    → Writes a (u lo) b (for_loop n step lo hi body b)
unfolding for_loop
for_loop-Writes a step hi p u body inv k w g f zero lo b v h r c = ground (arith, w.over lo r c)
for_loop-Writes a step hi p u body inv k w g f (suc n) lo b v h r c = elim (dec_lt lo hi) [
  | yes l ↦ ground (
    arith,
    w.now lo r c l,
    f lo b v l r c,
    for_loop-Writes a step hi p u body inv k w g f n (lo + step) (body lo b) (g lo v) (omega arith)
        r c,
  )
  | no l ↦ ground (arith, w.over lo r c)
]

-- ===== src/CacheSim/Sets/Times.antt =====
-- The times of the tags of a set, and what the use of a line does to them.
use csapp_3e_study.Base.{
  ℕ, zero, suc, ◌+◌, ◌≤◌, ◌≡◌, ◌≢◌, ◌∙◌, refl, ap, sym, subst, eq→==, ne→==, ℕ_discrete, ◌==◌,
  if◌then◌else◌, arith, List, [], ◌∷◌, some, set,
}
use csapp_3e_study.Base.Tables.{At, total, total-set, le-total}
use csapp_3e_study.CacheSim.Sets.{Line, no_line}
use csapp_3e_study.CacheSim.Sets.Loop.{holds, count}

pub count-set :
    (ls : List Line) (k : ℕ) (l l' : Line) (u : ℕ)
    → At ls k l
    → count u (set ls k l') + holds l.tag u ≡ count u ls + holds l'.tag u
count-set ls k l l' u = total-set (λ x. holds x.tag u) ls k l l'

pub holds-le-count :
    (ls : List Line) (k : ℕ) (l : Line) (u : ℕ) → At ls k l → holds l.tag u ≤ count u ls
holds-le-count ls k l u = le-total (λ x. holds x.tag u) ls k l

-- The time of the line with a tag, and 0 where no line has it.
abbrev pub stamp : ℕ → Line → ℕ
stamp u l = if holds l.tag u == 1 then l.ts else 0

abbrev pub time : ℕ → List Line → ℕ
time u ls = total (stamp u) ls

time_none : (u : ℕ) (ls : List Line) → count u ls ≡ 0 → time u ls ≡ 0
time_none u [] h = refl
time_none u (l ∷ ls) h =
    let rest : time u ls ≡ 0 = time_none u ls (omega arith) in ground (arith, rest, h)

holds_self : (t : ℕ) → holds (some t) t ≡ 1
holds_self t = ground arith

holds_other : (t u : ℕ) → u ≢ t → holds (some t) u ≡ 0
holds_other t u n = ground arith

At-set : (ls : List Line) (k : ℕ) (l l' : Line) → At ls k l → At (set ls k l') k l'
At-set [] k l l' at = absurd (cc)
At-set (x ∷ ls) zero l l' at = refl
At-set (x ∷ ls) (suc k) l l' at = At-set ls k l l' at

time_of_line :
    (u : ℕ) (ls : List Line) (k : ℕ) (l : Line)
    → At ls k l
    → l.tag ≡ some u
    → count u ls ≤ 1
    → time u ls ≡ l.ts
time_of_line u ls k l at e le =
    let one : holds l.tag u ≡ 1 = ap (λ o. holds o u) e ∙ holds_self u in
    let here : stamp u l ≡ l.ts = rw one refl in
    let others : count u (set ls k no_line) ≡ 0 =
      omega (arith, count-set ls k l no_line u at, one) in
    omega
      (arith, total-set (stamp u) ls k l no_line at, here, time_none u (set ls k no_line) others)

-- The times after the line at `k` has become one of the tag `t` with the time `now`: that of `t` is
-- `now`, and every other tag that the set holds keeps its own.
abbrev pub Timed : ℕ → ℕ → List Line → List Line → Type 0
Timed t now ls ls' =
    (u : ℕ) → time u ls' ≡ (if u == t then now else if count u ls' == 0 then 0 else time u ls)

pub set-Timed :
    (t now : ℕ) (ls : List Line) (k : ℕ) (l : Line)
    → At ls k l
    → ((u : ℕ) → count u ls ≤ 1)
    → count t (set ls k (record { tag = some t; ts = now })) ≤ 1
    → Timed t now ls (set ls k (record { tag = some t; ts = now }))
set-Timed t now ls k l at once le u =
    let new : Line = record { tag = some t; ts = now } in
    let ls' = set ls k new in
    elim (ℕ_discrete u t) [
      | yes e ↦ rw (eq→== u t e) (
          subst (λ u. time u ls' ≡ now) (sym e)
            (time_of_line t ls' k new (At-set ls k l new at) refl le))
      | no n ↦
          let other : holds (some t) u ≡ 0 = holds_other t u n in
          let counts : count u ls' + holds l.tag u ≡ count u ls =
            omega (arith, count-set ls k l new u at, other) in
          let unstamped : stamp u new ≡ 0 = rw other refl in
          let times : time u ls' + stamp u l ≡ time u ls =
            omega (arith, total-set (stamp u) ls k l new at, unstamped) in
          elim (ℕ_discrete (count u ls') 0) [
            | yes z ↦ rw (ne→== u t n, eq→== (count u ls') 0 z) (time_none u ls' z)
            | no nz ↦
                rw (ne→== u t n, ne→== (count u ls') 0 nz)
                  (ground (arith, times, counts, once u, nz))
          ]
    ]

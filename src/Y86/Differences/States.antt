-- ===== src/Y86/Differences/States.antt =====
-- What the comparisons of memories and states find, and what a copy is.
use csapp_3e_study.Base.{
  ℕ, zero, suc, ◌+◌, ◌-◌, ◌*◌, ◌/◌, ◌%◌, ◌<◌, ◌≡◌, ◌↔◌, refl, ap, ap₂, sym, subst, arith, Bool,
  true, false, ◌||◌, not, List, [], ◌∷◌, ◌++◌, ltb, ◌==◌, ==_iff, if◌then◌else◌, length, take, drop,
  take_all, replicate, min,
}
use csapp_3e_study.Y86.Memory.{Mem, init_mem}
use csapp_3e_study.Y86.Memory.Bounds.{IsMem}
use csapp_3e_study.Y86.Machine.{State}
use csapp_3e_study.Y86.Machine.Invariant.{IsState}
use csapp_3e_study.Y86.Differences.{
  copy_mem, copy_reg, word_at, diff_mem, diff_reg, copy_state, diff_state,
}
use csapp_3e_study.Y86.Differences.Words.{true≢false, diff_words_iff, SameFrom-iff}

-- Every word that lies in both memories is the same.
abbrev pub SameWords : Mem → Mem → Type 0
SameWords o n = (k : ℕ) → 8 * k < min o.len n.len → word_at o (8 * k) ≡ word_at n (8 * k)

shorter : (o n : Mem) → (if ltb n.len o.len then n.len else o.len) ≡ min o.len n.len
shorter o n = ground arith

pub diff_mem_iff : (outfile : Bool) (o n : Mem) → ((diff_mem outfile o n).0 ≡ false) ↔ SameWords o n
unfolding diff_mem
diff_mem_iff outfile o n =
    let len = min o.len n.len in
    let (a, b) = diff_words_iff outfile o n len (len / 8 + 1) 0 in
    let (c, d) = SameFrom-iff outfile o n len (len / 8 + 1) 0 in
    rw (shorter o n) (
      λ e k h.
          subst (λ p. word_at o p ≡ word_at n p) (zeroed k) (c (a e) k (omega arith) (omega arith)),
      λ s. b (
          d (λ k _ l. subst (λ p. word_at o p ≡ word_at n p) (sym (zeroed k)) (s k (omega arith)))),
    )
  where
    zeroed : (k : ℕ) → 0 + 8 * k ≡ 8 * k
    zeroed k = omega arith

four_tests :
    {P Q R S : Type 0} (p q r s : Bool)
    → ((p ≡ true) ↔ P)
    → ((q ≡ true) ↔ Q)
    → ((r ≡ false) ↔ R)
    → ((s ≡ false) ↔ S)
    → ((not p || not q || r || s) ≡ false) ↔ (P × Q × R × S)
four_tests true true false false hp hq hr hs =
    (λ _. (hp.0 refl, hq.0 refl, hr.0 refl, hs.0 refl), λ _. refl)
four_tests true true false true hp hq hr hs = (λ e. absurd (true≢false e), λ h. hs.1 (h.3))
four_tests true true true s hp hq hr hs = (λ e. absurd (true≢false e), λ h. hr.1 (h.2))
four_tests true false r s hp hq hr hs =
    (λ e. absurd (true≢false e), λ h. absurd (true≢false (sym (hq.1 (h.1)))))
four_tests false q r s hp hq hr hs =
    (λ e. absurd (true≢false e), λ h. absurd (true≢false (sym (hp.1 (h.0)))))

-- `diff_state` finds no difference exactly if the program counters are the same, the condition codes
-- are, and every word that both register files have, and every word that both memories have.
pub diff_state_iff :
    (outfile : Bool) (olds news : State)
    → (diff_state outfile olds news ≡ false) ↔ (
        (olds.pc ≡ news.pc)
        × (olds.cc ≡ news.cc)
        × SameWords olds.r news.r
        × SameWords olds.m news.m)
unfolding diff_state diff_reg
diff_state_iff outfile olds news =
    four_tests (olds.pc == news.pc) (olds.cc == news.cc) ((diff_mem outfile olds.r news.r).0)
      ((diff_mem outfile olds.m news.m).0) (==_iff olds.pc news.pc) (==_iff olds.cc news.cc)
      (diff_mem_iff outfile olds.r news.r) (diff_mem_iff outfile olds.m news.m)

dropped : (n : ℕ) → drop n (replicate {A = ℕ} n 0) ≡ []
dropped zero = refl
dropped (suc n) = dropped n

copied : (c : List ℕ) → take (length c) c ++ drop (length c) (replicate (length c) 0) ≡ c
copied c = rw (take_all c, dropped (length c)) (append_nil c)
  where
    append_nil : (l : List ℕ) → l ++ [] ≡ l
    append_nil [] = refl
    append_nil (x ∷ xs) = ap (λ t. x ∷ t) (append_nil xs)

-- A memory of whole blocks is copied as it is.
pub copy_mem-same : (m : Mem) → IsMem m → m.len % 32 ≡ 0 → copy_mem m ≡ m
unfolding copy_mem init_mem
copy_mem-same m w h =
    let len : (m.len + 32 - 1) / 32 * 32 ≡ m.len = omega (arith, h) in
    let bytes : take m.len m.contents ++ drop m.len (replicate m.len 0) ≡ m.contents =
      subst (λ n. take n m.contents ++ drop n (replicate n 0) ≡ m.contents) w.sized
        (copied m.contents) in
    rw len (ap (λ c. record { len = m.len; contents = c }) bytes)

-- A valid state whose memory is of whole blocks is copied as it is, and between it and its copy
-- `diff_state` finds no difference.
pub copy_state_lem :
    (s : State)
    → IsState s
    → s.m.len % 32 ≡ 0
    → (copy_state s ≡ s)
      × (diff_state true s (copy_state s) ≡ false)
      × (diff_state false s (copy_state s) ≡ false)
unfolding copy_state copy_reg
copy_state_lem s w h =
    let same : copy_state s ≡ s =
      ap₂ (λ r m. record s { r = r; m = m })
        (copy_mem-same s.r w.reg.mem (omega (arith, w.reg.room))) (copy_mem-same s.m w.mem h) in
    (
      same,
      subst (λ t. diff_state true s t ≡ false) (sym same) (no_change true s),
      subst (λ t. diff_state false s t ≡ false) (sym same) (no_change false s),
    )
  where
    no_change : (outfile : Bool) (s : State) → diff_state outfile s s ≡ false
    no_change outfile s = (diff_state_iff outfile s s).1 (refl, refl, λ _ _. refl, λ _ _. refl)

-- ===== src/Y86/Copying/Arrays.antt =====
-- What `ncopy` leaves in the memory, and what it returns.
use csapp_3e_study.Base.{
  ℕ, zero, suc, ◌+◌, ◌≤◌, ◌<◌, ◌≡◌, ◌⊎◌, ◌∙◌, inl, refl, ap, ap₂, arith, false, List, [], ◌∷◌, some,
  if◌then◌else◌, length, length-set, get_elem?, get_or, set, get_or-set_self, get_or-set_ne,
}
use csapp_3e_study.Base.Words.{sign_bit}
use csapp_3e_study.Y86.Memory.{is_neg}
use csapp_3e_study.Y86.Alu.{is_pos}
use csapp_3e_study.Y86.Copying.{copy_loop, ncopy}

-- How many of `n` words from `at` on are positive as signed integers.
abbrev pub positives : List ℕ → ℕ → ℕ → ℕ
positives mem at zero = 0
positives mem at (suc n) = (if is_pos (get_or mem at 0) then 1 else 0) + positives mem (at + 1) n

get_elem?-in : (mem : List ℕ) (i : ℕ) → i < length mem → get_elem? mem i ≡ some (get_or mem i 0)
get_elem?-in [] i h = absurd (omega (arith, h))
get_elem?-in (x ∷ xs) zero h = refl
get_elem?-in (x ∷ xs) (suc i) h = get_elem?-in xs i (omega (arith, h))

-- The words that are still to be read are not written before.
abbrev pub Ahead : ℕ → ℕ → ℕ → Type 0
Ahead src dst n = (dst ≤ src) ⊎ (src + n ≤ dst)

positives-set :
    (mem : List ℕ) (at n i v : ℕ)
    → (i < at) ⊎ (at + n ≤ i)
    → positives (set mem i v) at n ≡ positives mem at n
positives-set mem at zero i v h = refl
positives-set mem at (suc n) i v h =
    ap₂ (λ w p. (if is_pos w then 1 else 0) + p) (get_or-set_ne mem i at v 0 (omega (arith, h)))
      (positives-set mem (at + 1) n i v (omega (arith, h)))

-- What the loop is to leave of `n` words.
pub record Copied (mem : List ℕ) (src dst n : ℕ) (mem' : List ℕ) : Type 0 where
  pub size : length mem' ≡ length mem
  pub words : (i : ℕ) → i < n → get_or mem' (dst + i) 0 ≡ get_or mem (src + i) 0
  pub others : (j : ℕ) → (j < dst) ⊎ (dst + n ≤ j) → get_or mem' j 0 ≡ get_or mem j 0

Copied-suc :
    (mem mem' : List ℕ) (src dst n : ℕ)
    → dst < length mem
    → Ahead src dst (suc n)
    → Copied (set mem dst (get_or mem src 0)) (src + 1) (dst + 1) n mem'
    → Copied mem src dst (suc n) mem'
Copied-suc mem mem' src dst n h a c = record {
  size = c.size ∙ length-set mem dst (get_or mem src 0);
  words = words;
  others = λ j k.
      c.others j (omega (arith, k))
      ∙ get_or-set_ne mem dst j (get_or mem src 0) 0 (omega (arith, k));
}
  where
    words : (i : ℕ) → i < suc n → get_or mem' (dst + i) 0 ≡ get_or mem (src + i) 0
    words zero k =
        let here : dst + 0 ≡ dst = omega arith in
        let from : src + 0 ≡ src = omega arith in
        rw (here, from)
          (c.others dst (inl (omega arith)) ∙ get_or-set_self mem dst (get_or mem src 0) 0 h)
    words (suc i) k =
        let here : dst + suc i ≡ dst + 1 + i = omega arith in
        let from : src + suc i ≡ src + 1 + i = omega arith in
        rw (here, from)
          (c.words i (omega (arith, k))
            ∙ get_or-set_ne mem dst (src + 1 + i) (get_or mem src 0) 0 (omega (arith, a, k)))

copy_loop-suc :
    (mem : List ℕ) (src dst n count : ℕ)
    → src < length mem
    → dst < length mem
    → copy_loop mem src dst (suc n) count
      ≡ copy_loop
          (set mem dst (get_or mem src 0))
          (src + 1)
          (dst + 1)
          n
          (if is_pos (get_or mem src 0) then count + 1 else count)
unfolding copy_loop
copy_loop-suc mem src dst n count h k =
    rw (copy_loop, get_elem?-in mem src h, get_elem?-in mem dst k) refl

copy_loop_lem :
    (mem : List ℕ) (src dst n count : ℕ)
    → src + n ≤ length mem
    → dst + n ≤ length mem
    → Ahead src dst n
    → (mem' : List ℕ) × (copy_loop mem src dst n count ≡ some (mem', count + positives mem src n))
      × Copied mem src dst n mem'
unfolding copy_loop
copy_loop_lem mem src dst zero count h k a = (
  mem,
  ap (λ c. some (mem, c)) (omega arith),
  record { size = refl; words = λ i l. absurd (omega (arith, l)); others = λ j l. refl },
)
copy_loop_lem mem src dst (suc n) count h k a =
    let val = get_or mem src 0 in
    let mem1 = set mem dst val in
    let more = if is_pos val then count + 1 else count in
    let (mem', run, c) =
      copy_loop_lem mem1 (src + 1) (dst + 1) n more (omega (arith, h, length-set mem dst val))
        (omega (arith, k, length-set mem dst val)) (omega (arith, a)) in
    let rest : positives mem1 (src + 1) n ≡ positives mem (src + 1) n =
      positives-set mem (src + 1) n dst val (omega (arith, a)) in
    let total : more + positives mem1 (src + 1) n ≡ count + positives mem src (suc n) =
      ground (arith, rest) in
    (
      mem',
      copy_loop-suc mem src dst n count (omega (arith, h)) (omega (arith, k))
          ∙ run
          ∙ ap (λ t. some (mem', t)) total,
      Copied-suc mem mem' src dst n (omega (arith, k)) a c,
    )

-- `ncopy` of fewer than 2 ^ 63 words that lie in the memory, as do the words that it writes, which
-- stand behind all that it reads or start no later: it accesses no word outside the memory, returns
-- how many of the words are positive, and leaves them at the second place, with every other word as
-- it was.
pub ncopy_lem :
    (mem : List ℕ) (src dst len : ℕ)
    → len < sign_bit
    → src + len ≤ length mem
    → dst + len ≤ length mem
    → Ahead src dst len
    → (mem' : List ℕ) × (ncopy mem src dst len ≡ some (mem', positives mem src len))
      × Copied mem src dst len mem'
unfolding ncopy
ncopy_lem mem src dst len l h k a =
    let signed : is_neg len ≡ false = ground (arith, l) in
    let (mem', run, c) = copy_loop_lem mem src dst len 0 h k a in
    (mem', rw signed (run ∙ ap (λ t. some (mem', t)) (omega arith)), c)

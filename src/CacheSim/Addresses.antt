-- ===== src/CacheSim/Addresses.antt =====
-- Which part of an address numbers the set.
use csapp_3e_study.Base.{
  ℕ, zero, suc, ◌+◌, ◌-◌, ◌*◌, ◌/◌, ◌%◌, ◌^◌, ◌≤◌, ◌<◌, ◌≡◌, ◌∙◌, refl, ap, sym, arith, bit_and,
}
use native.Mathlib.Nat.{
  pow-suc, div-div-eq-div-mul, mod-eq-sub-mul-div, mul-div-le, one-le-pow, pow-le-pow_right,
  mul-lt-mul_of_pos_right, mul_assoc, mul_comm, mul-one, div-one, mod-eq_of_lt, add-mul, zero-add,
  mul-sub, add-mul-div_right, div-eq_of_lt, div-lt_iff_lt-mul,
}
use csapp_3e_study.Base.Words.{word_mod, bit_and-half, bit_and-le}
use csapp_3e_study.CacheSim.Params.{
  int_shl_lem, masks, setup_params, setid_of, tag_of, not64, shl64,
}

-- The remainder of a power of two, one digit at a time.
mod-double : (a n : ℕ) → a % (2 * n) ≡ a / 2 % n * 2 + a % 2
mod-double a n =
    let q : ℕ = a / 2 / n in
    let e : a / (2 * n) ≡ q = sym (div-div-eq-div-mul a 2 n) in
    let f : a % (2 * n) ≡ a - 2 * n * q =
      mod-eq-sub-mul-div a (2 * n) ∙ ap (λ x. a - 2 * n * x) e in
    omega (arith, f, mod-eq-sub-mul-div (a / 2) n, mul-div-le (a / 2) n, mul_assoc 2 n q)

-- A mask of the low digits takes a remainder.
low_mask : (s a : ℕ) → bit_and (2 ^ s - 1) a ≡ a % 2 ^ s
low_mask zero a = omega (arith, bit_and-le 0 0 a (omega arith))
low_mask (suc s) a =
    let n : ℕ = 2 ^ s in
    let p : 2 ^ suc s ≡ 2 * n = pow-suc 2 s ∙ mul_comm n 2 in
    let half : (2 * n - 1) / 2 ≡ n - 1 = omega arith in
    let odd : (2 * n - 1) % 2 ≡ 1 = omega (arith, one-le-pow s 2 (omega arith)) in
    rw p (
      bit_and-half (2 * n - 1) a
      ∙ (rw (half, odd) (omega (arith, low_mask s (a / 2), mod-double a n))))

half_bit_and : (x a : ℕ) → bit_and x a / 2 ≡ bit_and (x / 2) (a / 2)
half_bit_and x a = omega (arith, bit_and-half x a)

-- The digits above `b` of a masked word.
high_mask : (b x a : ℕ) → bit_and (x * 2 ^ b) a / 2 ^ b ≡ bit_and x (a / 2 ^ b)
high_mask zero x a =
    div-one (bit_and (x * 1) a)
    ∙ ap (λ y. bit_and y a) (mul-one x)
    ∙ ap (bit_and x) (sym (div-one a))
high_mask (suc b) x a =
    let n : ℕ = 2 ^ b in
    let p : 2 ^ suc b ≡ 2 * n = pow-suc 2 b ∙ mul_comm n 2 in
    let word : ℕ = bit_and (x * (2 * n)) a in
    let same : x * (2 * n) ≡ 2 * (x * n) =
      omega (arith, mul_assoc x 2 n, mul_comm x 2, mul_assoc 2 x n) in
    let twice : x * (2 * n) / 2 ≡ x * n = omega (arith, same) in
    let half : word / 2 ≡ bit_and (x * n) (a / 2) =
      half_bit_and (x * (2 * n)) a ∙ ap (λ y. bit_and y (a / 2)) twice in
    rw p (
      sym (div-div-eq-div-mul word 2 n)
      ∙ ap (λ y. y / n) half
      ∙ high_mask b x (a / 2)
      ∙ ap (bit_and x) (div-div-eq-div-mul a 2 n))

pow_sum : (s b : ℕ) → 2 ^ s * 2 ^ b ≡ 2 ^ (s + b)
pow_sum s zero = mul-one (2 ^ s) ∙ ap (λ x. 2 ^ x) (omega arith)
pow_sum s (suc b) =
    ap (λ x. 2 ^ s * x) (pow-suc 2 b)
    ∙ sym (mul_assoc (2 ^ s) (2 ^ b) 2)
    ∙ ap (λ x. x * 2) (pow_sum s b)
    ∙ sym (pow-suc 2 (s + b))
    ∙ ap (λ x. 2 ^ x) (omega arith)

mask_fits : (s b : ℕ) → b + s ≤ 64 → (2 ^ s - 1) * 2 ^ b < word_mod
mask_fits s b h =
    let top : 2 ^ s * 2 ^ b ≡ 2 ^ (s + b) = pow_sum s b in
    let le : 2 ^ (s + b) ≤ 2 ^ 64 =
      pow-le-pow_right {n = 2} (omega arith) {i = s + b} {j = 64} (omega arith) in
    omega (
      arith,
      mul-lt-mul_of_pos_right {m = 2 ^ s - 1} {n = 2 ^ s} {k = 2 ^ b}
          (omega (arith, one-le-pow s 2 (omega arith))) (one-le-pow b 2 (omega arith)),
    )

-- The set number of an address is the number that the `s` bits above the low `b` make.
setid_of_lem :
    (s lines b addr : ℕ)
    → b + s ≤ 64
    → setid_of (masks s lines b (2 ^ s)) addr ≡ addr / 2 ^ b % 2 ^ s
unfolding setid_of
setid_of_lem s lines b addr h =
    let msk : ℕ = (2 ^ s - 1) * 2 ^ b in
    let fits : msk % word_mod ≡ msk = omega (arith, mask_fits s b h) in
    rw fits (high_mask b (2 ^ s - 1) addr ∙ low_mask s (addr / 2 ^ b))

and_comm : (n a b : ℕ) → a + b ≤ n → bit_and a b ≡ bit_and b a
and_comm zero a b h = omega (arith, bit_and-le 0 a b (omega arith), bit_and-le 0 b a (omega arith))
and_comm (suc n) a b h =
    omega (arith, bit_and-half a b, bit_and-half b a, and_comm n (a / 2) (b / 2) (omega arith))

-- A mask with no low digits clears them.
cleared_mask : (b x a : ℕ) → bit_and (x * 2 ^ b) a ≡ bit_and x (a / 2 ^ b) * 2 ^ b
cleared_mask zero x a =
    ap (λ y. bit_and y a) (mul-one x)
    ∙ ap (bit_and x) (sym (div-one a))
    ∙ sym (mul-one (bit_and x (a / 1)))
cleared_mask (suc b) x a =
    let n : ℕ = 2 ^ b in
    let p : 2 ^ suc b ≡ 2 * n = pow-suc 2 b ∙ mul_comm n 2 in
    let same : x * (2 * n) ≡ 2 * (x * n) =
      omega (arith, mul_assoc x 2 n, mul_comm x 2, mul_assoc 2 x n) in
    let half : bit_and (x * (2 * n) / 2) (a / 2) ≡ bit_and (x * n) (a / 2) =
      ap (λ y. bit_and y (a / 2)) (◌∙◌ {A = ℕ} (omega (arith, same)) refl) in
    let z : ℕ = bit_and x (a / (2 * n)) in
    let e : bit_and x (a / 2 / n) * n ≡ z * n =
      ap (λ y. bit_and x y * n) (div-div-eq-div-mul a 2 n) in
    let assoc : z * (2 * n) ≡ 2 * (z * n) =
      omega (arith, mul_assoc z 2 n, mul_comm z 2, mul_assoc 2 z n) in
    rw p
      (omega (arith, bit_and-half (x * (2 * n)) a, half, cleared_mask b x (a / 2), e, assoc, same))

minus_times : (t u n : ℕ) → (t - u) * n ≡ t * n - u * n
minus_times t u n = omega (arith, mul_comm (t - u) n, mul-sub n t u, mul_comm t n, mul_comm u n)

mul-le_right : (t n : ℕ) → 1 ≤ t → n ≤ t * n
mul-le_right zero n h = absurd (omega arith)
mul-le_right (suc t) n h = omega (arith, add-mul t 1 n)

less_one : (t n : ℕ) → (t - 1) * n ≡ t * n - n
less_one t n = omega (arith, minus_times t 1 n)

-- The low `k` digits of a word, masked off.
module _ (k : ℕ) (h : k ≤ 64) where
  top : 2 ^ (64 - k) * 2 ^ k ≡ word_mod
  top = pow_sum (64 - k) k ∙ ap (λ x. 2 ^ x) {y = 64} (omega arith)

  top_mask : (a : ℕ) → a < word_mod → bit_and ((2 ^ (64 - k) - 1) * 2 ^ k) a ≡ a / 2 ^ k * 2 ^ k
  top_mask a l =
      cleared_mask k (2 ^ (64 - k) - 1) a
      ∙ ap (λ x. x * 2 ^ k) (low_mask (64 - k) (a / 2 ^ k) ∙ mod-eq_of_lt small)
    where
      small : a / 2 ^ k < 2 ^ (64 - k)
      small = (div-lt_iff_lt-mul (one-le-pow k 2 (omega arith))).1 (omega (arith, top))

  -- What `~0UL << k` is.
  high_ones : shl64 (word_mod - 1) k ≡ (2 ^ (64 - k) - 1) * 2 ^ k
  high_ones =
      let n : ℕ = 2 ^ k in
      let t : ℕ = 2 ^ (64 - k) in
      let part : (t - 1) * n ≡ word_mod - n = omega (arith, top, less_one t n) in
      let positive : 1 ≤ n = one-le-pow k 2 (omega arith) in
      omega (arith, part, positive, top, n-le)
    where
      n-le : 2 ^ k ≤ 2 ^ 64
      n-le = pow-le-pow_right {n = 2} (omega arith) {i = k} {j = 64} h

-- The bits outside of the set number, cut to those above the offset.
module _ (s b : ℕ) (h : b + s ≤ 64) where
  outside : ℕ
  outside = word_mod - 1 - (2 ^ s - 1) * 2 ^ b

  outside_parts : outside ≡ (2 ^ b - 1) + (2 ^ (64 - b) - 2 ^ s) * 2 ^ b
  unfolding outside
  outside_parts =
      let n : ℕ = 2 ^ b in
      let positive : 1 ≤ n = one-le-pow b 2 (omega arith) in
      let low : n ≤ 2 ^ s * n =
        omega (arith, mul-le_right (2 ^ s) n (one-le-pow s 2 (omega arith))) in
      omega (
        arith,
        positive,
        low,
        mask_fits s b h,
        top b (omega arith),
        minus_times (2 ^ (64 - b)) (2 ^ s) n,
        less_one (2 ^ s) n,
        pow_sum s b,
        pow-le-pow_right {n = 2} (omega arith) {i = s + b} {j = 64} (omega arith),
      )

  outside_high : outside / 2 ^ b * 2 ^ b ≡ (2 ^ (64 - (s + b)) - 1) * 2 ^ (s + b)
  outside_high =
      let n : ℕ = 2 ^ b in
      let d : ℕ = 2 ^ (64 - b) - 2 ^ s in
      let positive : 1 ≤ n = one-le-pow b 2 (omega arith) in
      let under : n - 1 < n = omega (arith, positive) in
      let q : outside / n ≡ d =
        ap (λ x. x / n) outside_parts
        ∙ add-mul-div_right (n - 1) d positive
        ∙ ap (λ x. x + d) (div-eq_of_lt under)
        ∙ zero-add d in
      ap (λ x. x * n) q
      ∙ omega (
        arith,
        minus_times (2 ^ (64 - b)) (2 ^ s) n,
        top b (omega arith),
        pow_sum s b,
        less_one (2 ^ (64 - (s + b))) (2 ^ (s + b)),
        top (s + b) (omega arith),
      )

  tagmsk_lem :
      (lines : ℕ) → (masks s lines b (2 ^ s)).tagmsk ≡ (2 ^ (64 - (s + b)) - 1) * 2 ^ (s + b)
  unfolding outside
  tagmsk_lem lines =
      let ones : ℕ = word_mod - 1 in
      let high : ℕ = (2 ^ (64 - b) - 1) * 2 ^ b in
      let e1 : shl64 (2 ^ s - 1) b ≡ (2 ^ s - 1) * 2 ^ b = omega (arith, mask_fits s b h) in
      let e2 : bit_and ones outside ≡ outside = omega (arith, low_mask 64 outside) in
      ap (λ m. bit_and (bit_and ones (not64 m)) (shl64 ones b)) e1
      ∙ ap (λ y. bit_and y (shl64 ones b)) e2
      ∙ ap (bit_and outside) (high_ones b (omega arith))
      ∙ and_comm (outside + high) outside high (omega arith)
      ∙ top_mask b (omega arith) outside (omega arith)
      ∙ outside_high

-- The two parts of a 64-bit address that access_cache uses, with fewer than 31 index bits, fewer than 64 offset
-- bits and no more than 64 of both: the set number is the number that the `s` bits above the low `b` make; the tag is the address with those
-- bits and the low ones cleared, divided by two.
pub setup_params_lem :
    (s lines b addr : ℕ)
    → s < 31
    → b < 64
    → b + s ≤ 64
    → addr < word_mod
    → let p = setup_params s lines b in
      (setid_of p addr ≡ addr / 2 ^ b % 2 ^ s)
      × (tag_of p addr ≡ addr / 2 ^ (s + b) * 2 ^ (s + b) / 2)
unfolding setup_params tag_of
setup_params_lem s lines b addr narrow inside h l = (
  ap (λ z. setid_of (masks s lines b z) addr) (int_shl_lem s narrow)
      ∙ setid_of_lem s lines b addr h,
  ap (λ z. tag_of (masks s lines b z) addr) (int_shl_lem s narrow)
      ∙ ap (λ m. bit_and m addr / 2) (tagmsk_lem s b h lines)
      ∙ ap (λ x. x / 2) (top_mask (s + b) (omega arith) addr l),
)

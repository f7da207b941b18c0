-- ===== src/CacheSim/Params.antt =====
-- labs/05-cache/params.c: the masks that `setup_params` makes of the options.
use csapp_3e_study.Base.{
  ℕ, ◌+◌, ◌-◌, ◌*◌, ◌/◌, ◌%◌, ◌^◌, ◌<◌, ◌≡◌, ltb, if◌then◌else◌, arith, bit_and,
}
use native.Mathlib.Nat.{pow-le-pow_right}
use csapp_3e_study.Base.Words.{word_mod}

-- `~x`, `x << k` and `x >> k` on a `uint64_t`.
abbrev pub not64 : ℕ → ℕ
not64 x = word_mod - 1 - x

abbrev pub shl64 : ℕ → ℕ → ℕ
shl64 x k = x * 2 ^ k % word_mod

abbrev pub shr64 : ℕ → ℕ → ℕ
shr64 x k = x / 2 ^ k

-- `struct Params`, less the trace file and the verbose flag. `s` and `b` are the numbers of index
-- and offset bits.
pub record Params : Type 0 where
  pub s : ℕ
  pub lines : ℕ
  pub b : ℕ
  pub setsz : ℕ
  pub setmsk : ℕ
  pub tagmsk : ℕ

-- `1 << s`, which is an `int`, as a `uint64_t`: at 31 the sign fills the upper half. The shift is
-- defined for `s` below 32, and that of a `uint64_t` by `b` for `b` below 64.
unfoldable pub int_shl : ℕ → ℕ
int_shl s = let v = 2 ^ s % 2 ^ 32 in if ltb v (2 ^ 31) then v else v + (word_mod - 2 ^ 32)

pub int_shl_lem : (s : ℕ) → s < 31 → int_shl s ≡ 2 ^ s
unfolding int_shl
int_shl_lem s h =
    ground (arith, pow-le-pow_right {n = 2} (omega arith) {i = s} {j = 30} (omega arith))

-- The masks for a number of sets.
abbrev pub masks : ℕ → ℕ → ℕ → ℕ → Params
masks s lines b setsz =
    let rev_blkmsk = shl64 (not64 0) b in
    let setmsk = shl64 (setsz - 1) b in
    record {
      s = s;
      lines = lines;
      b = b;
      setsz = setsz;
      setmsk = setmsk;
      tagmsk = bit_and (bit_and (not64 0) (not64 setmsk)) rev_blkmsk;
    }

unfoldable pub setup_params : ℕ → ℕ → ℕ → Params
setup_params s lines b = masks s lines b (int_shl s)

-- The two parts of an address that `access_cache` uses.
unfoldable pub tag_of : Params → ℕ → ℕ
tag_of p addr = shr64 (bit_and p.tagmsk addr) 1

unfoldable pub setid_of : Params → ℕ → ℕ
setid_of p addr = shr64 (bit_and p.setmsk addr) p.b

-- ===== src/CacheSim/Initial.antt =====
-- The cache that `init_cache` makes, and the set numbers it has.
use csapp_3e_study.Base.{
  ℕ, zero, suc, ◌-◌, ◌*◌, ◌^◌, ◌≤◌, ◌<◌, ◌≡◌, refl, arith, bit_and, none, replicate, length,
  length-replicate,
}
use native.Mathlib.Nat.{mod-le, mul_comm, div-le_of_le-mul, one-le-pow}
use csapp_3e_study.Base.Tables.{All-replicate}
use csapp_3e_study.Base.Words.{bit_and-le}
use csapp_3e_study.CacheSim.Params.{Params, masks, setid_of, shl64}
use csapp_3e_study.CacheSim.Sets.{no_line, init_cache}
use csapp_3e_study.CacheSim.Sets.Loop.{count, Packed}
use csapp_3e_study.CacheSim.Sets.Lru.{IsCacheSet, Stamped}
use csapp_3e_study.CacheSim.Whole.{IsCache}

-- The set number of an address is that of a set.
pub setid_of-lt : (s lines b addr : ℕ) → setid_of (masks s lines b (2 ^ s)) addr < 2 ^ s
unfolding setid_of
setid_of-lt s lines b addr =
    let msk : ℕ = shl64 (2 ^ s - 1) b in
    let part : bit_and msk addr ≤ msk = bit_and-le msk msk addr (omega arith) in
    let cut : msk ≤ (2 ^ s - 1) * 2 ^ b = mod-le _ _ in
    let comm : (2 ^ s - 1) * 2 ^ b ≡ 2 ^ b * (2 ^ s - 1) = mul_comm _ _ in
    omega (
      arith,
      div-le_of_le-mul (2 ^ b) {m = bit_and msk addr} {n = 2 ^ s - 1} (omega arith),
      one-le-pow s 2 (omega arith),
    )

-- The lines that `init_cache` makes.
count-replicate : (m : ℕ) (u : ℕ) → count u (replicate m no_line) ≡ 0
count-replicate zero u = refl
count-replicate (suc m) u = omega (arith, count-replicate m u)

replicate-Packed : (m : ℕ) → Packed (replicate m no_line)
replicate-Packed zero = tt
replicate-Packed (suc m) =
    (λ e. All-replicate (λ x. x.tag ≡ none) m no_line refl, replicate-Packed m)

replicate-IsCacheSet : (m : ℕ) → IsCacheSet 0 (replicate m no_line)
replicate-IsCacheSet m = record {
  distinct = λ u. omega (arith, count-replicate m u);
  packed = replicate-Packed m;
  stamped = All-replicate (Stamped 0) m no_line (λ v. absurd (v refl));
}

init_cache-IsCache : (p : Params) → 0 < p.lines → IsCache p.setsz p.lines (init_cache p)
unfolding init_cache
init_cache-IsCache p h = record {
  sets =
      All-replicate (λ ls. IsCacheSet 0 ls × (length ls ≡ p.lines)) p.setsz _
        (replicate-IsCacheSet p.lines, length-replicate p.lines no_line);
  number = length-replicate p.setsz _;
  ways = h;
}

pub start :
    (s lines b : ℕ) → 0 < lines → IsCache (2 ^ s) lines (init_cache (masks s lines b (2 ^ s)))
start s lines b h = init_cache-IsCache (masks s lines b (2 ^ s)) h

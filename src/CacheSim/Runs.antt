-- ===== src/CacheSim/Runs.antt =====
-- labs/05-cache/csim.c: the counts, over the accesses of a trace.
use csapp_3e_study.Base.{ℕ, ◌+◌, ◌/◌, ◌%◌, Bool, List, [], ◌∷◌, if◌then◌else◌}
use csapp_3e_study.CacheSim.Params.{Params}
use csapp_3e_study.CacheSim.Sets.{Cache, Result, hit, miss, miss_evict, init_cache, access_cache}

-- `counts`, by what each of the three counts.
pub record Counts : Type 0 where
  pub hits : ℕ
  pub misses : ℕ
  pub evictions : ℕ

-- The bits of a `CacheOpResult`: kHit is 1, kMiss 2, and an eviction adds kEvict, 4, to kMiss.
abbrev pub bits : Result → ℕ
bits hit = 1
bits miss = 2
bits miss_evict = 6

-- `handle_entry`: its loop over the three bits adds each to its count.
unfoldable pub handle_entry : Params → Cache × Counts → ℕ → Cache × Counts
handle_entry p (c, k) addr =
    let (r, c') = access_cache p c addr in
    (
      c',
      record {
        hits = k.hits + bits r % 2;
        misses = k.misses + bits r / 2 % 2;
        evictions = k.evictions + bits r / 4 % 2;
      },
    )

-- The loop of `run`. An entry is a line of the trace that starts with a space: whether its type is
-- `M`, and its address.
unfoldable pub run_entries : Params → Cache × Counts → List (Bool × ℕ) → Cache × Counts
run_entries p s [] = s
run_entries p s ((is_modify, addr) ∷ es) =
    let s' = handle_entry p s addr in
    run_entries p (if is_modify then handle_entry p s' addr else s') es

-- `main`, with the entries of the trace.
unfoldable pub run : Params → List (Bool × ℕ) → Cache × Counts
unfolding run_entries
run p es = run_entries p (init_cache p, record { hits = 0; misses = 0; evictions = 0 }) es

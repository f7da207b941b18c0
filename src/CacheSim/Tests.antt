-- ===== src/CacheSim/Tests.antt =====
-- A set of two lines with one in use, and the theorems at it.
use csapp_3e_study.Base.{
  ℕ, ◌+◌, ◌*◌, ◌/◌, ◌%◌, ◌^◌, Bool, true, false, ◌<◌, ◌≡◌, ◌≢◌, refl, arith, List, [], ◌∷◌, ◌++◌,
  some, none,
}
use csapp_3e_study.CacheSim.Addresses.{setup_params_lem}
use csapp_3e_study.CacheSim.Params.{Params, int_shl, setup_params, tag_of, setid_of}
use csapp_3e_study.CacheSim.Sets.{
  Line, no_line, Cache, miss, scan, use_line, access_set, init_cache, access_cache,
}
use csapp_3e_study.CacheSim.Sets.Times.{Timed}
use csapp_3e_study.CacheSim.Sets.Lru.{IsCacheSet, Effect, access_set_lem}
use csapp_3e_study.CacheSim.Whole.{IsCache}
use csapp_3e_study.CacheSim.Runs.{Counts, handle_entry, run_entries, run}
use csapp_3e_study.CacheSim.Counting.{Counted, run_counts}

abbrev lines : List Line
lines = record { tag = some 5; ts = 2 } ∷ no_line ∷ []

some-none : {x : ℕ} → some x ≢ none
some-none e = cc

lines-IsCacheSet : IsCacheSet 2 lines
lines-IsCacheSet = record {
  distinct = λ u. ground arith;
  packed = (λ e. absurd (some-none e), (λ e. tt, tt));
  stamped = (λ h. (omega arith, omega arith), (λ h. absurd (h refl), tt));
}

abbrev filled_lines : List Line
filled_lines = record { tag = some 5; ts = 2 } ∷ record { tag = some 8; ts = 3 } ∷ []

access_set_lem_example :
    Effect 8 lines filled_lines miss
    × IsCacheSet 3 filled_lines
    × ◌≡◌ {A = ℕ} 2 2
    × Timed 8 3 lines filled_lines
unfolding scan use_line access_set
access_set_lem_example = access_set_lem 2 8 lines-IsCacheSet (omega arith) (omega arith)

-- Two sets of one line, for blocks of 16 bytes.
abbrev small_params : Params
small_params = setup_params 1 1 4

-- A load of address 16, a modify of 48, and a load of 16 again.
abbrev trace : List (Bool × ℕ)
trace = (false, 16) ∷ (true, 48) ∷ (false, 16) ∷ []

abbrev summary : Cache × Counts → ℕ × ℕ × ℕ
summary (c, k) = (k.hits, k.misses, k.evictions)

trace_counts : summary (run small_params trace) ≡ (1, 3, 2)
unfolding int_shl setup_params tag_of setid_of scan use_line access_set init_cache access_cache
    handle_entry run_entries run
trace_counts = refl

run_counts_example :
    let p = setup_params 1 1 4 in
    Counted (2 ^ 1) 1 trace (run p trace) (run p (trace ++ (true, 80) ∷ [])).1
run_counts_example =
    run_counts 1 1 4 trace (true, 80) (omega arith) (omega arith) (omega arith) (omega arith)

-- The cache with the lines above as its one set.
abbrev one_set : Cache
one_set = record { sets = lines ∷ []; tick = 2 }

one_set-IsCache : IsCache 1 2 one_set
one_set-IsCache = record {
  sets = ((lines-IsCacheSet, refl), tt);
  number = refl;
  ways = omega arith;
}

in_set : setid_of (setup_params 0 2 4) 300 < 1
unfolding int_shl setup_params setid_of
in_set = omega arith

setup_params_lem_example :
    (setid_of small_params 300 ≡ 300 / 2 ^ 4 % 2 ^ 1)
    × (tag_of small_params 300 ≡ 300 / 2 ^ (1 + 4) * 2 ^ (1 + 4) / 2)
setup_params_lem_example =
    setup_params_lem 1 1 4 300 (omega arith) (omega arith) (omega arith) (omega arith)

-- ===== src/CacheSim/Counting.antt =====
-- What the counts of csim.c add up to.
use csapp_3e_study.Base.{
  ℕ, ◌+◌, ◌*◌, ◌/◌, ◌%◌, ◌^◌, ◌≤◌, ◌<◌, ◌≡◌, ◌∙◌, refl, ap, sym, subst, arith, Bool, true, false,
  List, [], ◌∷◌, ◌++◌, if◌then◌else◌, get_or, get_or-set_self, length,
}
use csapp_3e_study.Base.Words.{word_mod}
use csapp_3e_study.CacheSim.Params.{Params, int_shl_lem, masks, setup_params, tag_of, setid_of}
use csapp_3e_study.CacheSim.Sets.{
  Line, Cache, Result, hit, miss, miss_evict, init_cache, access_cache,
}
use csapp_3e_study.CacheSim.Sets.Loop.{count, holds}
use csapp_3e_study.CacheSim.Sets.Times.{holds-le-count}
use csapp_3e_study.CacheSim.Sets.Lru.{Effect, was_hit, filled, evicted}
use csapp_3e_study.CacheSim.Initial.{setid_of-lt, start}
use csapp_3e_study.CacheSim.Whole.{IsCache, access_cache_lem}
use csapp_3e_study.CacheSim.Runs.{Counts, bits, handle_entry, run_entries, run}

-- The tag is in the set once it has been used.
count-Effect : {t : ℕ} {ls ls' : List Line} {r : Result} → Effect t ls ls' r → count t ls' ≡ 1
count-Effect {t} (was_hit c same) = same t ∙ c
count-Effect {t} (filled k l at e z change) = ground (arith, change t)
count-Effect {t} {ls} (evicted k v l at e old z change) =
    ground (arith, change t, holds-le-count ls k l t at, ap (λ o. holds o t) e)

-- A tag that is in the set is hit.
hit-Effect :
    {t : ℕ} {ls ls' : List Line} {r : Result} → count t ls ≡ 1 → Effect t ls ls' r → r ≡ hit
hit-Effect c (was_hit _ _) = refl
hit-Effect c (filled k l at e z change) = absurd (omega arith)
hit-Effect c (evicted k v l at e old z change) = absurd (omega arith)

-- What one call of `handle_entry` adds.
abbrev pub Added : Counts → Counts → ℕ → ℕ → Type 0
Added k k' accesses misses =
    (k'.hits + k'.misses ≡ k.hits + k.misses + accesses)
    × (k'.misses ≤ k.misses + misses)
    × (k'.evictions + k.misses ≤ k.evictions + k'.misses)

bits-Added :
    (r : Result) (k : Counts)
    → Added k
        (record {
          hits = k.hits + bits r % 2;
          misses = k.misses + bits r / 2 % 2;
          evictions = k.evictions + bits r / 4 % 2;
        })
        1
        1
bits-Added hit k = (omega arith, omega arith, omega arith)
bits-Added miss k = (omega arith, omega arith, omega arith)
bits-Added miss_evict k = (omega arith, omega arith, omega arith)

-- How often a line of the trace accesses the cache, and how often all lines do.
abbrev pub line_accesses : Bool → ℕ
line_accesses m = if m then 2 else 1

abbrev pub accesses : List (Bool × ℕ) → ℕ
accesses [] = 0
accesses ((m, addr) ∷ es) = line_accesses m + accesses es

line_accesses-le : (m : Bool) → line_accesses m ≤ 2
line_accesses-le true = omega arith
line_accesses-le false = omega arith

module _ {n e : ℕ} (p : Params) (in_range : (addr : ℕ) → setid_of p addr < n) where
  -- A state of the run: what an access of it does.
  entry_lem :
      (c : Cache) (k : Counts) (addr : ℕ)
      → IsCache n e c
      → c.tick + 2 < word_mod
      → let (c', k') = handle_entry p (c, k) addr in
        IsCache n e c'
        × (c'.tick ≡ c.tick + 1)
        × Added k k' 1 1
        × (count (tag_of p addr) (get_or c'.sets (setid_of p addr) []) ≡ 1)
        × (count (tag_of p addr) (get_or c.sets (setid_of p addr) []) ≡ 1 → k'.misses ≡ k.misses)
  unfolding handle_entry
  entry_lem c k addr w small =
      let (ls', change, effect, tick, valid) = access_cache_lem c w small p addr (in_range addr) in
      (
        valid,
        tick,
        bits-Added (access_cache p c addr).0 k,
        ap (λ ss. count (tag_of p addr) (get_or ss (setid_of p addr) [])) change
            ∙ ap (count (tag_of p addr)) (
                get_or-set_self c.sets (setid_of p addr) ls' []
                  (omega (arith, in_range addr, w.number)))
            ∙ count-Effect effect,
        λ one. rw (hit-Effect one effect) (omega arith),
      )

  -- What a line of the trace does: a modify accesses twice, and misses at most once.
  line_lem :
      (c : Cache) (k : Counts) (m : Bool) (addr : ℕ)
      → IsCache n e c
      → c.tick + 3 < word_mod
      → let s' = handle_entry p (c, k) addr in
        let (c'', k'') = if m then handle_entry p s' addr else s' in
        IsCache n e c'' × (c''.tick ≡ c.tick + line_accesses m) × Added k k'' (line_accesses m) 1
  line_lem c k false addr w small =
      let (valid, tick, added, _, _) = entry_lem c k addr w (omega arith) in (valid, tick, added)
  line_lem c k true addr w small =
      let (c', k') = handle_entry p (c, k) addr in
      let (valid, tick, (sum, misses, evictions), one, _) = entry_lem c k addr w (omega arith) in
      let (valid', tick', (sum', misses', evictions'), _, hits) =
        entry_lem c' k' addr valid (omega (arith, tick)) in
      (
        valid',
        omega (arith, tick, tick'),
        (
          omega (arith, sum, sum'),
          omega (arith, misses, hits one),
          omega (arith, evictions, evictions'),
        ),
      )

  entries_lem :
      (es : List (Bool × ℕ)) (c : Cache) (k : Counts)
      → IsCache n e c
      → c.tick + 2 * length es + 2 < word_mod
      → let (c', k') = run_entries p (c, k) es in
        IsCache n e c' × (c'.tick ≡ c.tick + accesses es) × Added k k' (accesses es) (length es)
  unfolding run_entries
  entries_lem [] c k w small = (w, omega arith, (omega arith, omega arith, omega arith))
  entries_lem ((m, addr) ∷ es) c k w small =
      let s1 = handle_entry p (c, k) addr in
      let (c1, k1) = if m then handle_entry p s1 addr else s1 in
      let (valid, tick, (sum, misses, evictions)) = line_lem c k m addr w (omega arith) in
      let twice : line_accesses m ≤ 2 = line_accesses-le m in
      let (valid', tick', (sum', misses', evictions')) =
        entries_lem es c1 k1 valid (omega (arith, tick, twice)) in
      (
        valid',
        omega (arith, tick, tick'),
        (
          omega (arith, sum, sum'),
          omega (arith, misses, misses'),
          omega (arith, evictions, evictions'),
        ),
      )

-- The entries of a trace, and one after them.
run_entries-last :
    (p : Params) (es : List (Bool × ℕ)) (s : Cache × Counts) (x : Bool × ℕ)
    → run_entries p s (es ++ x ∷ []) ≡ run_entries p (run_entries p s es) (x ∷ [])
unfolding run_entries
run_entries-last p [] s x = refl
run_entries-last p ((m, addr) ∷ es) s x =
    let s' = handle_entry p s addr in
    run_entries-last p es (if m then handle_entry p s' addr else s') x

-- What the counts of a run over some entries, and of a run with one more, are.
abbrev pub Counted : ℕ → ℕ → List (Bool × ℕ) → Cache × Counts → Counts → Type 0
Counted sets lines es (c, k) k' =
    (k.hits + k.misses ≡ accesses es)
    × (k.misses ≤ length es)
    × (k.evictions ≤ k.misses)
    × (c.tick ≡ accesses es)
    × IsCache sets lines c
    × (k'.misses ≤ k.misses + 1)

accesses-le : (es : List (Bool × ℕ)) → accesses es ≤ 2 * length es
accesses-le [] = omega arith
accesses-le ((m, addr) ∷ es) = omega (arith, line_accesses-le m, accesses-le es)

-- Any parameters that give each address a set.
run-Counted :
    {n e : ℕ} (p : Params) (es : List (Bool × ℕ)) (x : Bool × ℕ)
    → ((addr : ℕ) → setid_of p addr < n)
    → IsCache n e (init_cache p)
    → length es < 2 ^ 30
    → Counted n e es (run p es) (run p (es ++ x ∷ [])).1
unfolding run init_cache
run-Counted p es x in_range w small =
    let k : Counts = record { hits = 0; misses = 0; evictions = 0 } in
    let (valid, tick, (sum, misses, evictions)) =
      entries_lem p in_range es (init_cache p) k w (omega arith) in
    let (c', k') = run_entries p (init_cache p, k) es in
    let (_, _, (_, more, _)) =
      entries_lem p in_range (x ∷ []) c' k' valid (omega (arith, tick, accesses-le es)) in
    (
      omega (arith, sum),
      omega (arith, misses),
      omega (arith, evictions),
      omega (arith, tick),
      valid,
      omega (arith, more, ap (λ s. s.1.misses) (run_entries-last p es (init_cache p, k) x)),
    )

-- A run over the entries of a trace, fewer than 2 ^ 30 of them, with at least one line in a set, fewer
-- than 31 index bits and fewer than 64 offset bits: hits and misses add up to the accesses, two for a
-- modify and one for another entry; there are no more misses than entries, and a run with any one entry
-- more, a modify too, has at most one miss more; there are no more evictions than misses; and the cache
-- is well formed, in 2 ^ s sets, at the tick of its accesses.
pub run_counts :
    (s lines b : ℕ) (es : List (Bool × ℕ)) (x : Bool × ℕ)
    → s < 31
    → b < 64
    → 0 < lines
    → length es < 2 ^ 30
    → let p = setup_params s lines b in Counted (2 ^ s) lines es (run p es) (run p (es ++ x ∷ [])).1
unfolding setup_params
run_counts s lines b es x narrow inside h small =
    subst
      (λ z.
        let p = masks s lines b z in Counted (2 ^ s) lines es (run p es) (run p (es ++ x ∷ [])).1)
      (sym (int_shl_lem s narrow))
      (run-Counted (masks s lines b (2 ^ s)) es x (setid_of-lt s lines b) (start s lines b h) small)

-- ===== src/CacheSim/Whole.antt =====
-- cache.c on the whole cache, and the counts of csim.c.
use csapp_3e_study.Base.{
  ℕ, ◌+◌, ◌%◌, ◌<◌, ◌≡◌, ◌∙◌, refl, subst, arith, List, [], get_or, set, length, length-set,
}
use csapp_3e_study.Base.Tables.{All, All-set, All-map, All-get}
use csapp_3e_study.Base.Words.{word_mod}
use csapp_3e_study.CacheSim.Params.{Params, tag_of, setid_of}
use csapp_3e_study.CacheSim.Sets.{Line, Cache, Result, access_set, access_cache}
use csapp_3e_study.CacheSim.Sets.Lru.{IsCacheSet, Stamped, Effect, access_set_lem}

-- A cache of `n` sets of `e` lines, at least one, each well formed at the tick.
pub record IsCache (n e : ℕ) (c : Cache) : Type 0 where
  pub sets : All (λ ls. IsCacheSet c.tick ls × (length ls ≡ e)) c.sets
  pub number : length c.sets ≡ n
  pub ways : 0 < e

older : (n : ℕ) (ls : List Line) → IsCacheSet n ls → IsCacheSet (n + 1) ls
older n ls w = record {
  distinct = w.distinct;
  packed = w.packed;
  stamped = All-map (Stamped n) (Stamped (n + 1)) (λ l h v. omega (arith, h v)) ls w.stamped;
}

-- What an access to an address leaves: the set that the address names has changed by the effect that
-- the result names, no other set has, and the cache is well formed at the next tick.
abbrev pub Accessed : ℕ → ℕ → ℕ → ℕ → Cache → Result × Cache → Type 0
Accessed n e tag id c r =
    (ls' : List Line) × (r.1.sets ≡ set c.sets id ls')
    × Effect tag (get_or c.sets id []) ls' r.0
    × (r.1.tick ≡ c.tick + 1)
    × IsCache n e r.1

module _ {n e : ℕ} (c : Cache) (w : IsCache n e c) (small : c.tick + 2 < word_mod) where
  set-Accessed :
      (tag id : ℕ)
      → id < n
      → let (res, ls') = access_set tag (c.tick + 1) (get_or c.sets id []) in
        Accessed n e tag id c (res, record { sets = set c.sets id ls'; tick = c.tick + 1 })
  set-Accessed tag id h =
      let (valid, len) =
        All-get (λ ls. IsCacheSet c.tick ls × (length ls ≡ e)) c.sets id [] w.sets
          (omega (arith, w.number)) in
      let (res, ls') = access_set tag (c.tick + 1) (get_or c.sets id []) in
      let (effect, valid', len', _) =
        access_set_lem c.tick tag valid small (omega (arith, len, w.ways)) in
      (
        ls',
        refl,
        effect,
        refl,
        record {
          sets =
              All-set (λ ls. IsCacheSet (c.tick + 1) ls × (length ls ≡ e)) c.sets id ls'
                (All-map (λ ls. IsCacheSet c.tick ls × (length ls ≡ e))
                  (λ ls. IsCacheSet (c.tick + 1) ls × (length ls ≡ e))
                  (λ ls q. (older c.tick ls q.0, q.1)) c.sets w.sets)
                (valid', len' ∙ len);
          number = length-set c.sets id ls' ∙ w.number;
          ways = w.ways;
        },
      )

  same_tick : c.tick + 1 ≡ (c.tick + 1) % word_mod
  same_tick = omega arith

  -- One access to a well-formed cache, where the tick plus 2 is a word, at an address whose set the
  -- cache has: the set that the address names changes by the effect that the result names, no other
  -- set changes, and the cache is well formed at the next tick.
  pub access_cache_lem :
      (p : Params) (addr : ℕ)
      → setid_of p addr < n
      → Accessed n e (tag_of p addr) (setid_of p addr) c (access_cache p c addr)
  unfolding access_cache
  access_cache_lem p addr h =
      let id = setid_of p addr in
      subst
        (λ now.
          let (res, ls') = access_set (tag_of p addr) now (get_or c.sets id []) in
          Accessed n e (tag_of p addr) id c (res, record { sets = set c.sets id ls'; tick = now }))
        same_tick (set-Accessed (tag_of p addr) id h)

-- ===== src/CacheSim/Sets.antt =====
-- labs/05-cache/cache.c: the sets, and `access_cache`.
pub mod Loop
pub mod Times
pub mod Lru
use csapp_3e_study.Base.{
  ℕ, zero, suc, ◌+◌, ◌-◌, ◌%◌, Bool, true, false, List, [], ◌∷◌, Option, some, none, ◌==◌, ltb, leb,
  if◌then◌else◌, get_or, set, replicate,
}
use csapp_3e_study.Base.Words.{word_mod}
use csapp_3e_study.CacheSim.Params.{Params, tag_of, setid_of}

-- `struct CacheLine`. A tag below 0 (an invalid line) is `none`; a tag of `access_cache` is shifted
-- right and never negative.
pub record Line : Type 0 where
  pub tag : Option ℕ
  pub ts : ℕ

abbrev pub no_line : Line
no_line = record { tag = none; ts = 0 }

-- `cache` and `tick`. `malloc` leaves the time of a new line open; no code reads it before it is
-- written, and it is 0 here.
pub record Cache : Type 0 where
  pub sets : List (List Line)
  pub tick : ℕ

-- `init_cache`
unfoldable pub init_cache : Params → Cache
init_cache p = record { sets = replicate p.setsz (replicate p.lines no_line); tick = 0 }

-- `CacheOpResult`
pub data Result : Type 0 where
  hit miss miss_evict : Result

-- What the loop over the lines ends with: the line that is hit, or `argmin` and `min_ts`.
pub data Scan : Type 0 where
  found : ℕ → Scan
  victim : ℕ → ℕ → Scan

-- The loop of `access_cache` from line `i` on.
unfoldable pub scan : ℕ → List Line → ℕ → ℕ → ℕ → Scan
scan tag [] i min_ts argmin = victim argmin min_ts
scan tag (l ∷ ls) i min_ts argmin = elim l.tag [
  | none ↦ victim i 0
  | some t ↦
      let rest =
        if ltb l.ts min_ts then scan tag ls (i + 1) l.ts i else scan tag ls (i + 1) min_ts argmin in
      if t == tag then found i else rest
]

-- The rest of `access_cache` on the lines of the set: on a miss the line `argmin` takes the tag, and
-- the line that was used takes the time.
unfoldable pub use_line : ℕ → ℕ → List Line → Scan → Result × List Line
use_line tag now ls (found i) = (hit, set ls i (record (get_or ls i no_line) { ts = now }))
use_line tag now ls (victim argmin min_ts) =
    (if min_ts == 0 then miss else miss_evict, set ls argmin (record { tag = some tag; ts = now }))

unfoldable pub access_set : ℕ → ℕ → List Line → Result × List Line
access_set tag now ls = use_line tag now ls (scan tag ls 0 (word_mod - 1) 0)

unfoldable pub access_cache : Params → Cache → ℕ → Result × Cache
access_cache p c addr =
    let id = setid_of p addr in
    let now = (c.tick + 1) % word_mod in
    let (r, ls) = access_set (tag_of p addr) now (get_or c.sets id []) in
    (r, record { sets = set c.sets id ls; tick = now })

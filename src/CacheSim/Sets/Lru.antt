-- ===== src/CacheSim/Sets/Lru.antt =====
-- `access_cache` on one set: hits, fills and evictions.
use csapp_3e_study.Base.{
  ℕ, zero, suc, ◌+◌, ◌-◌, ◌≤◌, ◌<◌, ◌≡◌, ◌≢◌, ◌∙◌, refl, ap, sym, subst, ne→==, arith, List, [],
  ◌∷◌, Option, some, none, set, length, length-set,
}
use csapp_3e_study.Base.Tables.{At, All, All-set, All-map, All-at, get_or-At}
use csapp_3e_study.Base.Words.{word_mod}
use csapp_3e_study.CacheSim.Sets.{
  Line, no_line, Result, hit, miss, miss_evict, Scan, use_line, access_set,
}
use csapp_3e_study.CacheSim.Sets.Times.{count-set, holds-le-count, Timed, set-Timed}
use csapp_3e_study.CacheSim.Sets.Loop.{
  holds, count, Packed, Front, Outcome, is_hit, is_free, is_old, is_kept, scan-Outcome,
}

abbrev pub Valid : Line → Type 0
Valid l = l.tag ≢ none

abbrev pub Stamped : ℕ → Line → Type 0
Stamped n l = l.tag ≢ none → (0 < l.ts) × (l.ts ≤ n)

-- A set after `n` ticks: no tag twice, the invalid lines last, and each valid line stamped with an
-- earlier tick.
pub record IsCacheSet (n : ℕ) (ls : List Line) : Type 0 where
  pub distinct : (u : ℕ) → count u ls ≤ 1
  pub packed : Packed ls
  pub stamped : All (Stamped n) ls

Packed-Valid : (ls : List Line) → All Valid ls → Packed ls
Packed-Valid [] h = tt
Packed-Valid (x ∷ ls) h = (λ z. absurd (h.0 z), Packed-Valid ls h.1)

Packed-fill :
    (ls : List Line) (k : ℕ) (l' : Line) → Front ls k → Packed ls → Valid l' → Packed (set ls k l')
Packed-fill [] k l' f p v = tt
Packed-fill (x ∷ ls) zero l' f p v = (λ z. absurd (v z), p.1)
Packed-fill (x ∷ ls) (suc k) l' f p v = (λ z. absurd (f.0 z), Packed-fill ls k l' f.1 p.1 v)

Packed-touch :
    (ls : List Line) (k : ℕ) (l l' : Line)
    → At ls k l
    → l'.tag ≡ l.tag
    → Packed ls
    → Packed (set ls k l')
Packed-touch [] k l l' at e p = tt
Packed-touch (x ∷ ls) zero l l' at e p =
    let same : x ≡ l = ground arith in (λ z. p.0 (ap (λ y. y.tag) same ∙ sym e ∙ z), p.1)
Packed-touch (x ∷ ls) (suc k) l l' at e p = (
  λ z.
      All-set (λ y. y.tag ≡ none) ls k l' (p.0 z)
        (e ∙ All-at (λ y. y.tag ≡ none) ls k l at (p.0 z)),
  Packed-touch ls k l l' at e p.1,
)

-- What an access to the tag `t` does to the tags of a set: nothing on a hit; on a miss the tag
-- comes in, into a free line, or, where no line is free, in place of a line with the oldest time.
pub data Effect (t : ℕ) (ls ls' : List Line) : Result → Type 0 where
  was_hit : count t ls ≡ 1 → ((u : ℕ) → count u ls' ≡ count u ls) → Effect t ls ls' hit
  filled :
      (k : ℕ) (l : Line)
      → At ls k l
      → l.tag ≡ none
      → count t ls ≡ 0
      → ((u : ℕ) → count u ls' ≡ count u ls + holds (some t) u)
      → Effect t ls ls' miss
  evicted :
      (k v : ℕ) (l : Line)
      → At ls k l
      → l.tag ≡ some v
      → All (λ x. Valid x × (l.ts ≤ x.ts)) ls
      → count t ls ≡ 0
      → ((u : ℕ) → count u ls' + holds (some v) u ≡ count u ls + holds (some t) u)
      → Effect t ls ls' miss_evict

tag_of_valid : (o : Option ℕ) → o ≢ none → (v : ℕ) × (o ≡ some v)
tag_of_valid none h = absurd (h refl)
tag_of_valid (some v) h = (v, refl)

Front-Valid : (ls : List Line) (k m : ℕ) → All (λ x. Valid x × (m ≤ x.ts)) ls → Front ls k
Front-Valid [] k m h = tt
Front-Valid (x ∷ ls) zero m h = tt
Front-Valid (x ∷ ls) (suc k) m h = (h.0.0, Front-Valid ls k m h.1)

oldest-le :
    {n m : ℕ} (ls : List Line)
    → All (Stamped n) ls
    → All (λ x. Valid x × (m ≤ x.ts)) ls
    → 0 < length ls
    → m ≤ n
oldest-le [] s h p = absurd (omega arith)
oldest-le (x ∷ ls) s h p = omega (arith, s.0 h.0.0)

zero_add_eq : {j k : ℕ} → j ≡ 0 + k → j ≡ k
zero_add_eq h = omega arith

module _ (n t : ℕ) {ls : List Line} (w : IsCacheSet n ls) (small : n + 2 < word_mod) where
  -- The new line, or the old one with a new time, in its place.
  fill_IsSet :
      (k : ℕ) (l : Line)
      → At ls k l
      → count t ls ≡ 0
      → Packed (set ls k (record { tag = some t; ts = n + 1 }))
      → IsCacheSet (n + 1) (set ls k (record { tag = some t; ts = n + 1 }))
  fill_IsSet k l at z p = record {
    distinct = λ u. fresh u;
    packed = p;
    stamped = All-set (Stamped (n + 1)) ls k _ older (λ v. omega arith);
  }
    where
      new : Line
      new = record { tag = some t; ts = n + 1 }

      fresh : (u : ℕ) → count u (set ls k new) ≤ 1
      fresh u = ground (arith, count-set ls k l new u at, w.distinct u)

      older : All (Stamped (n + 1)) ls
      older =
          All-map (Stamped n) (Stamped (n + 1))
            (λ x h v. let (a, b) = h v in (omega arith, omega arith)) ls w.stamped

  touch_IsSet :
      (k : ℕ) (l : Line)
      → At ls k l
      → l.tag ≡ some t
      → IsCacheSet (n + 1) (set ls k (record l { ts = n + 1 }))
  touch_IsSet k l at e = record {
    distinct = λ u. omega (arith, count-set ls k l (record l { ts = n + 1 }) u at, w.distinct u);
    packed = Packed-touch ls k l _ at refl w.packed;
    stamped =
        All-set (Stamped (n + 1)) ls k _
          (All-map (Stamped n) (Stamped (n + 1))
            (λ x h v. let (a, b) = h v in (omega arith, omega arith)) ls w.stamped)
          (λ v. omega arith);
  }

  filled_once :
      (k : ℕ) (l : Line)
      → At ls k l
      → count t ls ≡ 0
      → count t (set ls k (record { tag = some t; ts = n + 1 })) ≤ 1
  filled_once k l at z = ground (arith, count-set ls k l (record { tag = some t; ts = n + 1 }) t at)

  touched :
      (k : ℕ) (l : Line)
      → At ls k l
      → l.tag ≡ some t
      → Timed t (n + 1) ls (set ls k (record l { ts = n + 1 }))
  touched k l at e =
      subst (λ o. Timed t (n + 1) ls (set ls k (record { tag = o; ts = n + 1 }))) (sym e)
        (set-Timed t (n + 1) ls k l at w.distinct (
          omega (
            arith,
            count-set ls k l (record { tag = some t; ts = n + 1 }) t at,
            w.distinct t,
            ap (λ o. holds o t) e,
          )))

  use_line_lem :
      {r : Scan}
      → 0 < length ls
      → Outcome t ls 0 (word_mod - 1) 0 r
      → let (res, ls') = use_line t (n + 1) ls r in
        Effect t ls ls' res
        × IsCacheSet (n + 1) ls'
        × (length ls' ≡ length ls)
        × Timed t (n + 1) ls ls'
  unfolding use_line
  use_line_lem p (is_hit k l at e q) =
      let q' = zero_add_eq q in
      rw (q', get_or-At ls k l no_line at)
        (
          was_hit (ground (arith, holds-le-count ls k l t at, w.distinct t))
              (λ u. omega (arith, count-set ls k l (record l { ts = n + 1 }) u at)),
          touch_IsSet k l at e,
          length-set ls k _,
          touched k l at e,
        )
  use_line_lem p (is_free k l at e f z q o) =
      let new : Line = record { tag = some t; ts = n + 1 } in
      rw (zero_add_eq q, o)
        (
          filled k l at e z (λ u. ground (arith, count-set ls k l new u at)),
          fill_IsSet k l at z (Packed-fill ls k new f w.packed (λ v. cc)),
          length-set ls k _,
          set-Timed t (n + 1) ls k l at w.distinct (filled_once k l at z),
        )
  use_line_lem p (is_old k l {w = m} at lt all z q o) =
      let new : Line = record { tag = some t; ts = n + 1 } in
      let oldest = subst (λ m. All (λ x. Valid x × (m ≤ x.ts)) ls) o all in
      let valid = (All-at (λ x. Valid x × (l.ts ≤ x.ts)) ls k l at oldest).0 in
      let past = (All-at (Stamped n) ls k l at w.stamped valid).0 in
      let (v, e) = tag_of_valid l.tag valid in
      rw (zero_add_eq q, o, ne→== l.ts 0 (omega arith))
        (
          evicted k v l at e oldest z (λ u. ground (arith, count-set ls k l new u at)),
          fill_IsSet k l at z
              (Packed-fill ls k new (Front-Valid ls k l.ts oldest) w.packed (λ v. cc)),
          length-set ls k _,
          set-Timed t (n + 1) ls k l at w.distinct (filled_once k l at z),
        )
  use_line_lem p (is_kept all z q o) = absurd (omega (arith, oldest-le ls w.stamped all p))

  -- One access to a tag, at the tick after `n`, on a set that is well formed after `n` ticks and has at
  -- least one line, where `n + 2` is a word. A hit leaves the tags as they were; a miss brings the tag
  -- into a free line; a miss with an eviction brings it in, where no line is free, in place of the tag
  -- of a line with the oldest time. The time of the tag becomes `n + 1`, on a hit too, and every other tag
  -- that is left keeps its time, so that a time is the tick of the last access. The set is well formed
  -- after `n + 1` ticks and as large as it was.
  pub access_set_lem :
      0 < length ls
      → let (res, ls') = access_set t (n + 1) ls in
        Effect t ls ls' res
        × IsCacheSet (n + 1) ls'
        × (length ls' ≡ length ls)
        × Timed t (n + 1) ls ls'
  unfolding access_set
  access_set_lem p = use_line_lem p (scan-Outcome t ls 0 (word_mod - 1) 0 w.packed)

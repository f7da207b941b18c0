-- ===== src/Proxy/Cache/Puts.antt =====
-- `cache_put` and `cache_get` on a well-formed cache.
use csapp_3e_study.Base.{
  ℕ, ◌≤◌, ◌<◌, ◌≡◌, ◌≢◌, ◌∙◌, refl, ap, subst, arith, Bool, true, false, List, [], ◌∷◌, ◌++◌,
  Option, some, none, ◌==◌, ltb, ◌||◌, if◌then◌else◌, Bool-cases, inl, inr, ◌⊎◌, length, take, drop,
  length-take, length-drop, length-replicate, take_all, take-append, length-append, eq→==,
}
use csapp_3e_study.Base.Tables.{total}
use csapp_3e_study.Base.Texts.{same_text, same_text_iff, same_text_refl, same_text_ne}
use csapp_3e_study.Base.Words.{sub64}
use csapp_3e_study.Proxy.Cache.{
  Entry, Cache, uri_gen, entry_create, cache_bookkeeping, cache_put, look_up, grown, cache_get,
}
use csapp_3e_study.Proxy.Cache.Walks.{need, weight}
use csapp_3e_study.Proxy.Cache.Rooms.{
  one_if, count_uri, count_object, IsCache, Kept, Booked, object-le-uri, cache_bookkeeping_lem,
}

-- What `cache_put` leaves under the name of the object: what was there, or the object if nothing was.
abbrev pub Held : List ℕ → List ℕ → Cache → Cache → Type 0
Held u body c c' =
    ((0 < count_uri u c.entries)
      × ((b : List ℕ) → count_object u b c'.entries ≡ count_object u b c.entries))
    ⊎ ((count_uri u c.entries ≡ 0)
        × ((b : List ℕ) → count_object u b c'.entries ≡ one_if (same_text body b)))

-- A new entry before others, none of which has its name.
module _ (x : Entry) (es : List Entry) where
  new_distinct :
      count_uri x.uri es ≡ 0 → (u' : List ℕ) → count_uri u' es ≤ 1 → count_uri u' (x ∷ es) ≤ 1
  new_distinct gone u' le = elim (Bool-cases (same_text x.uri u')) [
    | inl e ↦
        let none_yet : count_uri u' es ≡ 0 =
          subst (λ y. count_uri y es ≡ 0) ((same_text_iff x.uri u').0 e) gone in
        rw e (omega arith)
    | inr e ↦ rw e (omega arith)
  ]

  new_objects :
      count_uri x.uri es ≡ 0
      → (b : List ℕ) → count_object x.uri b (x ∷ es) ≡ one_if (same_text x.body b)
  new_objects gone b = rw (same_text_refl x.uri) (omega (arith, object-le-uri x.uri b es))

  new_other : (u' b : List ℕ) → u' ≢ x.uri → count_object u' b (x ∷ es) ≡ count_object u' b es
  new_other u' b n = rw (same_text_ne x.uri u' n) (omega arith)

-- An object that is put into a well-formed cache.
module _ {max : ℕ} (fuel : ℕ) (c : Cache) (host loc buf : List ℕ) (bufsz : ℕ) (w : IsCache max c)
    (small : bufsz ≤ max) (enough : bufsz ≤ length buf) (h : total need c.entries ≤ fuel) where
  u : List ℕ
  u = uri_gen host loc

  pending : Entry
  pending = entry_create host loc buf bufsz

  kept_IsCache : {c' : Cache} → Kept c.freesz c.entries c'.freesz c'.entries → IsCache max c'
  kept_IsCache kept = record {
    used = kept.sum ∙ w.used;
    room = w.room;
    distinct =
        λ u'. omega (arith, kept.fewer (λ uri _ _. one_if (same_text uri u')), w.distinct u');
    fits = omega (arith, kept.fewer (λ _ body size. if length body == size then 0 else 1), w.fits);
  }

  put_cases :
      (o : Bool × Cache)
      → cache_bookkeeping fuel c pending ≡ some o
      → Booked c pending o
      → (c' : Cache) × (cache_put fuel c host loc buf bufsz ≡ some c')
        × IsCache max c'
        × Held (uri_gen host loc) (take bufsz buf) c c'
        × ((u' b : List ℕ)
            → u' ≢ uri_gen host loc
            → count_object u' b c'.entries ≤ count_object u' b c.entries)
  unfolding pending entry_create cache_put
  put_cases (true, c') run (kept, objects, names, found) = (
    c',
    rw (run, cache_put),
    kept_IsCache kept,
    inl (omega (arith, found, names), objects),
    λ u' b n.
        kept.fewer (λ uri body size. if same_text uri u' then one_if (same_text body b) else 0),
  )
  put_cases (false, c') run (kept, objects, names, (gone, le)) = (
    record { freesz = sub64 c'.freesz bufsz; entries = pending ∷ c'.entries },
    rw (run, cache_put),
    record {
      used = omega (arith, kept.sum, w.used, w.room, le);
      room = w.room;
      distinct = λ u'.
          new_distinct pending c'.entries gone u' (omega (arith, (kept_IsCache kept).distinct u'));
      fits =
          rw (eq→== (length (take bufsz buf)) bufsz (omega (arith, length-take bufsz buf)))
            (omega (arith, (kept_IsCache kept).fits));
    },
    inr (omega (arith, gone, names), new_objects pending c'.entries gone),
    λ u' b n. omega (
      arith,
      new_other pending c'.entries u' b n,
      kept.fewer (λ uri body size. if same_text uri u' then one_if (same_text body b) else 0),
    ),
  )

  -- `cache_put` on a well-formed cache, with an object that is not larger than its capacity or than the
  -- buffer, and with as much fuel as one for each entry and, on top, the rounds by which its patience is
  -- below 1: it ends; the cache is well formed; under the name of the object there is what there was, or
  -- the object if there was nothing; and under no other name has an object come in.
  pub cache_put_lem :
      (c' : Cache) × (cache_put fuel c host loc buf bufsz ≡ some c')
      × IsCache max c'
      × Held (uri_gen host loc) (take bufsz buf) c c'
      × ((u' b : List ℕ)
          → u' ≢ uri_gen host loc
          → count_object u' b c'.entries ≤ count_object u' b c.entries)
  unfolding pending entry_create
  cache_put_lem =
      let (o, run, b) = cache_bookkeeping_lem fuel c pending w small h in put_cases o run b

-- An entry that `look_up` finds, and how the list is after it.
abbrev LookedUp : List ℕ → List Entry → Option Entry × List Entry → Type 0
LookedUp u es (none, es') = (count_uri u es ≡ 0) × (es' ≡ es)
LookedUp u es (some x, es') =
    (same_text x.uri u ≡ true)
    × ((v : List ℕ → List ℕ → ℕ → ℕ) → weight v x ≤ total (weight v) es)
    × ((v : List ℕ → List ℕ → ℕ → ℕ) → total (weight v) es' ≡ total (weight v) es)

looked_up :
    (u : List ℕ) (x : Entry) (xs : List Entry) (r : Option Entry × List Entry)
    → same_text x.uri u ≡ false
    → LookedUp u xs r
    → LookedUp u (x ∷ xs) (r.0, x ∷ r.1)
looked_up u x xs (none, es') e (gone, same) = (rw e (omega arith), ap (λ l. x ∷ l) same)
looked_up u x xs (some y, es') e (named, within, same) =
    (named, λ v. omega (arith, within v), λ v. omega (arith, same v))

look_up-LookedUp : (u : List ℕ) (es : List Entry) → LookedUp u es (look_up u es)
unfolding look_up
look_up-LookedUp u [] = (refl, refl)
look_up-LookedUp u (x ∷ xs) = elim (Bool-cases (same_text x.uri u)) [
  | inl e ↦ rw e (e, λ v. omega arith, λ v. refl)
  | inr e ↦ rw e (looked_up u x xs (look_up u xs) e (look_up-LookedUp u xs))
]

-- What `cache_get` answers: that no object has the name, and nothing is changed; or the body of the one
-- that has it, in a buffer that it fits, with the objects in the cache as they were. The buffer is the
-- same array, as long as it was, unless its size was too small; and no copy leaves its array.
abbrev pub Answered : ℕ → List ℕ → Cache → List ℕ → ℕ → Option (Bool × List ℕ × ℕ × Cache) → Type 0
Answered max u c buf bufsz none = ⊥
Answered max u c buf bufsz (some (found, buf', bufsz', c')) =
    ((found ≡ false) × (count_uri u c.entries ≡ 0) × (buf' ≡ buf) × (bufsz' ≡ bufsz) × (c' ≡ c))
    ⊎ ((found ≡ true)
        × (bufsz' ≤ length buf')
        × (length buf' ≡ (if ltb bufsz bufsz' then bufsz' else length buf))
        × (count_object u (take bufsz' buf') c.entries ≡ 1)
        × IsCache max c'
        × ((v b : List ℕ) → count_object v b c'.entries ≡ count_object v b c.entries))

-- `cache_get` once its loop has ended.
abbrev answer : Cache → List ℕ → ℕ → Option Entry × List Entry → Option (Bool × List ℕ × ℕ × Cache)
answer c buf bufsz r = elim (r.0) [
  | none ↦ some (false, buf, bufsz, c)
  | some x ↦
      let room = grown buf bufsz x.size in
      if ltb (length room) x.size || ltb (length x.body) x.size
      then none
      else some (true, take x.size x.body ++ drop x.size room, x.size, record c { entries = r.1 })
]

length-grown :
    (buf : List ℕ) (bufsz size : ℕ)
    → length (grown buf bufsz size) ≡ (if ltb bufsz size then size else length buf)
unfolding grown
length-grown buf bufsz size = elim (Bool-cases (ltb bufsz size)) [
  | inl e ↦ rw e (length-replicate size 0)
  | inr e ↦ rw e refl
]

get-answer :
    (c : Cache) (host loc buf : List ℕ) (bufsz : ℕ)
    → answer c buf bufsz (look_up (uri_gen host loc) c.entries) ≡ cache_get c host loc buf bufsz
unfolding cache_get
get-answer c host loc buf bufsz = refl

module _ {max : ℕ} (c : Cache) (u buf : List ℕ) (bufsz : ℕ) (w : IsCache max c)
    (given : bufsz ≤ length buf) where
  one_object :
      (x : Entry)
      → same_text x.uri u ≡ true
      → ((v : List ℕ → List ℕ → ℕ → ℕ) → weight v x ≤ total (weight v) c.entries)
      → count_object u x.body c.entries ≡ 1
  one_object x named within =
      let least : 1 ≤ count_object u x.body c.entries =
        rw (named, same_text_refl x.body) at
          (within
            (λ uri body size. if same_text uri u then one_if (same_text body x.body) else 0)) in
      omega (arith, least, object-le-uri u x.body c.entries, w.distinct u)

  answer_lem :
      (r : Option Entry × List Entry)
      → LookedUp u c.entries r
      → Answered max u c buf bufsz (answer c buf bufsz r)
  answer_lem (none, es') (gone, same) = inl (refl, gone, refl, refl, refl)
  answer_lem (some x, es') (named, within, same) =
      let size : length x.body ≡ x.size =
        ground (arith, within (λ _ body size. if length body == size then 0 else 1), w.fits) in
      let rest = drop x.size (grown buf bufsz x.size) in
      let out : take x.size (take x.size x.body ++ rest) ≡ x.body =
        subst (λ n. take n (take n x.body ++ rest) ≡ x.body) size
          (rw (take_all x.body) (take-append x.body rest)) in
      let long : x.size ≤ length (take x.size x.body ++ rest) =
        omega (arith, length-append (take x.size x.body) rest, length-take x.size x.body, size) in
      let room = grown buf bufsz x.size in
      let wide : x.size ≤ length room = ground (arith, length-grown buf bufsz x.size, given) in
      let writes : ltb (length room) x.size ≡ false = ground (arith, wide) in
      let reads : ltb (length x.body) x.size ≡ false = ground (arith, size) in
      rw (writes, reads)
        (inr (
          refl,
          long,
          ground (
            arith,
            length-append (take x.size x.body) rest,
            length-take x.size x.body,
            length-drop x.size room,
            length-grown buf bufsz x.size,
            size,
            wide,
          ),
          rw out (one_object x named within),
          record {
            used = omega (arith, same (λ _ _ size. size), w.used);
            room = w.room;
            distinct =
                λ u'. omega (arith, same (λ uri _ _. one_if (same_text uri u')), w.distinct u');
            fits =
                omega (arith, same (λ _ body size. if length body == size then 0 else 1), w.fits);
          },
          λ v b. same (λ uri body size. if same_text uri v then one_if (same_text body b) else 0),
        ))

-- `cache_get` on a well-formed cache, with a buffer of at least `bufsz` bytes: no copy leaves its array;
-- and no object has the name, and nothing is changed; or the answer is the body of the one that has it, in
-- a buffer that it fits, as long as it was unless `bufsz` was below the size of the body, and then of that
-- size, and the cache is well formed with the same objects.
pub cache_get_lem :
    {max : ℕ} (c : Cache) (host loc buf : List ℕ) (bufsz : ℕ)
    → IsCache max c
    → bufsz ≤ length buf
    → Answered max (uri_gen host loc) c buf bufsz (cache_get c host loc buf bufsz)
cache_get_lem {max} c host loc buf bufsz w given =
    subst (Answered max (uri_gen host loc) c buf bufsz) (get-answer c host loc buf bufsz) (
      answer_lem c (uri_gen host loc) buf bufsz w given (look_up (uri_gen host loc) c.entries)
        (look_up-LookedUp (uri_gen host loc) c.entries))

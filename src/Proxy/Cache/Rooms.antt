-- ===== src/Proxy/Cache/Rooms.antt =====
-- The invariant of the cache, and `cache_bookkeeping`.
use csapp_3e_study.Base.{
  ℕ, zero, suc, ◌+◌, ◌≤◌, ◌<◌, ◌≡◌, ◌≢◌, ◌∙◌, refl, ap, arith, Bool, true, false, List, [], ◌∷◌,
  some, ltb, ◌==◌, if◌then◌else◌, Bool-cases, inl, inr, length, ge→ltb, ltb→lt,
}
use csapp_3e_study.Base.Tables.{total}
use csapp_3e_study.Base.Int.{pos, leb_ℤ}
use csapp_3e_study.Base.Texts.{same_text}
use csapp_3e_study.Base.Words.{word_mod}
use csapp_3e_study.Proxy.Cache.{
  Entry, Cache, Visit, take_it, evict, Walk, matched, ended, put_back, walk, visit_first,
  visit_again, make_room, cache_bookkeeping,
}
use csapp_3e_study.Proxy.Cache.Walks.{
  need, list_of, free_of, Walked, at_head, takes, promotes_first, promotes, evicts, skips,
  total-put_back, walk-Walked, weight, total-Walked, total-Walked_eq, sizes, sizes-Walked,
  need-Walked, first_tired, again_tired, need-again, again-ended,
}

abbrev pub one_if : Bool → ℕ
one_if b = if b then 1 else 0

-- How many entries have a name, and how many have it with a certain body.
abbrev pub count_uri : List ℕ → List Entry → ℕ
count_uri u = total (weight (λ uri _ _. one_if (same_text uri u)))

abbrev pub count_object : List ℕ → List ℕ → List Entry → ℕ
count_object u b =
    total (weight (λ uri body _. if same_text uri u then one_if (same_text body b) else 0))

-- How many have a size that is not that of the body.
abbrev pub misfits : List Entry → ℕ
misfits = total (weight (λ _ body size. if length body == size then 0 else 1))

pub record IsCache (max : ℕ) (c : Cache) : Type 0 where
  pub used : c.freesz + sizes c.entries ≡ max
  pub room : max < word_mod
  pub distinct : (u : List ℕ) → count_uri u c.entries ≤ 1
  pub fits : misfits c.entries ≡ 0

-- How the first loop ends: at the entry with the name, or, where no entry has it, at the head.
abbrev pub FirstEnd : List ℕ → Walk → Type 0
FirstEnd u (matched es f) = 0 < count_uri u es
FirstEnd u (ended es f) = count_uri u es ≡ 0

module _ (u : List ℕ) (size : ℕ) where
  first_takes : (f : ℕ) (x : Entry) → visit_first u size f x ≡ take_it → same_text x.uri u ≡ true
  unfolding visit_first
  first_takes f x e = ground arith

  first_goes_on : (f : ℕ) (x : Entry) → visit_first u size f x ≢ take_it → same_text x.uri u ≡ false
  unfolding visit_first
  first_goes_on f x h = elim (Bool-cases (same_text x.uri u)) [
    | inl e ↦ absurd (h (rw (e, visit_first)))
    | inr e ↦ e
  ]

  first-FirstEnd :
      {f : ℕ} {ahead passed : List Entry} {r : Walk}
      → Walked (visit_first u size) f ahead passed r
      → count_uri u passed ≡ 0
      → FirstEnd u r
  first-FirstEnd at_head h = h
  first-FirstEnd (takes {f} {x} e) h = rw (first_takes f x e) (omega arith)
  first-FirstEnd (promotes_first {f} {x} e) h = rw (first_goes_on f x (λ d. cc)) (omega arith)
  first-FirstEnd (promotes e course) h = first-FirstEnd course h
  first-FirstEnd (evicts e course) h = first-FirstEnd course h
  first-FirstEnd (skips {f} {x} e course) h =
      first-FirstEnd course (rw (first_goes_on f x (λ d. cc)) (omega arith))

-- What a list and a free size have kept of others: nothing has been added, and the sum of the sizes
-- is the same.
pub record Kept (f : ℕ) (es : List Entry) (f' : ℕ) (es' : List Entry) : Type 0 where
  pub sum : f' + sizes es' ≡ f + sizes es
  pub fewer : (v : List ℕ → List ℕ → ℕ → ℕ) → total (weight v) es' ≤ total (weight v) es
  pub rounds : total need es' ≤ total need es

-- A whole loop, from the last entry on.
whole-Kept :
    {visit : ℕ → Entry → Visit} {f : ℕ} {es : List Entry} {r : Walk}
    → ((f' : ℕ) (x : Entry) → visit f' x ≡ Visit.promote → leb_ℤ x.patience (pos 0) ≡ true)
    → f + sizes es < word_mod
    → Walked visit f (put_back es []) [] r
    → Kept f es (free_of r) (list_of r)
whole-Kept {es = es} tired h course =
    let back = λ (w : Entry → ℕ). total-put_back w es [] in
    record {
      sum =
          omega
            (arith, sizes-Walked course (omega (arith, back (λ x. x.size))), back (λ x. x.size));
      fewer = λ v. omega (arith, total-Walked v course, back (weight v));
      rounds = omega (arith, need-Walked tired course, back need);
    }

Kept-refl : (f : ℕ) (es : List Entry) → Kept f es f es
Kept-refl f es = record { sum = refl; fewer = λ v. omega arith; rounds = omega arith }

Kept-trans :
    {f : ℕ} {es : List Entry} {f' : ℕ} {es' : List Entry} {f'' : ℕ} {es'' : List Entry}
    → Kept f es f' es'
    → Kept f' es' f'' es''
    → Kept f es f'' es''
Kept-trans k k' = record {
  sum = k'.sum ∙ k.sum;
  fewer = λ v. omega (arith, k.fewer v, k'.fewer v);
  rounds = omega (arith, k.rounds, k'.rounds);
}

need-again_lt :
    {f : ℕ} (ahead : List Entry) {passed : List Entry} {r : Walk}
    → Walked visit_again f ahead passed r
    → 0 < sizes ahead
    → total need (list_of r) < total need ahead + total need passed
need-again_lt [] course h = absurd (omega arith)
need-again_lt (x ∷ more) course h = need-again course

-- The second loop: where all entries together leave room for the size, it ends with a free size
-- that is enough.
make_room_lem :
    (k fuel size f : ℕ) (es : List Entry)
    → total need es ≤ k
    → total need es ≤ fuel
    → f + sizes es < word_mod
    → size ≤ f + sizes es
    → (es' : List Entry) × (f' : ℕ) × (make_room k fuel size f es ≡ some (es', f'))
      × (size ≤ f')
      × Kept f es f' es'
unfolding make_room
make_room_lem zero fuel size f [] hk hf hw hs =
    ([], f, rw (ge→ltb f size (omega arith), make_room), omega arith, Kept-refl f [])
make_room_lem zero fuel size f (x ∷ es) hk hf hw hs = absurd (omega arith)
make_room_lem (suc k) fuel size f es hk hf hw hs = elim (Bool-cases (ltb f size)) [
  | inr enough ↦ (es, f, rw (enough, make_room), ground arith, Kept-refl f es)
  | inl more ↦
      let back = total-put_back need es [] in
      let (r, run, course) =
        walk-Walked visit_again again_tired fuel f (put_back es []) [] (omega (arith, back)) in
      let run' : walk visit_again fuel f (put_back es []) []
          ≡ some (ended (list_of r) (free_of r)) =
        run ∙ ap some (again-ended course) in
      let kept : Kept f es (free_of r) (list_of r) = whole-Kept again_tired hw course in
      let less =
        need-again_lt (put_back es []) course
          (omega (arith, total-put_back (λ x. x.size) es [], ltb→lt f size more)) in
      let (es', f', ends, le, kept') =
        make_room_lem k fuel size (free_of r) (list_of r) (omega (arith, back, less))
          (omega (arith, kept.rounds)) (omega (arith, kept.sum)) (omega (arith, kept.sum)) in
      (es', f', rw (more, run', make_room) ends, le, Kept-trans kept kept')
]

-- `cache_bookkeeping` on a well-formed cache, for an object that the cache can hold: it ends, at the
-- entry with the name of the object, or where no entry has it, with room for the object.
abbrev pub Booked : Cache → Entry → Bool × Cache → Type 0
Booked c pending (found, c') =
    Kept c.freesz c.entries c'.freesz c'.entries
    × ((b : List ℕ) → count_object pending.uri b c'.entries ≡ count_object pending.uri b c.entries)
    × (count_uri pending.uri c'.entries ≡ count_uri pending.uri c.entries)
    × (if found
        then 0 < count_uri pending.uri c'.entries
        else (count_uri pending.uri c'.entries ≡ 0) × (pending.size ≤ c'.freesz))

pub object-le-uri : (u b : List ℕ) (es : List Entry) → count_object u b es ≤ count_uri u es
object-le-uri u b [] = omega arith
object-le-uri u b (x ∷ es) = ground (arith, object-le-uri u b es)

module _ (fuel : ℕ) (c : Cache) (pending : Entry) {max : ℕ} (w : IsCache max c)
    (fits : pending.size ≤ max) (h : total need c.entries ≤ fuel) where
  same_objects :
      {r : Walk}
      → Walked (visit_first pending.uri pending.size) c.freesz (put_back c.entries []) [] r
      → (b : List ℕ) → count_object pending.uri b (list_of r) ≡ count_object pending.uri b c.entries
  same_objects course b =
      let v = λ (uri body : List ℕ) (size : ℕ).
        if same_text uri pending.uri then one_if (same_text body b) else 0 in
      omega (arith, total-Walked_eq v (safe b) course, total-put_back (weight v) c.entries [])
    where
      safe :
          (b : List ℕ) (f : ℕ) (x : Entry)
          → visit_first pending.uri pending.size f x ≡ evict
          → (if same_text x.uri pending.uri then one_if (same_text x.body b) else 0) ≡ 0
      safe b f x e = rw (first_goes_on pending.uri pending.size f x (λ d. cc)) refl

  same_names :
      {r : Walk}
      → Walked (visit_first pending.uri pending.size) c.freesz (put_back c.entries []) [] r
      → count_uri pending.uri (list_of r) ≡ count_uri pending.uri c.entries
  same_names course =
      let v = λ (uri body : List ℕ) (size : ℕ). one_if (same_text uri pending.uri) in
      omega (arith, total-Walked_eq v safe course, total-put_back (weight v) c.entries [])
    where
      safe :
          (f : ℕ) (x : Entry)
          → visit_first pending.uri pending.size f x ≡ evict
          → one_if (same_text x.uri pending.uri) ≡ 0
      safe f x e = rw (first_goes_on pending.uri pending.size f x (λ d. cc)) refl

  booked :
      (r : Walk)
      → walk (visit_first pending.uri pending.size) fuel c.freesz (put_back c.entries []) []
        ≡ some r
      → Walked (visit_first pending.uri pending.size) c.freesz (put_back c.entries []) [] r
      → (o : Bool × Cache) × (cache_bookkeeping fuel c pending ≡ some o) × Booked c pending o
  unfolding cache_bookkeeping
  booked (matched es f) run course = (
    (true, record { freesz = f; entries = es }),
    rw (run, cache_bookkeeping),
    (
      whole-Kept (first_tired pending.uri pending.size) (omega (arith, w.used, w.room)) course,
      same_objects course,
      same_names course,
      first-FirstEnd pending.uri pending.size course (omega arith),
    ),
  )
  booked (ended es f) run course =
      let kept : Kept c.freesz c.entries f es =
        whole-Kept (first_tired pending.uri pending.size) (omega (arith, w.used, w.room)) course in
      let (es', f', ends, le, kept') =
        make_room_lem fuel fuel pending.size f es (omega (arith, kept.rounds))
          (omega (arith, kept.rounds)) (omega (arith, kept.sum, w.used, w.room))
          (omega (arith, kept.sum, w.used)) in
      let gone : count_uri pending.uri es ≡ 0 =
        first-FirstEnd pending.uri pending.size course (omega arith) in
      let still : count_uri pending.uri es' ≡ 0 =
        omega (arith, gone, kept'.fewer (λ uri _ _. one_if (same_text uri pending.uri))) in
      (
        (false, record { freesz = f'; entries = es' }),
        rw (run, ends, cache_bookkeeping),
        (
          Kept-trans kept kept',
          λ b. omega (
            arith,
            same_objects course b,
            object-le-uri pending.uri b es,
            object-le-uri pending.uri b es',
            gone,
            still,
          ),
          omega (arith, still, gone, same_names course),
          (still, le),
        ),
      )

  pub cache_bookkeeping_lem :
      (o : Bool × Cache) × (cache_bookkeeping fuel c pending ≡ some o) × Booked c pending o
  cache_bookkeeping_lem =
      let (r, run, course) =
        walk-Walked (visit_first pending.uri pending.size) (first_tired pending.uri pending.size)
          fuel c.freesz (put_back c.entries []) []
          (omega (arith, total-put_back need c.entries [])) in
      booked r run course

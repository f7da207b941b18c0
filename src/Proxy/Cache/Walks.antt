-- ===== src/Proxy/Cache/Walks.antt =====
-- What one loop of `cache_bookkeeping` does to the list, and that it ends.
use csapp_3e_study.Base.{
  ℕ, zero, suc, ◌+◌, ◌/◌, ◌≤◌, ◌<◌, ◌≡◌, ◌≢◌, refl, arith, true, List, [], ◌∷◌, ◌++◌, some,
  if◌then◌else◌, inl, inr, ◌⊎◌,
}
use csapp_3e_study.Base.Tables.{total}
use csapp_3e_study.Base.Int.{ℤ, pos, negsuc, ◌+ℤ◌, leb_ℤ, neg_part}
use csapp_3e_study.Base.Words.{word_mod, add64}
use csapp_3e_study.Proxy.Cache.{
  Entry, default_patience, promoted, Visit, take_it, promote, evict, skip, Walk, matched, ended,
  put_back, walk, visit_first, visit_again,
}

-- The rounds of a loop that an entry may take: one for each promotion until its patience is above 0,
-- and the last.
abbrev pub need : Entry → ℕ
need x = 1 + (if leb_ℤ x.patience (pos 0) then 1 + neg_part x.patience / 3 else 0)

need-promoted : (x : Entry) → leb_ℤ x.patience (pos 0) ≡ true → need (promoted x) < need x
unfolding ◌+ℤ◌
need-promoted x h = need_patience x.patience h
  where
    need_patience :
        (p : ℤ)
        → leb_ℤ p (pos 0) ≡ true
        → 1 + (if leb_ℤ (p +ℤ pos 3) (pos 0) then 1 + neg_part (p +ℤ pos 3) / 3 else 0)
          < 1 + (if leb_ℤ p (pos 0) then 1 + neg_part p / 3 else 0)
    need_patience (pos n) h = ground arith
    need_patience (negsuc n) h = ground arith

-- The list and the free size at the end of a loop.
abbrev pub list_of : Walk → List Entry
list_of (matched es f) = es
list_of (ended es f) = es

abbrev pub free_of : Walk → ℕ
free_of (matched es f) = f
free_of (ended es f) = f

-- The course of a loop.
pub data Walked (visit : ℕ → Entry → Visit) : ℕ → List Entry → List Entry → Walk → Type 0 where
  at_head : {f : ℕ} {passed : List Entry} → Walked visit f [] passed (ended passed f)
  takes :
      {f : ℕ} {x : Entry} {more passed : List Entry}
      → visit f x ≡ take_it
      → Walked visit f
          (x ∷ more)
          passed
          (matched (record x { patience = default_patience } ∷ put_back more passed) f)
  promotes_first :
      {f : ℕ} {x : Entry} {passed : List Entry}
      → visit f x ≡ promote
      → Walked visit f (x ∷ []) passed (ended (promoted x ∷ passed) f)
  promotes :
      {f : ℕ} {x y : Entry} {ys passed : List Entry} {r : Walk}
      → visit f x ≡ promote
      → Walked visit f (y ∷ (ys ++ promoted x ∷ [])) passed r
      → Walked visit f (x ∷ y ∷ ys) passed r
  evicts :
      {f : ℕ} {x : Entry} {more passed : List Entry} {r : Walk}
      → visit f x ≡ evict
      → Walked visit (add64 f x.size) more passed r
      → Walked visit f (x ∷ more) passed r
  skips :
      {f : ℕ} {x : Entry} {more passed : List Entry} {r : Walk}
      → visit f x ≡ skip
      → Walked visit f more (x ∷ passed) r
      → Walked visit f (x ∷ more) passed r

total-append : (w : Entry → ℕ) (xs ys : List Entry) → total w (xs ++ ys) ≡ total w xs + total w ys
total-append w [] ys = omega arith
total-append w (x ∷ xs) ys = omega (arith, total-append w xs ys)

pub total-put_back :
    (w : Entry → ℕ) (xs ys : List Entry) → total w (put_back xs ys) ≡ total w xs + total w ys
unfolding put_back
total-put_back w [] ys = omega arith
total-put_back w (x ∷ xs) ys = omega (arith, total-put_back w xs (x ∷ ys))

Visit-cases : (v : Visit) → (v ≡ take_it) ⊎ ((v ≡ promote) ⊎ ((v ≡ evict) ⊎ (v ≡ skip)))
Visit-cases take_it = inl refl
Visit-cases promote = inr (inl refl)
Visit-cases evict = inr (inr (inl refl))
Visit-cases skip = inr (inr (inr refl))

module _ (visit : ℕ → Entry → Visit)
    (tired : (f : ℕ) (x : Entry) → visit f x ≡ promote → leb_ℤ x.patience (pos 0) ≡ true) where
  abbrev pub Ends : ℕ → ℕ → List Entry → List Entry → Type 0
  Ends fuel f ahead passed =
      (r : Walk) × (walk visit fuel f ahead passed ≡ some r) × Walked visit f ahead passed r

  -- With fuel for every round that the entries may take, the loop ends.
  pub walk-Walked :
      (fuel f : ℕ) (ahead passed : List Entry) → total need ahead ≤ fuel → Ends fuel f ahead passed
  unfolding walk
  walk-Walked zero f [] passed h = (ended passed f, refl, at_head)
  walk-Walked (suc fuel) f [] passed h = (ended passed f, refl, at_head)
  walk-Walked zero f (x ∷ more) passed h = absurd (omega arith)
  walk-Walked (suc fuel) f (x ∷ more) passed h = elim (Visit-cases (visit f x)) [
    | inl e ↦ (_, rw (e, walk), takes e)
    | inr (inl e) ↦
        (elim more as (λ m. total need (x ∷ m) ≤ suc fuel → Ends (suc fuel) f (x ∷ m) passed) [
          | [] ↦ λ _. (_, rw (e, walk), promotes_first e)
          | y ∷ ys ↦ λ h'.
              let sum = total-append need ys (promoted x ∷ []) in
              let (r, run, course) =
                walk-Walked fuel f (y ∷ (ys ++ promoted x ∷ [])) passed
                  (omega (arith, sum, need-promoted x (tired f x e))) in
              (r, rw (e, walk) run, promotes e course)
        ])
          h
    | inr (inr (inl e)) ↦
        let (r, run, course) = walk-Walked fuel (add64 f x.size) more passed (omega arith) in
        (r, rw (e, walk) run, evicts e course)
    | inr (inr (inr e)) ↦
        let (r, run, course) = walk-Walked fuel f more (x ∷ passed) (omega arith) in
        (r, rw (e, walk) run, skips e course)
  ]

-- A term that does not depend on the patience of an entry.
abbrev pub weight : (List ℕ → List ℕ → ℕ → ℕ) → Entry → ℕ
weight v x = v x.uri x.body x.size

-- What a loop does to a sum of such terms: an entry that is evicted takes its term with it, and
-- nothing else changes.
module _ {visit : ℕ → Entry → Visit} (v : List ℕ → List ℕ → ℕ → ℕ) where
  pub total-Walked :
      {f : ℕ} {ahead passed : List Entry} {r : Walk}
      → Walked visit f ahead passed r
      → total (weight v) (list_of r) ≤ total (weight v) ahead + total (weight v) passed
  total-Walked at_head = omega arith
  total-Walked (takes {f} {x} {more} {passed} e) =
      omega (arith, total-put_back (weight v) more passed)
  total-Walked (promotes_first e) = omega arith
  total-Walked (promotes {f} {x} {y} {ys} e course) =
      omega (arith, total-Walked course, total-append (weight v) ys (promoted x ∷ []))
  total-Walked (evicts e course) = omega (arith, total-Walked course)
  total-Walked (skips e course) = omega (arith, total-Walked course)

  pub total-Walked_eq :
      ((f : ℕ) (x : Entry) → visit f x ≡ evict → weight v x ≡ 0)
      → {f : ℕ} {ahead passed : List Entry} {r : Walk} → Walked visit f ahead passed r
      → total (weight v) (list_of r) ≡ total (weight v) ahead + total (weight v) passed
  total-Walked_eq safe at_head = omega arith
  total-Walked_eq safe (takes {f} {x} {more} {passed} e) =
      omega (arith, total-put_back (weight v) more passed)
  total-Walked_eq safe (promotes_first e) = omega arith
  total-Walked_eq safe (promotes {f} {x} {y} {ys} e course) =
      omega (arith, total-Walked_eq safe course, total-append (weight v) ys (promoted x ∷ []))
  total-Walked_eq safe (evicts {f} {x} e course) =
      omega (arith, total-Walked_eq safe course, safe f x e)
  total-Walked_eq safe (skips e course) = omega (arith, total-Walked_eq safe course)

abbrev pub sizes : List Entry → ℕ
sizes = total (λ x. x.size)

-- The free size and the sizes of the entries have the same sum at the end.
pub sizes-Walked :
    {visit : ℕ → Entry → Visit} {f : ℕ} {ahead passed : List Entry} {r : Walk}
    → Walked visit f ahead passed r
    → f + (sizes ahead + sizes passed) < word_mod
    → free_of r + sizes (list_of r) ≡ f + (sizes ahead + sizes passed)
sizes-Walked at_head h = omega arith
sizes-Walked (takes {f} {x} {more} {passed} e) h =
    omega (arith, total-put_back (λ z. z.size) more passed)
sizes-Walked (promotes_first e) h = omega arith
sizes-Walked (promotes {f} {x} {y} {ys} e course) h =
    let sum = total-append (λ z. z.size) ys (promoted x ∷ []) in
    omega (arith, sizes-Walked course (omega (arith, sum)), sum)
sizes-Walked (evicts {f} {x} e course) h = omega (arith, sizes-Walked course (omega arith))
sizes-Walked (skips e course) h = omega (arith, sizes-Walked course (omega arith))

-- No loop raises the rounds that the entries may take.
pub need-Walked :
    {visit : ℕ → Entry → Visit} {f : ℕ} {ahead passed : List Entry} {r : Walk}
    → ((f' : ℕ) (x : Entry) → visit f' x ≡ promote → leb_ℤ x.patience (pos 0) ≡ true)
    → Walked visit f ahead passed r
    → total need (list_of r) ≤ total need ahead + total need passed
need-Walked tired at_head = omega arith
need-Walked tired (takes {f} {x} {more} {passed} e) = omega (arith, total-put_back need more passed)
need-Walked tired (promotes_first {f} {x} e) = omega (arith, need-promoted x (tired f x e))
need-Walked tired (promotes {f} {x} {y} {ys} e course) = omega (
  arith,
  need-Walked tired course,
  total-append need ys (promoted x ∷ []),
  need-promoted x (tired f x e),
)
need-Walked tired (evicts e course) = omega (arith, need-Walked tired course)
need-Walked tired (skips e course) = omega (arith, need-Walked tired course)

pub first_tired :
    (uri : List ℕ) (size f : ℕ) (x : Entry)
    → visit_first uri size f x ≡ promote
    → leb_ℤ x.patience (pos 0) ≡ true
unfolding visit_first
first_tired uri size f x e = ground arith

pub again_tired : (f : ℕ) (x : Entry) → visit_again f x ≡ promote → leb_ℤ x.patience (pos 0) ≡ true
unfolding visit_again
again_tired f x e = ground arith

again-ne-take_it : (f : ℕ) (x : Entry) → visit_again f x ≢ take_it
unfolding visit_again
again-ne-take_it f x e = ground arith

again-ne-skip : (f : ℕ) (x : Entry) → visit_again f x ≢ skip
unfolding visit_again
again-ne-skip f x e = ground arith

-- A round of the second loop lowers them, if there is an entry, and ends at the head.
pub need-again :
    {f : ℕ} {x : Entry} {more passed : List Entry} {r : Walk}
    → Walked visit_again f (x ∷ more) passed r
    → total need (list_of r) < total need (x ∷ more) + total need passed
need-again (takes {f} {x} e) = absurd (again-ne-take_it f x e)
need-again (promotes_first {f} {x} e) = omega (arith, need-promoted x (again_tired f x e))
need-again (promotes {f} {x} {y} {ys} e course) = omega (
  arith,
  need-Walked again_tired course,
  total-append need ys (promoted x ∷ []),
  need-promoted x (again_tired f x e),
)
need-again (evicts e course) = omega (arith, need-Walked again_tired course)
need-again (skips {f} {x} e course) = absurd (again-ne-skip f x e)

pub again-ended :
    {f : ℕ} {ahead passed : List Entry} {r : Walk}
    → Walked visit_again f ahead passed r
    → r ≡ ended (list_of r) (free_of r)
again-ended at_head = refl
again-ended (takes {f} {x} e) = absurd (again-ne-take_it f x e)
again-ended (promotes_first e) = refl
again-ended (promotes e course) = again-ended course
again-ended (evicts e course) = again-ended course
again-ended (skips e course) = again-ended course

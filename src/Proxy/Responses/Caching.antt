-- ===== src/Proxy/Responses/Caching.antt =====
-- What a response leaves in the cache.
use csapp_3e_study.Base.{
  ℕ, ◌+◌, ◌-◌, ◌≤◌, ◌<◌, ◌≡◌, ◌⊎◌, ◌∙◌, inl, inr, refl, ap, sym, subst, arith, true, false, List,
  [], ◌∷◌, ◌++◌, Option, none, some, Bool-cases, leb, if◌then◌else◌, length, length-append, take,
  take_all, min,
}
use csapp_3e_study.Base.Tables.{total}
use csapp_3e_study.Proxy.Cache.{Cache, uri_gen, cache_put}
use csapp_3e_study.Proxy.Cache.Walks.{need}
use csapp_3e_study.Proxy.Cache.Rooms.{IsCache}
use csapp_3e_study.Proxy.Cache.Puts.{Held, cache_put_lem}
use csapp_3e_study.Proxy.Responses.{
  max_cache_size, max_object_size, Round, relayed, failed, collect, forward_response,
}

-- The whole body that is relayed, where no call fails.
abbrev pub whole : List Round → Option (List ℕ)
whole [] = some []
whole (failed ∷ more) = none
whole (relayed buf ∷ more) = elim (whole more) [ none ↦ none | some body ↦ some (buf ++ body) ]

-- What the loop has collected behind `before`, against the rest of the body.
abbrev Collected : List ℕ → Option (List ℕ × ℕ) → Option (List ℕ) → Type 0
Collected before none none = Unit
Collected before none (some body) = ⊥
Collected before (some r) none = ⊥
Collected before (some (d, z)) (some body) =
    ((z ≤ max_object_size) × (d ≡ before ++ body) × (z ≡ length d))
    ⊎ ((max_object_size < z) × (max_object_size < length before + length body))

-- Once the body is too long.
abbrev TooLong : ℕ → Option (List ℕ × ℕ) → Option (List ℕ) → Type 0
TooLong datasz none none = Unit
TooLong datasz none (some body) = ⊥
TooLong datasz (some r) none = ⊥
TooLong datasz (some (d, z)) (some body) = z ≡ datasz

TooLong-relayed :
    (datasz : ℕ) (buf : List ℕ) (o : Option (List ℕ × ℕ)) (w : Option (List ℕ))
    → TooLong datasz o w
    → TooLong datasz o (elim w [ none ↦ none | some body ↦ some (buf ++ body) ])
TooLong-relayed datasz buf none none h = tt
TooLong-relayed datasz buf none (some body) h = h
TooLong-relayed datasz buf (some r) none h = h
TooLong-relayed datasz buf (some (d, z)) (some body) h = h

collect-TooLong :
    (rounds : List Round) (before : List ℕ) (datasz : ℕ)
    → max_object_size < datasz
    → TooLong datasz (collect rounds before datasz) (whole rounds)
unfolding collect
collect-TooLong [] before datasz h = refl
collect-TooLong (failed ∷ more) before datasz h = tt
collect-TooLong (relayed buf ∷ more) before datasz h =
    let long : leb datasz max_object_size ≡ false = ground (arith, h) in
    rw long (
      TooLong-relayed datasz buf (collect more before datasz) (whole more)
        (collect-TooLong more before datasz h))

append_assoc : (a b c : List ℕ) → (a ++ b) ++ c ≡ a ++ (b ++ c)
append_assoc [] b c = refl
append_assoc (x ∷ a) b c = ap (λ l. x ∷ l) (append_assoc a b c)

append_nil : (a : List ℕ) → a ++ [] ≡ a
append_nil [] = refl
append_nil (x ∷ a) = ap (λ l. x ∷ l) (append_nil a)

Collected-relayed :
    (before buf : List ℕ) (o : Option (List ℕ × ℕ)) (w : Option (List ℕ))
    → Collected (before ++ buf) o w
    → Collected before o (elim w [ none ↦ none | some body ↦ some (buf ++ body) ])
Collected-relayed before buf none none h = tt
Collected-relayed before buf none (some body) h = h
Collected-relayed before buf (some r) none h = h
Collected-relayed before buf (some (d, z)) (some body) (inl (le, e, s)) =
    inl (le, e ∙ append_assoc before buf body, s)
Collected-relayed before buf (some (d, z)) (some body) (inr (gt, l)) =
    inr (gt, omega (arith, l, length-append before buf, length-append buf body))

too_long :
    (before buf : List ℕ) (datasz : ℕ) (o : Option (List ℕ × ℕ)) (w : Option (List ℕ))
    → max_object_size < datasz
    → datasz ≡ length before + length buf
    → TooLong datasz o w
    → Collected before o (elim w [ none ↦ none | some body ↦ some (buf ++ body) ])
too_long before buf datasz none none h e t = tt
too_long before buf datasz none (some body) h e t = t
too_long before buf datasz (some r) none h e t = t
too_long before buf datasz (some (d, z)) (some body) h e t =
    inr (omega (arith, h, t), omega (arith, h, e, length-append buf body))

collect-Collected :
    (rounds : List Round) (before : List ℕ)
    → length before ≤ max_object_size
    → Collected before (collect rounds before (length before)) (whole rounds)
unfolding collect
collect-Collected [] before h = inl (h, sym (append_nil before), refl)
collect-Collected (failed ∷ more) before h = tt
collect-Collected (relayed buf ∷ more) before h =
    let size = length before in
    let fits : leb size max_object_size ≡ true = ground (arith, h) in
    elim (Bool-cases (leb (size + length buf) max_object_size)) [
      | inl e ↦
          let all_of : min (max_object_size - size) (length buf) ≡ length buf = ground (arith, e) in
          let next : size + length buf ≡ length (before ++ buf) =
            omega (arith, length-append before buf) in
          rw (fits, all_of, take_all buf, next)
            (Collected-relayed before buf (collect more (before ++ buf) (length (before ++ buf)))
              (whole more) (collect-Collected more (before ++ buf) (ground (arith, e, next))))
      | inr e ↦
          let long : max_object_size < size + length buf = ground (arith, e) in
          let body = before ++ take (min (max_object_size - size) (length buf)) buf in
          rw fits (
            too_long before buf (size + length buf) (collect more body (size + length buf))
              (whole more) long refl (collect-TooLong more body (size + length buf) long))
    ]

-- What is cached of the whole body.
abbrev pub Filled : List ℕ → Option (List ℕ) → Cache → Cache → Type 0
Filled u none c c' = c' ≡ c
Filled u (some body) c c' =
    ((length body ≤ max_object_size) × Held u body c c')
    ⊎ ((max_object_size < length body) × (c' ≡ c))

module _ (fuel : ℕ) (c : Cache) (host loc : List ℕ) (w : IsCache max_cache_size c)
    (h : total need c.entries ≤ fuel) where
  abbrev ended : Option (List ℕ × ℕ) → Option Cache
  ended none = some c
  ended (some (body, datasz)) =
      if leb datasz max_object_size then cache_put fuel c host loc body datasz else some c

  ended-Filled :
      (o : Option (List ℕ × ℕ)) (b : Option (List ℕ))
      → Collected [] o b
      → (c' : Cache) × (ended o ≡ some c')
        × IsCache max_cache_size c'
        × Filled (uri_gen host loc) b c c'
  ended-Filled none none s = (c, refl, w, refl)
  ended-Filled none (some body) s = elim s [ ]
  ended-Filled (some r) none s = elim s [ ]
  ended-Filled (some (d, z)) (some body) (inl (le, e, s)) =
      let small : leb z max_object_size ≡ true = ground (arith, le) in
      let (c', run, w', held, others) =
        cache_put_lem fuel c host loc d z w (omega (arith, le)) (omega (arith, s)) h in
      let same : take z d ≡ body = subst (λ n. take n d ≡ body) (sym s) (take_all d ∙ e) in
      let short : length body ≤ max_object_size =
        subst (λ l. length l ≤ max_object_size) e (omega (arith, le, s)) in
      (c', rw small run, w', inl (short, subst (λ l. Held (uri_gen host loc) l c c') same held))
  ended-Filled (some (d, z)) (some body) (inr (gt, l)) =
      let large : leb z max_object_size ≡ false = ground (arith, gt) in
      (c, rw large refl, w, inr (omega (arith, l), refl))

  -- `forward_response` on a well-formed cache of MAX_CACHE_SIZE bytes, with as much fuel as `cache_put`
  -- needs: it ends, and the cache is well formed; where a call fails, or the body is longer than
  -- MAX_OBJECT_SIZE, the cache is as it was; otherwise under the name of the object there is what there
  -- was, or the whole body if there was nothing.
  pub forward_response_lem :
      (rounds : List Round)
      → (c' : Cache) × (forward_response fuel c host loc rounds ≡ some c')
        × IsCache max_cache_size c'
        × Filled (uri_gen host loc) (whole rounds) c c'
  unfolding forward_response
  forward_response_lem rounds =
      ended-Filled (collect rounds [] 0) (whole rounds) (collect-Collected rounds [] (omega arith))

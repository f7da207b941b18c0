-- ===== src/Base/Tables.antt =====
-- Sums and predicates over the entries of an array, and what a write to one entry does to them.
use Prim.Native.Nat.{ℕ, zero, suc, ◌+◌, ◌≤◌, ◌<◌}
use mathlib.Core.Path.{◌≡◌, refl, ap, subst}
use mathlib.Core.Bool.{Bool, true, false, ◌&&◌}
use mathlib.Core.List.{List, [], ◌∷◌}
use mathlib.Core.Option.{some}
use native.Mathlib.Omega.{arith}
use csapp_3e_study.Base.Lists.{get_elem?, get_or, set, replicate, length}

and_left : (a b : Bool) → (a && b) ≡ true → a ≡ true
and_left true b h = refl
and_left false b h = h

and_right : (a b : Bool) → (a && b) ≡ true → b ≡ true
and_right true b h = h
and_right false b h = cc

module _ {ℓ} {A : Type ℓ} where
  -- The entry at an index.
  abbrev pub At : List A → ℕ → A → Type ℓ
  At xs k x = get_elem? xs k ≡ some x

  abbrev pub All {κ} : (A → Type κ) → List A → Type κ
  All P [] = Unit
  All P (x ∷ xs) = P x × All P xs

  abbrev pub total : (A → ℕ) → List A → ℕ
  total f [] = 0
  total f (x ∷ xs) = f x + total f xs

module _ {ℓ} {A : Type ℓ} where
  pub at_head : {x y : A} → some y ≡ some x → y ≡ x
  at_head at = cc

  pub get_or-At : (xs : List A) (k : ℕ) (x d : A) → At xs k x → get_or xs k d ≡ x
  get_or-At [] k x d at = cc
  get_or-At (y ∷ xs) zero x d at = at_head at
  get_or-At (y ∷ xs) (suc k) x d at = get_or-At xs k x d at

  module _ {κ} (P : A → Type κ) where
    pub All-set : (xs : List A) (k : ℕ) (x' : A) → All P xs → P x' → All P (set xs k x')
    All-set [] k x' h p = tt
    All-set (x ∷ xs) zero x' h p = (p, h.1)
    All-set (x ∷ xs) (suc k) x' h p = (h.0, All-set xs k x' h.1 p)

    pub All-at : (xs : List A) (k : ℕ) (x : A) → At xs k x → All P xs → P x
    All-at [] k x at h = absurd (cc)
    All-at (y ∷ xs) zero x at h = subst P (at_head at) h.0
    All-at (y ∷ xs) (suc k) x at h = All-at xs k x at h.1

  -- A Boolean test of every entry.
  abbrev pub all : (A → Bool) → List A → Bool
  all t [] = true
  all t (x ∷ xs) = t x && all t xs

  pub All-test {κ} :
      {P : A → Type κ} (t : A → Bool)
      → ((x : A) → t x ≡ true → P x)
      → (xs : List A) → all t xs ≡ true
      → All P xs
  All-test t f [] h = tt
  All-test t f (x ∷ xs) h =
      (f x (and_left (t x) (all t xs) h), All-test t f xs (and_right (t x) (all t xs) h))

  pub All-map {κ μ} :
      (P : A → Type κ) (Q : A → Type μ)
      → ((x : A) → P x → Q x)
      → (xs : List A) → All P xs
      → All Q xs
  All-map P Q f [] h = tt
  All-map P Q f (x ∷ xs) h = (f x h.0, All-map P Q f xs h.1)

  module _ (f : A → ℕ) where
    pub total-set :
        (xs : List A) (k : ℕ) (x x' : A)
        → At xs k x
        → total f (set xs k x') + f x ≡ total f xs + f x'
    total-set [] k x x' at = cc
    total-set (y ∷ xs) zero x x' at = omega (arith, ap f (at_head at))
    total-set (y ∷ xs) (suc k) x x' at = omega (arith, total-set xs k x x' at)

    pub le-total : (xs : List A) (k : ℕ) (x : A) → At xs k x → f x ≤ total f xs
    le-total [] k x at = cc
    le-total (y ∷ xs) zero x at = omega (arith, ap f (at_head at))
    le-total (y ∷ xs) (suc k) x at = omega (arith, le-total xs k x at)

  module _ {κ} (P : A → Type κ) where
    pub All-replicate : (n : ℕ) (x : A) → P x → All P (replicate n x)
    All-replicate zero x h = tt
    All-replicate (suc n) x h = (h, All-replicate n x h)

    pub All-get : (xs : List A) (k : ℕ) (d : A) → All P xs → k < length xs → P (get_or xs k d)
    All-get [] k d h l = absurd (omega arith)
    All-get (x ∷ xs) zero d h l = h.0
    All-get (x ∷ xs) (suc k) d h l = All-get xs k d h.1 (omega arith)

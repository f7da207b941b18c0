-- ===== src/Base/Texts.antt =====
-- C strings as their bytes before the final 0, and the functions of <string.h> on them.
use Prim.Native.Nat.{ℕ, ◌+◌}
use mathlib.Core.Path.{◌≡◌, refl, sym}
use mathlib.Core.Logic.{◌↔◌, ◌≢◌, inl, inr}
use mathlib.Core.Bool.{Bool, true, false, ◌&&◌}
use mathlib.Core.List.{List, [], ◌∷◌, ◌++◌}
use mathlib.Core.Option.{Option, none, some}
use native.Mathlib.Omega.{arith}
use Prim.Native.Char.{code}
use Prim.Native.String.{String}
use csapp_3e_study.Base.Tests.{◌==◌, leb, if◌then◌else◌, Bool-cases, eq→==, ne→==}

-- The bytes of a text in ASCII.
abbrev pub codes : String → List ℕ
codes String.[] = []
codes (String.◌∷◌ c s) = code c ∷ codes s

-- `strcmp(a, b) == 0`
unfoldable pub same_text : List ℕ → List ℕ → Bool
same_text [] [] = true
same_text [] (b ∷ bs) = false
same_text (a ∷ as') [] = false
same_text (a ∷ as') (b ∷ bs) = a == b && same_text as' bs

pub same_text_iff : (a b : List ℕ) → (same_text a b ≡ true) ↔ (a ≡ b)
unfolding same_text
same_text_iff [] [] = (λ _. refl, λ _. refl)
same_text_iff [] (y ∷ b) = (λ e. cc, λ e. cc)
same_text_iff (x ∷ a) [] = (λ e. cc, λ e. cc)
same_text_iff (x ∷ a) (y ∷ b) =
    (λ e. ground (arith, same_text_iff a b), λ e. ground (arith, same_text_iff a b))

pub same_text_refl : (a : List ℕ) → same_text a a ≡ true
same_text_refl a = (same_text_iff a a).1 refl

pub same_text_ne : (a b : List ℕ) → b ≢ a → same_text a b ≡ false
same_text_ne a b n = elim (Bool-cases (same_text a b)) [
  | inl e ↦ absurd (n (sym ((same_text_iff a b).0 e)))
  | inr e ↦ e
]

-- `strncmp(s, prefix, strlen(prefix)) == 0`, where `norm` is what the comparison sees of a byte.
unfoldable pub starts_by : (ℕ → ℕ) → List ℕ → List ℕ → Bool
starts_by norm s [] = true
starts_by norm [] (p ∷ ps) = false
starts_by norm (c ∷ cs) (p ∷ ps) = norm c == norm p && starts_by norm cs ps

-- `tolower`
abbrev pub to_lower : ℕ → ℕ
to_lower c = if leb 65 c && leb c 90 then c + 32 else c

-- No byte is `d`.
abbrev pub Without : ℕ → List ℕ → Type 0
Without d [] = Unit
Without d (c ∷ cs) = (c ≢ d) × Without d cs

-- `strchr`, as what stands before the first `d` and what stands behind it.
unfoldable pub split_at : ℕ → List ℕ → Option (List ℕ × List ℕ)
split_at d [] = none
split_at d (c ∷ cs) =
    let rest : Option (List ℕ × List ℕ) = elim (split_at d cs) [
      | none ↦ none
      | some (a, b) ↦ some (c ∷ a, b)
    ] in
    if c == d then some ([], cs) else rest

pub split_at-append : (d : ℕ) (a b : List ℕ) → Without d a → split_at d (a ++ d ∷ b) ≡ some (a, b)
unfolding split_at
split_at-append d [] b h = rw (eq→== d d refl)
split_at-append d (c ∷ a) b h = ground (arith, split_at-append d a b h.1)

pub split_at-none : (d : ℕ) (a : List ℕ) → Without d a → split_at d a ≡ none
unfolding split_at
split_at-none d [] h = refl
split_at-none d (c ∷ a) h = ground (arith, split_at-none d a h.1)

-- `strtok_r` with one delimiter: the token, and what is left behind the delimiter that ends it.
unfoldable pub token : ℕ → List ℕ → Option (List ℕ × List ℕ)
token d [] = none
token d (c ∷ cs) =
    let rest = token d cs in
    if c == d
    then rest
    else elim (split_at d (c ∷ cs)) [ none ↦ some (c ∷ cs, []) | some p ↦ some p ]

module _ (d c : ℕ) (a : List ℕ) (h : Without d (c ∷ a)) where
  pub token-append : (b : List ℕ) → token d ((c ∷ a) ++ d ∷ b) ≡ some (c ∷ a, b)
  unfolding token
  token-append b = rw (ne→== c d (h.0), split_at-append d (c ∷ a) b h)

  pub token_last : token d (c ∷ a) ≡ some (c ∷ a, [])
  unfolding token
  token_last = rw (ne→== c d (h.0), split_at-none d (c ∷ a) h)

pub Without-append : (d : ℕ) (a b : List ℕ) → Without d a → Without d b → Without d (a ++ b)
Without-append d [] b h k = k
Without-append d (c ∷ a) b h k = (h.0, Without-append d a b h.1 k)

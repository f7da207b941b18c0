-- ===== src/Y86/ObjectFile/Safety.antt =====
-- Which object files `load_mem` reads without an access outside the memory.
use csapp_3e_study.Base.{
  ℕ, ◌+◌, ◌*◌, ◌%◌, ◌≤◌, ◌<◌, ◌≡◌, refl, subst, arith, true, ◌&&◌, List, [], ◌∷◌, Option, none,
  some, Bool-cases, inl, inr, ltb, ◌==◌, if◌then◌else◌, length, length-set, set,
}
use csapp_3e_study.Base.Tables.{All}
use csapp_3e_study.Base.Words.{word_mod, sign_bit}
use csapp_3e_study.Y86.Memory.{Mem, word_ge}
use csapp_3e_study.Y86.Memory.Bounds.{IsMem}
use csapp_3e_study.Y86.ObjectFile.{
  isxdigit, hex2dig, Loaded, loaded, stopped, fault, skip_spaces, hex_prefix, address_from,
  load_codes, load_at, load_line, load_from, load_mem,
}

-- A memory that is left is well formed and as large as before, and the count has not gone down.
abbrev pub Sound : ℕ → ℕ → Loaded → Type 0
Sound len cnt (loaded m cnt') = IsMem m × (m.len ≡ len) × (cnt ≤ cnt')
Sound len cnt (stopped m) = IsMem m × (m.len ≡ len)
Sound len cnt fault = ⊥

-- The address of the line, if it has one, is not negative.
abbrev pub LowText : Option (List ℕ) → Type 0
LowText none = Unit
LowText (some text) = (address_from 0 text).0 < sign_bit

abbrev pub LowAddress : List ℕ → Type 0
LowAddress buf = LowText (hex_prefix (skip_spaces buf))

Sound-more : (len a b : ℕ) (r : Loaded) → a ≤ b → Sound len b r → Sound len a r
Sound-more len a b (loaded m cnt) le (w, e, h) = (w, e, omega arith)
Sound-more len a b (stopped m) le h = h
Sound-more len a b fault le h = h

load_codes-Sound :
    (m : Mem) (pos cnt : ℕ) (text : List ℕ)
    → IsMem m
    → pos < sign_bit
    → Sound m.len cnt (load_codes m pos cnt text)
unfolding load_codes
load_codes-Sound m pos cnt [] w h = (w, refl, omega arith)
load_codes-Sound m pos cnt (c ∷ []) w h = (w, refl, omega arith)
load_codes-Sound m pos cnt (ch ∷ cl ∷ cs) w h = elim (Bool-cases (isxdigit ch && isxdigit cl)) [
  | inr other ↦ rw other (w, refl, omega arith)
  | inl hex ↦ elim (Bool-cases (word_ge pos m.len)) [
    | inl out ↦ rw (hex, out) (w, refl)
    | inr inside ↦
        let below : pos < m.len = ground (arith, inside, w.small, h) in
        let in_array : ltb pos (length m.contents) ≡ true = ground (arith, w.sized, below) in
        let next : (pos + 1) % word_mod < sign_bit = omega (arith, w.small, below) in
        let m' = record m {
          contents = set m.contents pos ((hex2dig ch * 16 + hex2dig cl) % 256);
        } in
        let w' : IsMem m' = record {
          sized =
              omega
                (arith, length-set m.contents pos ((hex2dig ch * 16 + hex2dig cl) % 256), w.sized);
          small = w.small;
        } in
        rw (hex, inside, in_array)
          (Sound-more m.len cnt (cnt + 1) _ (omega arith)
            (load_codes-Sound m' ((pos + 1) % word_mod) (cnt + 1) cs w' next))
  ]
]

load_at-Sound :
    (m : Mem) (cnt pos : ℕ) (text : List ℕ)
    → IsMem m
    → pos < sign_bit
    → Sound m.len cnt (load_at m cnt pos text)
unfolding load_at
load_at-Sound m cnt pos text w h = found (skip_spaces text)
  where
    found :
        (t : List ℕ)
        → Sound m.len cnt (elim t [
          | [] ↦ stopped m
          | c ∷ cs ↦ if c == 58 then load_codes m pos cnt (skip_spaces cs) else stopped m
        ])
    found [] = (w, refl)
    found (c ∷ cs) = elim (Bool-cases (c == 58)) [
      | inl e ↦ rw e (load_codes-Sound m pos cnt (skip_spaces cs) w h)
      | inr e ↦ rw e (w, refl)
    ]

load_line-Sound :
    (m : Mem) (cnt : ℕ) (buf : List ℕ)
    → IsMem m
    → LowAddress buf
    → Sound m.len cnt (load_line m cnt buf)
unfolding load_line
load_line-Sound m cnt buf w = found (hex_prefix (skip_spaces buf))
  where
    found :
        (o : Option (List ℕ))
        → LowText o
        → Sound m.len cnt (elim o [
          | none ↦ loaded m cnt
          | some text ↦ let (bytepos, rest) = address_from 0 text in load_at m cnt bytepos rest
        ])
    found none h = (w, refl, omega arith)
    found (some text) h =
        load_at-Sound m cnt ((address_from 0 text).0) ((address_from 0 text).1) w h

-- One line, and then the others.
abbrev then_lines : List (List ℕ) → Loaded → Loaded
then_lines infile (loaded m cnt) = load_from m cnt infile
then_lines infile (stopped m) = stopped m
then_lines infile fault = fault

load_from-Sound :
    (m : Mem) (cnt : ℕ) (infile : List (List ℕ))
    → IsMem m
    → All LowAddress infile
    → Sound m.len cnt (load_from m cnt infile)
unfolding load_from
load_from-Sound m cnt [] w h = (w, refl, omega arith)
load_from-Sound m cnt (buf ∷ infile) w h =
    next (λ m' cnt' w'. load_from-Sound m' cnt' infile w' h.1) (load_line m cnt buf)
      (load_line-Sound m cnt buf w h.0)
  where
    next :
        ((m' : Mem) (cnt' : ℕ) → IsMem m' → Sound m'.len cnt' (load_from m' cnt' infile))
        → (r : Loaded) → Sound m.len cnt r
        → Sound m.len cnt (then_lines infile r)
    next more (loaded m' cnt') (w', e, le) =
        Sound-more m.len cnt cnt' (load_from m' cnt' infile) le
          (subst (λ len. Sound len cnt' (load_from m' cnt' infile)) e (more m' cnt' w'))
    next more (stopped m') s = s
    next more fault s = s

-- On a memory whose length is that of its array and below 2 ^ 31, where no line has an address from
-- 2 ^ 63 on, `load_mem` stores nothing outside the array; whether it succeeds or stops at an error, the
-- memory that it leaves has the same length, and its array too.
pub load_mem-Sound :
    (m : Mem) (infile : List (List ℕ))
    → IsMem m
    → All LowAddress infile
    → Sound m.len 0 (load_mem m infile)
unfolding load_mem
load_mem-Sound m infile w h = load_from-Sound m 0 infile w h

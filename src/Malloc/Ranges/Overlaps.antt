-- ===== src/Malloc/Ranges/Overlaps.antt =====
-- Which payloads `add_range` accepts.
use csapp_3e_study.Base.{
  ℕ, ◌+◌, ◌-◌, ◌%◌, ◌≤◌, ◌<◌, ◌≡◌, ◌↔◌, ◌⊎◌, ◌∙◌, inl, inr, refl, sym, arith, Bool, true, false,
  ◌||◌, List, [], ◌∷◌, some, Bool-cases, ltb, ◌==◌,
}
use csapp_3e_study.Base.Tables.{All}
use csapp_3e_study.Malloc.Heap.{Heap, mem_heap_lo, mem_heap_hi}
use csapp_3e_study.Malloc.Ranges.{Range, is_aligned, touches, touches_any, add_range}

-- The heap has its start, which is no null pointer, and its end in order.
pub record IsHeap (h : Heap) : Type 0 where
  pub start : 0 < h.start_brk
  pub order : (h.start_brk ≤ h.brk) × (h.brk ≤ h.max_addr)

-- A payload of at least one byte, in the heap.
abbrev pub Placed : Heap → Range → Type 0
Placed h p = (p.lo ≤ p.hi) × (h.start_brk ≤ p.lo) × (p.hi < h.brk)

-- Payloads that share no byte; and one that has the other inside, and more on both sides.
abbrev pub Apart : Range → Range → Type 0
Apart x p = (x.hi < p.lo) ⊎ (p.hi < x.lo)

abbrev pub Encloses : Range → Range → Type 0
Encloses x p = (x.lo < p.lo) × (p.hi < x.hi)

abbrev pub payload : ℕ → ℕ → Range
payload lo size = record { lo = lo; hi = lo + size - 1 }

true≢false : true ≡ false → ⊥
true≢false e = cc

touches_iff :
    (lo hi : ℕ) (p : Range)
    → lo ≤ hi
    → p.lo ≤ p.hi
    → (touches lo hi p ≡ false)
      ↔ (Apart (record { lo = lo; hi = hi }) p ⊎ Encloses (record { lo = lo; hi = hi }) p)
touches_iff lo hi p h k = (λ e. ground (arith, e, h, k), λ s. ground (arith, s, h, k))

touches_any_iff :
    (h : Heap) (lo hi : ℕ) (ps : List Range)
    → lo ≤ hi
    → All (Placed h) ps
    → (touches_any lo hi ps ≡ false)
      ↔ All
          (λ p. Apart (record { lo = lo; hi = hi }) p ⊎ Encloses (record { lo = lo; hi = hi }) p)
          ps
unfolding touches_any
touches_any_iff h lo hi [] l a = (λ _. tt, λ _. refl)
touches_any_iff h lo hi (p ∷ ps) l a =
    let one = touches_iff lo hi p l a.0.0 in
    let more = touches_any_iff h lo hi ps l a.1 in
    elim (Bool-cases (touches lo hi p)) [
      | inl e ↦ rw e (λ d. absurd (cc), λ s. absurd (true≢false (sym e ∙ one.1 (s.0))))
      | inr e ↦ rw e (λ d. (one.0 e, more.0 d), λ s. more.1 (s.1))
    ]

-- What a payload must be to be accepted.
abbrev pub Accepts : Heap → List Range → Range → Type 0
Accepts h ranges x = (x.lo % 8 ≡ 0) × Placed h x × All (λ p. Apart x p ⊎ Encloses x p) ranges

outside : Heap → Range → Bool
outside h x =
    ltb x.lo (mem_heap_lo h)
    || ltb (mem_heap_hi h) x.lo
    || ltb x.hi (mem_heap_lo h)
    || ltb (mem_heap_hi h) x.hi

outside-Placed :
    (h : Heap) (lo size : ℕ)
    → IsHeap h
    → 0 < size
    → (outside h (payload lo size) ≡ false) ↔ Placed h (payload lo size)
unfolding outside
outside-Placed h lo size w k =
    (λ e. ground (arith, e, w.start, w.order, k), λ s. ground (arith, s, w.start, w.order, k))

is_aligned_iff : (p : ℕ) → (is_aligned p ≡ true) ↔ (p % 8 ≡ 0)
is_aligned_iff p = ground arith

-- On a heap in order, with a list of payloads that lie in it, `add_range` of at least one byte puts the
-- payload in front of the list exactly if it is aligned to 8 bytes, lies in the heap, and each payload
-- of the list is apart from it or enclosed by it; it returns 0 and leaves the list as it is otherwise.
pub add_range_lem :
    (h : Heap) (ranges : List Range) (lo size : ℕ)
    → IsHeap h
    → All (Placed h) ranges
    → 0 < size
    → (Accepts h ranges (payload lo size)
        × (add_range h ranges lo size ≡ some (true, payload lo size ∷ ranges)))
      ⊎ (¬ Accepts h ranges (payload lo size) × (add_range h ranges lo size ≡ some (false, ranges)))
unfolding add_range outside
add_range_lem h ranges lo size w a k =
    let some_bytes : (size == 0) ≡ false = ground (arith, k) in
    elim (Bool-cases (is_aligned lo)) [
      | inr e ↦ inr (
        λ x. absurd (true≢false (sym ((is_aligned_iff lo).1 (x.0)) ∙ e)),
        rw (some_bytes, e) refl,
      )
      | inl e ↦ elim (Bool-cases (outside h (payload lo size))) [
        | inl out ↦ inr (
          λ x. absurd (true≢false (sym out ∙ (outside-Placed h lo size w k).1 (x.1))),
          rw (some_bytes, e, out) refl,
        )
        | inr in_heap ↦ elim (Bool-cases (touches_any lo (lo + size - 1) ranges)) [
          | inl t ↦ inr (
            λ x. absurd (
                true≢false (
                  sym t
                  ∙ (touches_any_iff h lo (lo + size - 1) ranges (omega (arith, k)) a).1 (x.2))),
            rw (some_bytes, e, in_heap, t) refl,
          )
          | inr t ↦ inl (
            (
              (is_aligned_iff lo).0 e,
              (outside-Placed h lo size w k).0 in_heap,
              (touches_any_iff h lo (lo + size - 1) ranges (omega (arith, k)) a).0 t,
            ),
            rw (some_bytes, e, in_heap, t) refl,
          )
        ]
      ]
    ]

-- ===== src/Malloc/Ranges/Histories.antt =====
-- The heap and the list along a run of the driver.
use csapp_3e_study.Base.{
  ℕ, ◌+◌, ◌≤◌, ◌<◌, ◌≡◌, ◌⊎◌, ◌∙◌, inl, inr, refl, ap, sym, subst, arith, Bool, List, [], ◌∷◌,
  Option, none, some, Bool-cases, ltb, ◌==◌,
}
use csapp_3e_study.Base.Tables.{All, All-map}
use csapp_3e_study.Base.Int.{ℤ, pos, negsuc}
use csapp_3e_study.Malloc.Heap.{Heap, max_heap, mem_init, mem_sbrk, mem_reset_brk}
use csapp_3e_study.Malloc.Ranges.{Range, add_range, remove_range, clear_ranges}
use csapp_3e_study.Malloc.Ranges.Overlaps.{IsHeap, Placed, Apart, Encloses, add_range_lem}

-- One call: the heap grows or not, a payload of at least one byte is added or not, one is removed, or
-- both start again.
pub data Step (h : Heap) (ranges : List Range) : Heap → List Range → Type 0 where
  sbrk : (incr : ℤ) → Step h ranges (mem_sbrk h incr).1 ranges
  add :
      (lo size : ℕ) (ok : Bool) (ranges' : List Range)
      → add_range h ranges lo size ≡ some (ok, ranges')
      → 0 < size
      → Step h ranges h ranges'
  remove : (lo : ℕ) → Step h ranges h (remove_range ranges lo)
  restart : Step h ranges (mem_reset_brk h) (clear_ranges ranges)

pub data Reached (area : ℕ) : Heap → List Range → Type 0 where
  initial : Reached area (mem_init area) []
  next :
      {h h' : Heap} {ranges ranges' : List Range}
      → Reached area h ranges
      → Step h ranges h' ranges'
      → Reached area h' ranges'

-- Each payload is apart from every older one, or encloses it.
abbrev pub Clear : List Range → Type 0
Clear [] = Unit
Clear (x ∷ xs) = All (λ p. Apart x p ⊎ Encloses x p) xs × Clear xs

pub record IsUse (area : ℕ) (h : Heap) (ranges : List Range) : Type 0 where
  pub heap : IsHeap h
  pub extent : (h.start_brk ≡ area) × (h.max_addr ≡ area + max_heap)
  pub placed : All (Placed h) ranges
  pub clear : Clear ranges

module _ {κ} (P : Range → Type κ) where
  All-remove_range : (ranges : List Range) (lo : ℕ) → All P ranges → All P (remove_range ranges lo)
  unfolding remove_range
  All-remove_range [] lo h = tt
  All-remove_range (p ∷ ps) lo h = elim (Bool-cases (p.lo == lo)) [
    | inl e ↦ rw e h.1
    | inr e ↦ rw e (h.0, All-remove_range ps lo h.1)
  ]

Clear-remove_range : (ranges : List Range) (lo : ℕ) → Clear ranges → Clear (remove_range ranges lo)
unfolding remove_range
Clear-remove_range [] lo h = tt
Clear-remove_range (p ∷ ps) lo h = elim (Bool-cases (p.lo == lo)) [
  | inl e ↦ rw e h.1
  | inr e ↦
      rw e
        (All-remove_range (λ q. Apart p q ⊎ Encloses p q) ps lo h.0, Clear-remove_range ps lo h.1)
]

-- The heap with another end.
abbrev ended : Heap → ℕ → Heap
ended h b = record h { brk = b }

sbrk-IsUse :
    (area : ℕ) (h : Heap) (ranges : List Range) (incr : ℤ)
    → IsUse area h ranges
    → IsUse area (mem_sbrk h incr).1 ranges
unfolding mem_sbrk
sbrk-IsUse area h ranges (negsuc n) w = w
sbrk-IsUse area h ranges (pos n) w = elim (Bool-cases (ltb h.max_addr (h.brk + n))) [
  | inl e ↦ rw e w
  | inr e ↦
      let bound : h.brk + n ≤ h.max_addr = ground (arith, e) in
      rw e (record {
        heap = record { start = w.heap.start; order = (omega (arith, w.heap.order), bound) };
        extent = w.extent;
        placed =
            All-map (Placed h) (Placed (ended h (h.brk + n))) (λ p q. omega (arith, q)) ranges
              w.placed;
        clear = w.clear;
      })
]

add-IsUse :
    (area : ℕ) (h : Heap) (ranges : List Range) (lo size : ℕ) (ok : Bool) (ranges' : List Range)
    → add_range h ranges lo size ≡ some (ok, ranges')
    → 0 < size
    → IsUse area h ranges
    → IsUse area h ranges'
add-IsUse area h ranges lo size ok ranges' e k w =
    elim (add_range_lem h ranges lo size w.heap w.placed k) [
      | inl (x, r) ↦ subst (IsUse area h) (same (sym r ∙ e)) (record {
        heap = w.heap;
        extent = w.extent;
        placed = (x.1, w.placed);
        clear = (x.2, w.clear);
      })
      | inr (x, r) ↦ subst (IsUse area h) (same (sym r ∙ e)) w
    ]
  where
    list_or : List Range → Option (Bool × List Range) → List Range
    list_or rs none = rs
    list_or rs (some (b, l)) = l

    same :
        {b : Bool} {rs : List Range}
        → ◌≡◌ {A = Option (Bool × List Range)} (some (b, rs)) (some (ok, ranges'))
        → rs ≡ ranges'
    same {rs = rs} q = ap (list_or rs) q

Step-IsUse :
    {area : ℕ} {h h' : Heap} {ranges ranges' : List Range}
    → Step h ranges h' ranges'
    → IsUse area h ranges
    → IsUse area h' ranges'
unfolding mem_reset_brk clear_ranges
Step-IsUse {area} {h} {h'} {ranges} (sbrk incr) w = sbrk-IsUse area h ranges incr w
Step-IsUse {area} {h} {h'} {ranges} (add lo size ok ranges' e k) w =
    add-IsUse area h ranges lo size ok ranges' e k w
Step-IsUse {area} {h} {h'} {ranges} (remove lo) w = record {
  heap = w.heap;
  extent = w.extent;
  placed = All-remove_range (Placed h) ranges lo w.placed;
  clear = Clear-remove_range ranges lo w.clear;
}
Step-IsUse {area} {h} restart w = record {
  heap = record { start = w.heap.start; order = (omega arith, omega (arith, w.heap.order)) };
  extent = w.extent;
  placed = tt;
  clear = tt;
}

-- Along every run on an area that does not start at the null pointer: the heap stays in the area; every
-- payload of the list lies in the heap, and is apart from each older one or encloses it.
pub Reached-IsUse :
    {area : ℕ} {h : Heap} {ranges : List Range}
    → 0 < area
    → Reached area h ranges
    → IsUse area h ranges
unfolding mem_init
Reached-IsUse k initial = record {
  heap = record { start = k; order = (omega arith, omega arith) };
  extent = (refl, refl);
  placed = tt;
  clear = tt;
}
Reached-IsUse k (next r step) = Step-IsUse step (Reached-IsUse k r)

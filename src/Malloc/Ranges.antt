-- ===== src/Malloc/Ranges.antt =====
-- mdriver.c: the list of the payloads that are in use.
pub mod Overlaps
pub mod Histories
use csapp_3e_study.Base.{
  ℕ, ◌+◌, ◌-◌, ◌%◌, ◌^◌, Bool, true, false, ◌||◌, ◌&&◌, not, List, [], ◌∷◌, Option, none, some, ltb,
  leb, ◌==◌, if◌then◌else◌,
}
use csapp_3e_study.Malloc.Heap.{Heap, mem_heap_lo, mem_heap_hi}

-- `range_t`, less its link.
pub record Range : Type 0 where
  pub lo : ℕ
  pub hi : ℕ

-- `IS_ALIGNED`, of the low 32 bits.
abbrev pub is_aligned : ℕ → Bool
is_aligned p = p % 2 ^ 32 % 8 == 0

-- The test of one payload in the loop of `add_range`.
abbrev pub touches : ℕ → ℕ → Range → Bool
touches lo hi p = (leb p.lo lo && leb lo p.hi) || (leb p.lo hi && leb hi p.hi)

unfoldable pub touches_any : ℕ → ℕ → List Range → Bool
touches_any lo hi [] = false
touches_any lo hi (p ∷ ps) = touches lo hi p || touches_any lo hi ps

-- `add_range`: what it returns, and the list; `none` where the assertion fails.
unfoldable pub add_range : Heap → List Range → ℕ → ℕ → Option (Bool × List Range)
unfolding touches_any
add_range h ranges lo size =
    let hi = lo + size - 1 in
    if size == 0
    then none
    else if not (is_aligned lo)
    then some (false, ranges)
    else if ltb lo (mem_heap_lo h)
        || ltb (mem_heap_hi h) lo
        || ltb hi (mem_heap_lo h)
        || ltb (mem_heap_hi h) hi
    then some (false, ranges)
    else if touches_any lo hi ranges
    then some (false, ranges)
    else some (true, record { lo = lo; hi = hi } ∷ ranges)

unfoldable pub remove_range : List Range → ℕ → List Range
remove_range [] lo = []
remove_range (p ∷ ps) lo = let rest = remove_range ps lo in if p.lo == lo then ps else p ∷ rest

unfoldable pub clear_ranges : List Range → List Range
clear_ranges ranges = []

-- ===== src/Malloc/Tests.antt =====
-- The list of payloads on a small heap.
use csapp_3e_study.Base.{◌+◌, ◌≡◌, ◌⊎◌, refl, arith, true, false, [], ◌∷◌, some}
use csapp_3e_study.Base.Tables.{All}
use csapp_3e_study.Base.Int.{pos}
use csapp_3e_study.Malloc.Heap.{Heap, max_heap, mem_init, mem_sbrk}
use csapp_3e_study.Malloc.Ranges.{Range, touches_any, add_range}
use csapp_3e_study.Malloc.Ranges.Overlaps.{IsHeap, Placed, Accepts, payload, add_range_lem}
use csapp_3e_study.Malloc.Ranges.Histories.{sbrk, add, Reached, initial, next, IsUse, Reached-IsUse}

-- 64 bytes from 4096 on, with a payload of 8 bytes in the middle.
abbrev heap : Heap
heap = record { start_brk = 4096; brk = 4160; max_addr = 4096 + max_heap }

abbrev inner : Range
inner = payload 4112 8

heap-IsHeap : IsHeap heap
heap-IsHeap = omega arith

inner-Placed : All (Placed heap) (inner ∷ [])
inner-Placed = ((omega arith, omega arith, omega arith), tt)

-- A payload of 40 bytes round it is accepted, though the two overlap.
enclosing_accepted : add_range heap (inner ∷ []) 4104 40 ≡ some (true, payload 4104 40 ∷ inner ∷ [])
unfolding add_range touches_any
enclosing_accepted = refl

add_range_lem_example :
    (Accepts heap (inner ∷ []) (payload 4120 16)
      × (add_range heap (inner ∷ []) 4120 16 ≡ some (true, payload 4120 16 ∷ inner ∷ [])))
    ⊎ (¬ Accepts heap (inner ∷ []) (payload 4120 16)
        × (add_range heap (inner ∷ []) 4120 16 ≡ some (false, inner ∷ [])))
add_range_lem_example =
    add_range_lem heap (inner ∷ []) 4120 16 heap-IsHeap inner-Placed (omega arith)

inner_added : add_range heap [] 4112 8 ≡ some (true, inner ∷ [])
unfolding add_range touches_any
inner_added = refl

run-Reached : Reached 4096 heap (inner ∷ [])
unfolding mem_init mem_sbrk
run-Reached =
    next (next initial (sbrk (pos 64))) (add 4112 8 true (inner ∷ []) inner_added (omega arith))

Reached-IsUse_example : IsUse 4096 heap (inner ∷ [])
Reached-IsUse_example = Reached-IsUse (omega arith) run-Reached

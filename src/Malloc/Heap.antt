-- ===== src/Malloc/Heap.antt =====
-- memlib.c: the heap, which grows and does not shrink.
use csapp_3e_study.Base.{ℕ, ◌+◌, ◌-◌, ◌*◌, ◌^◌, Option, none, some, ltb, if◌then◌else◌}
use csapp_3e_study.Base.Int.{ℤ, pos, negsuc}

-- `MAX_HEAP`
abbrev pub max_heap : ℕ
max_heap = 20 * 2 ^ 20

-- `mem_start_brk`, `mem_brk` and `mem_max_addr`.
pub record Heap : Type 0 where
  pub start_brk : ℕ
  pub brk : ℕ
  pub max_addr : ℕ

-- `mem_init`, where `malloc` returns `area`.
unfoldable pub mem_init : ℕ → Heap
mem_init area = record { start_brk = area; brk = area; max_addr = area + max_heap }

unfoldable pub mem_reset_brk : Heap → Heap
mem_reset_brk h = record h { brk = h.start_brk }

-- `mem_sbrk`: `none` is the result -1.
unfoldable pub mem_sbrk : Heap → ℤ → Option ℕ × Heap
mem_sbrk h (negsuc n) = (none, h)
mem_sbrk h (pos n) =
    if ltb h.max_addr (h.brk + n) then (none, h) else (some h.brk, record h { brk = h.brk + n })

abbrev pub mem_heap_lo : Heap → ℕ
mem_heap_lo h = h.start_brk

abbrev pub mem_heap_hi : Heap → ℕ
mem_heap_hi h = h.brk - 1

abbrev pub mem_heapsize : Heap → ℕ
mem_heapsize h = h.brk - h.start_brk

-- ===== src/Y86/Copying.antt =====
-- labs/04-architecture/sim/pipe/ncopy.c: the loop that the assembly version of `ncopy` is to compute. The
-- memory is an array of words, and a pointer an index, so that the two arrays may overlap.
pub mod Arrays
use csapp_3e_study.Base.{
  ℕ, zero, suc, ◌+◌, Bool, true, false, ◌&&◌, not, List, Option, none, some, ltb, if◌then◌else◌,
  get_elem?, set,
}
use csapp_3e_study.Y86.Memory.{is_neg}
use csapp_3e_study.Y86.Alu.{is_pos}

-- The loop, which runs while `len` is above 0; `none` where it accesses a word outside the memory.
unfoldable pub copy_loop : List ℕ → ℕ → ℕ → ℕ → ℕ → Option (List ℕ × ℕ)
copy_loop mem src dst zero count = some (mem, count)
copy_loop mem src dst (suc len) count = elim (get_elem? mem src) [
  | none ↦ none
  | some val ↦ elim (get_elem? mem dst) [
    | none ↦ none
    | some old ↦
        copy_loop (set mem dst val) (src + 1) (dst + 1) len
          (if is_pos val then count + 1 else count)
  ]
]

-- `ncopy`, where `len` is a signed word: the memory, and the count that is returned.
unfoldable pub ncopy : List ℕ → ℕ → ℕ → ℕ → Option (List ℕ × ℕ)
unfolding copy_loop
ncopy mem src dst len = if is_neg len then some (mem, 0) else copy_loop mem src dst len 0

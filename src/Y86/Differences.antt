-- ===== src/Y86/Differences.antt =====
-- isa.c: copies of a memory, of a register file and of a state, and what differs between two.
pub mod Words
pub mod States
use csapp_3e_study.Base.{
  ℕ, zero, suc, ◌+◌, ◌*◌, ◌/◌, Bool, true, false, ◌||◌, ◌&&◌, not, List, [], ◌∷◌, ◌++◌, ltb, ◌==◌,
  if◌then◌else◌, take, drop,
}
use csapp_3e_study.Y86.Memory.{Mem, Access, init_mem, get_word_val}
use csapp_3e_study.Y86.Machine.{State}

unfoldable pub copy_mem : Mem → Mem
unfolding init_mem
copy_mem oldm =
    let newm = init_mem oldm.len in
    record newm { contents = take oldm.len oldm.contents ++ drop oldm.len newm.contents }

-- A word, or the 0 that the variable keeps where none is read.
unfoldable pub word_at : Mem → ℕ → ℕ
word_at m pos = elim (get_word_val m pos) [
  | Access.found val ↦ val
  | Access.refused ↦ 0
  | Access.fault ↦ 0
]

-- A word that differs: where it is, what it was, and what it is.
pub record Change : Type 0 where
  pub at : ℕ
  pub old : ℕ
  pub new : ℕ

-- The loop of `diff_mem`, where `outfile` is whether there is a file to print to: `diff`, and what is
-- printed. The fuel is a bound on the rounds that are left.
unfoldable pub diff_words : Bool → Mem → Mem → ℕ → ℕ → ℕ → Bool → Bool × List Change
diff_words outfile oldm newm len zero pos diff = (diff, [])
diff_words outfile oldm newm len (suc fuel) pos diff =
    let ov = word_at oldm pos in
    let nv = word_at newm pos in
    let differs = not (nv == ov) in
    let (d, changes) = diff_words outfile oldm newm len fuel (pos + 8) (diff || differs) in
    if (not diff || outfile) && ltb pos len
    then (
      d,
      if differs && outfile then record { at = pos; old = ov; new = nv } ∷ changes else changes,
    )
    else (diff, [])

unfoldable pub diff_mem : Bool → Mem → Mem → Bool × List Change
unfolding diff_words
diff_mem outfile oldm newm =
    let len = if ltb newm.len oldm.len then newm.len else oldm.len in
    diff_words outfile oldm newm len (len / 8 + 1) 0 false

-- The registers are compared as the words of a memory; a change is printed under the name of the
-- register `at / 8`.
unfoldable pub diff_reg : Bool → Mem → Mem → Bool × List Change
unfolding diff_mem
diff_reg outfile oldr newr = diff_mem outfile oldr newr

unfoldable pub copy_reg : Mem → Mem
unfolding copy_mem
copy_reg oldr = copy_mem oldr

unfoldable pub copy_state : State → State
unfolding copy_mem copy_reg
copy_state s = record { pc = s.pc; r = copy_reg s.r; m = copy_mem s.m; cc = s.cc }

-- `diff_state`, without what it prints.
unfoldable pub diff_state : Bool → State → State → Bool
unfolding diff_mem diff_reg
diff_state outfile olds news =
    not (olds.pc == news.pc)
    || not (olds.cc == news.cc)
    || (diff_reg outfile olds.r news.r).0
    || (diff_mem outfile olds.m news.m).0

-- ===== src/Transpose.antt =====
-- labs/05-cache/trans.c: a matrix is the function from a row and a column to the entry, and an
-- assignment changes one entry. A and B are two arrays that do not overlap: a write to B leaves A.
pub mod Loops
pub mod Blocks
mod Tests
use csapp_3e_study.Base.{
  ℕ, zero, suc, ◌+◌, ◌-◌, ◌*◌, ◌/◌, ◌^◌, Bool, not, ◌&&◌, ltb, ◌==◌, if◌then◌else◌, min,
}

abbrev pub Matrix : Type 0
Matrix = ℕ → ℕ → ℕ

-- `B[j][i] = v`
abbrev pub assign : Matrix → ℕ → ℕ → ℕ → Matrix
assign b j i v = λ r c. if r == j && c == i then v else b r c

-- `for (i = lo; i < hi; i += step)`, with fuel for the rounds.
unfoldable pub for_loop : ℕ → ℕ → ℕ → ℕ → (ℕ → Matrix → Matrix) → Matrix → Matrix
for_loop zero step lo hi body b = b
for_loop (suc n) step lo hi body b =
    let rest = for_loop n step (lo + step) hi body in if ltb lo hi then rest (body lo b) else b

-- `base` is the address of the array.
unfoldable pub get_set_idx : ℕ → ℕ → ℕ → ℕ → ℕ
get_set_idx i j m base =
    let addr = base + 4 * (i * m + j) in (addr - addr / 2 ^ 10 * 2 ^ 10) / 2 ^ 5

-- The test of `trans_32`, for the arrays at two addresses: the entries are in the same set.
unfoldable pub same_set : ℕ → ℕ → ℕ → ℕ → ℕ → ℕ → Bool
same_set m n base_a base_b i j = get_set_idx i j m base_a == get_set_idx j i n base_b

-- The two inner loops of `trans_32`.
unfoldable pub row_32 : ℕ → (ℕ → ℕ → Bool) → Matrix → ℕ → ℕ → Matrix → Matrix
row_32 bsize same a jj i b =
    let hi = jj + bsize in
    for_loop hi 1 jj hi (λ j b. if same i j then assign b j i (a i j) else b)
      (for_loop hi 1 jj hi (λ j b. if not (same i j) then assign b j i (a i j) else b) b)

unfoldable pub trans_32 : ℕ → ℕ → ℕ → ℕ → ℕ → Matrix → Matrix → Matrix
trans_32 bsize m n base_a base_b a = for_loop m bsize 0 m λ jj.
    for_loop n bsize 0 n
      λ ii. for_loop (ii + bsize) 1 ii (ii + bsize) (row_32 bsize (same_set m n base_a base_b) a jj)

-- An `int` as the bound of a loop from 0: where a number of less than 2 ^ 32 wraps around it is negative,
-- and the loop makes no round.
unfoldable pub int_bound : ℕ → ℕ
int_bound x = if ltb x (2 ^ 31) then x else 0

unfoldable pub trans_odds : ℕ → ℕ → ℕ → Matrix → Matrix → Matrix
unfolding int_bound
trans_odds bsize m n a =
    let en = int_bound (bsize * (n / bsize + 1)) in
    let em = int_bound (bsize * (m / bsize + 1)) in
    for_loop em bsize 0 em λ jj. for_loop en bsize 0 en λ ii.
      for_loop (ii + bsize) 1 ii (min (ii + bsize) n)
        λ i. for_loop (jj + bsize) 1 jj (min (jj + bsize) m) (λ j b. assign b j i (a i j))

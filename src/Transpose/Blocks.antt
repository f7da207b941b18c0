-- ===== src/Transpose/Blocks.antt =====
-- What `trans_odds` and `trans_32` write.
use csapp_3e_study.Base.{
  ℕ, ◌+◌, ◌*◌, ◌/◌, ◌%◌, ◌^◌, ◌≤◌, ◌<◌, ◌≡◌, ◌⊎◌, arith, Bool, not, ◌&&◌, ltb, leb, ◌==◌,
  if◌then◌else◌, min, ap, Bool-cases, inl, inr, ℕ_discrete,
}
use csapp_3e_study.Base.Words.{word_mod}
use csapp_3e_study.Transpose.{
  Matrix, assign, for_loop, int_bound, same_set, row_32, trans_32, trans_odds,
}
use csapp_3e_study.Transpose.Loops.{Writes, Writes-same, Rounds, for_loop-Writes}

abbrev between : ℕ → ℕ → ℕ → Bool
between lo hi x = leb lo x && ltb x hi

abbrev Always : ℕ → Type 0
Always i = Unit

-- The rows and columns from one number to another.
abbrev area : ℕ → ℕ → ℕ → ℕ → ℕ → ℕ → Bool
area rlo rhi clo chi r c = between rlo rhi r && between clo chi c

module _ (a : Matrix) where
  assign-Writes :
      (i j : ℕ) (b : Matrix) → Writes a (λ r c. r == j && c == i) b (assign b j i (a i j))
  assign-Writes i j b r c = ground arith

  -- The innermost loop of `trans_odds`.
  columns-Writes :
      (n i lo hi : ℕ) (b : Matrix)
      → hi ≤ lo + n
      → Writes a
          (λ r c. between lo hi r && c == i)
          b
          (for_loop n 1 lo hi (λ j b. assign b j i (a i j)) b)
  columns-Writes n i lo hi b h =
      for_loop-Writes a 1 hi (λ j r c. r == j && c == i) (λ lo r c. between lo hi r && c == i) _
        Always (omega arith)
        (record { now = λ lo r c l. ground arith; over = λ lo r c l. ground arith }) (λ i v. tt)
        (λ j b v l. assign-Writes i j b) n lo b tt h

  -- A loop that assigns only where a test holds.
  chosen-Writes :
      (t : ℕ → Bool) (n i lo hi : ℕ) (b : Matrix)
      → hi ≤ lo + n
      → Writes a
          (λ r c. (between lo hi r && c == i) && t r)
          b
          (for_loop n 1 lo hi (λ j b. if t j then assign b j i (a i j) else b) b)
  chosen-Writes t n i lo hi b h =
      for_loop-Writes a 1 hi (λ j r c. (r == j && c == i) && t r)
        (λ lo r c. (between lo hi r && c == i) && t r) _ Always (omega arith)
        (record { now = λ lo r c l. ground arith; over = λ lo r c l. ground arith }) (λ i v. tt)
        (λ j b v l. one j b) n lo b tt h
    where
      one :
          (j : ℕ) (b : Matrix)
          → Writes a (λ r c. (r == j && c == i) && t r) b (if t j then assign b j i (a i j) else b)
      one j b r c = elim (ℕ_discrete r j) [
        | no n ↦ elim (Bool-cases (t j)) [
          | inl e ↦ rw e (ground arith)
          | inr e ↦ rw e (ground arith)
        ]
        | yes s ↦ elim (Bool-cases (t j)) [
          | inl e ↦ rw e (ground (arith, ap t s))
          | inr e ↦ rw e (ground (arith, ap t s))
        ]
      ]

  -- Rounds over the columns, of rows that `q` gives, and rounds over blocks of eight columns.
  each_column :
      (q : ℕ → Bool) (hi : ℕ)
      → Rounds 1 hi (λ i r c. q r && c == i) (λ i r c. q r && between i hi c)
  each_column q hi = record { now = λ i r c l. ground arith; over = λ i r c l. ground arith }

  column_blocks :
      (q : ℕ → Bool) (n hi : ℕ)
      → n ≤ hi
      → Rounds 8 hi (λ i r c. q r && between i (min (i + 8) n) c) (λ i r c. q r && between i n c)
  column_blocks q n hi h = record { now = λ i r c l. ground arith; over = λ i r c l. ground arith }

  row_blocks :
      (q : ℕ → Bool) (m hi : ℕ)
      → m ≤ hi
      → Rounds 8 hi (λ j r c. between j (min (j + 8) m) r && q c) (λ j r c. between j m r && q c)
  row_blocks q m hi h = record { now = λ j r c l. ground arith; over = λ j r c l. ground arith }

int_bound_lem : (x : ℕ) → x < 2 ^ 31 → int_bound x ≡ x
unfolding int_bound
int_bound_lem x h = ground arith

-- Where the arrays stand: in the address space, of fewer than 2 ^ 31 entries and 2 ^ 31 rows and columns, and apart.
pub record Placed (m n base_a base_b : ℕ) : Type 0 where
  pub few : (m * n < 2 ^ 31) × (m < 2 ^ 31) × (n < 2 ^ 31)
  pub inside : (base_a + 4 * (m * n) ≤ word_mod) × (base_b + 4 * (m * n) ≤ word_mod)
  pub apart : (base_a + 4 * (m * n) ≤ base_b) ⊎ (base_b + 4 * (m * n) ≤ base_a)

-- `trans_odds` with the block size that `trans_opt` gives it, 8, for any numbers of columns and rows
-- whose next multiple of 8 is below 2 ^ 31, on two arrays that do not overlap: the entries of the M rows and N columns of B are those of the transpose of A, and nothing else is
-- written.
pub trans_odds_lem :
    (m n : ℕ) (a b : Matrix) (r c : ℕ)
    → 8 * (m / 8 + 1) < 2 ^ 31
    → 8 * (n / 8 + 1) < 2 ^ 31
    → trans_odds 8 m n a b r c ≡ (if ltb r m && ltb c n then a c r else b r c)
unfolding trans_odds
trans_odds_lem m n a b r c few_rows few_columns =
    let em = 8 * (m / 8 + 1) in
    let en = 8 * (n / 8 + 1) in
    let w =
      for_loop-Writes a 8 em _ _ _ Always (omega arith)
        (row_blocks a (λ c. between 0 n c) m em (omega arith)) (λ i v. tt)
        (λ jj b v l.
          for_loop-Writes a 8 en _ _ _ Always (omega arith)
            (column_blocks a (between jj (min (jj + 8) m)) n en (omega arith)) (λ i v. tt)
            (λ ii b v l.
              for_loop-Writes a 1 (min (ii + 8) n) _ _ _ Always (omega arith)
                (each_column a (between jj (min (jj + 8) m)) (min (ii + 8) n)) (λ i v. tt)
                (λ i b v l. columns-Writes a (jj + 8) i jj (min (jj + 8) m) b (omega arith))
                (ii + 8) ii b tt (omega arith))
            en 0 b tt (omega arith))
        em 0 b tt (omega arith) in
    rw (int_bound_lem em few_rows, int_bound_lem en few_columns) (ground (arith, w r c))

module _ (m n base_a base_b : ℕ) (a : Matrix) where
  row_32-Writes :
      (jj i : ℕ) (b : Matrix)
      → Writes a
          (λ r c. between jj (jj + 8) r && c == i)
          b
          (row_32 8 (same_set m n base_a base_b) a jj i b)
  unfolding row_32
  row_32-Writes jj i b =
      let same = same_set m n base_a base_b i in
      let b1 =
        for_loop (jj + 8) 1 jj (jj + 8) (λ j b. if not (same j) then assign b j i (a i j) else b)
          b in
      let f = chosen-Writes a (λ j. not (same j)) (jj + 8) i jj (jj + 8) b (omega arith) in
      let g = chosen-Writes a same (jj + 8) i jj (jj + 8) b1 (omega arith) in
      λ r c. elim (Bool-cases (same r)) [
        | inl e ↦ ground (arith, f r c, g r c)
        | inr e ↦ ground (arith, f r c, g r c)
      ]

  -- `trans_32` with a block size of 8, for numbers of columns and rows that 8 divides, wherever the two
  -- arrays, of fewer than 2 ^ 31 entries, rows and columns, stand without overlapping: the entries of the M rows and N columns of B are those of the transpose of A, and
  -- nothing else is written.
  pub trans_32_lem :
      (b : Matrix) (r c : ℕ)
      → Placed m n base_a base_b
      → m % 8 ≡ 0
      → n % 8 ≡ 0
      → trans_32 8 m n base_a base_b a b r c ≡ (if ltb r m && ltb c n then a c r else b r c)
  unfolding trans_32
  trans_32_lem b r c placed em en =
      let blocks : ℕ → Type 0 = λ i. i % 8 ≡ 0 in
      let w =
        for_loop-Writes a 8 m _ _ _ blocks (omega arith)
          (row_blocks a (λ c. between 0 n c) m m (omega arith)) (λ i v. omega (arith, v))
          (λ jj b v l.
            for_loop-Writes a 8 n _ _ _ blocks (omega arith)
              (column_blocks a (between jj (min (jj + 8) m)) n n (omega arith))
              (λ i v. omega (arith, v))
              (λ ii b u k.
                Writes-same a (λ r c. between jj (jj + 8) r && between ii (ii + 8) c) _ b _
                  (λ r c. ground (arith, em, en, v, u))
                  (for_loop-Writes a 1 (ii + 8) _ _ _ Always (omega arith)
                    (each_column a (between jj (jj + 8)) (ii + 8)) (λ i v. tt)
                    (λ i b v l. row_32-Writes jj i b) (ii + 8) ii b tt (omega arith)))
              n 0 b (omega arith) (omega arith))
          m 0 b (omega arith) (omega arith) in
      ground (arith, w r c)

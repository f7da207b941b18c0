-- ===== src/Y86/Memory/Bounds.antt =====
-- What the reads and writes of a memory do, on every branch.
use csapp_3e_study.Base.{
  dec_le, length-replicate, ◌-◌, ◌*◌, ◌/◌, dec_lt, inl, inr, ◌⊎◌, ℕ, ◌+◌, ◌^◌, ◌≤◌, ◌<◌, ◌≡◌, arith,
  length, get_or,
}
use csapp_3e_study.Base.Words.{word_mod, sign_bit}
use csapp_3e_study.Y86.Memory.{
  Mem, init_mem, found, refused, fault, get_byte_val, get_word_val, set_word_val,
}
use csapp_3e_study.Y86.Memory.Bytes.{
  from_bytes, put_bytes, word_bytes, read_word, write_word, length-put_bytes,
}

-- The array has the length that `len` says, which is an `int`.
pub record IsMem (m : Mem) : Type 0 where
  pub sized : length m.contents ≡ m.len
  pub small : m.len < 2 ^ 31

-- The addresses from which `pos + 8` wraps.
abbrev pub Wraps : ℕ → Type 0
Wraps pos = (sign_bit ≤ pos + 8) × (pos < sign_bit)

-- The memory after a write of the word `v`.
abbrev pub written : Mem → ℕ → ℕ → Mem
written m pos v = record m { contents = put_bytes m.contents pos (word_bytes v) }

dec_wraps : (pos : ℕ) → Dec (Wraps pos)
dec_wraps pos = elim (dec_le sign_bit (pos + 8)) [
  | no p ↦ no (λ w. p w.0)
  | yes p ↦ elim (dec_lt pos sign_bit) [ no q ↦ no (λ w. q w.1) | yes q ↦ yes (p, q) ]
]

module _ {m : Mem} (w : IsMem m) (pos : ℕ) where
  pub get_word-in : pos + 8 ≤ m.len → get_word_val m pos ≡ found (from_bytes m.contents pos 8)
  unfolding get_word_val
  get_word-in h = ground (arith, read_word m.contents pos)

  pub get_word-out : pos < word_mod → m.len < pos + 8 → ¬ Wraps pos → get_word_val m pos ≡ refused
  unfolding get_word_val
  get_word-out h k n = ground arith

  pub get_word-Wraps : Wraps pos → get_word_val m pos ≡ fault
  unfolding get_word_val
  get_word-Wraps h = ground arith

  pub set_word-in :
      (v : ℕ) → v < word_mod → pos + 8 ≤ m.len → set_word_val m pos v ≡ found (written m pos v)
  unfolding set_word_val
  set_word-in v hv h = ground (arith, write_word m.contents pos v)

  pub set_word-out :
      (v : ℕ) → pos < word_mod → m.len < pos + 8 → ¬ Wraps pos → set_word_val m pos v ≡ refused
  unfolding set_word_val
  set_word-out v h k n = ground arith

  pub set_word-Wraps : (v : ℕ) → Wraps pos → set_word_val m pos v ≡ fault
  unfolding set_word_val
  set_word-Wraps v h = ground arith

  pub written-IsMem : (v : ℕ) → IsMem (written m pos v)
  written-IsMem v = omega (arith, length-put_bytes m.contents pos (word_bytes v))

  pub get_byte-in : pos < m.len → get_byte_val m pos ≡ found (get_or m.contents pos 0)
  unfolding get_byte_val
  get_byte-in h = ground arith

  pub get_byte-out : pos < word_mod → m.len ≤ pos → get_byte_val m pos ≡ refused
  unfolding get_byte_val
  get_byte-out h k = ground arith

  -- A read or a write of a word has these three ends.
  pub get_word_cases :
      pos < word_mod
      → (get_word_val m pos ≡ found (from_bytes m.contents pos 8))
        ⊎ (get_word_val m pos ≡ refused)
        ⊎ ((get_word_val m pos ≡ fault) × Wraps pos)
  get_word_cases h = elim (dec_le (pos + 8) m.len) [
    | yes p ↦ inl (get_word-in p)
    | no p ↦ elim (dec_wraps pos) [
      | yes q ↦ inr (inr (get_word-Wraps q, q))
      | no q ↦ inr (inl (get_word-out h (omega arith) q))
    ]
  ]

  pub set_word_cases :
      (v : ℕ)
      → pos < word_mod
      → v < word_mod
      → (set_word_val m pos v ≡ found (written m pos v))
        ⊎ (set_word_val m pos v ≡ refused)
        ⊎ ((set_word_val m pos v ≡ fault) × Wraps pos)
  set_word_cases v h hv = elim (dec_le (pos + 8) m.len) [
    | yes p ↦ inl (set_word-in v hv p)
    | no p ↦ elim (dec_wraps pos) [
      | yes q ↦ inr (inr (set_word-Wraps v q, q))
      | no q ↦ inr (inl (set_word-out v h (omega arith) q))
    ]
  ]

-- `init_mem` rounds the length up to whole blocks, by less than one.
pub init_mem-IsMem :
    (n : ℕ)
    → n + 32 ≤ 2 ^ 31
    → IsMem (init_mem n) × (n ≤ (init_mem n).len) × ((init_mem n).len < n + 32)
unfolding init_mem
init_mem-IsMem n h = (
  record { sized = length-replicate ((n + 32 - 1) / 32 * 32) 0; small = omega arith },
  omega arith,
  omega arith,
)

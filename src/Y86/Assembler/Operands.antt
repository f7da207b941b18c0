-- ===== src/Y86/Assembler/Operands.antt =====
-- What the operands leave in the bytes of an instruction, against what `step_state` reads.
use csapp_3e_study.Base.{
  ℕ, zero, suc, ◌+◌, ◌*◌, ◌/◌, ◌%◌, ◌^◌, ◌≤◌, ◌<◌, ◌≡◌, ◌⊎◌, ◌∙◌, inl, refl, ap, sym, subst, arith,
  Bool, true, false, List, if◌then◌else◌, not, length, length-set, get_or, set, get_or-set_self,
  get_or-set_ne, bit_or,
}
use csapp_3e_study.Base.Words.{word_mod, sub64, bit_or-shifted}
use csapp_3e_study.Y86.Memory.{reg_none}
use csapp_3e_study.Y86.Memory.Bytes.{from_bytes}
use csapp_3e_study.Y86.Machine.Fetch.{hi4, lo4}
use csapp_3e_study.Y86.Names.{find_register, reg_name}
use csapp_3e_study.Y86.Names.Registers.{find_register-reg_name}
use csapp_3e_study.Y86.Assembler.{
  Token, reg, num, token_at, SymbolTable, Encoding, get_reg, num_loop, get_num,
}

-- Bytes that the loop does not write.
num_loop-other :
    (code : List ℕ) (codepos n i val q : ℕ)
    → (q < codepos + i) ⊎ (codepos + i + n ≤ q)
    → get_or (num_loop code codepos n i val) q 0 ≡ get_or code q 0
unfolding num_loop
num_loop-other code codepos zero i val q h = refl
num_loop-other code codepos (suc n) i val q h =
    let c = set code (codepos + i) (val / 2 ^ (8 * i) % 256) in
    num_loop-other c codepos n (i + 1) val q (omega (arith, h))
    ∙ get_or-set_ne code (codepos + i) q (val / 2 ^ (8 * i) % 256) 0 (omega (arith, h))

num_loop-byte :
    (code : List ℕ) (codepos n i val j : ℕ)
    → codepos + i + n ≤ length code
    → j < n
    → get_or (num_loop code codepos n i val) (codepos + (i + j)) 0 ≡ val / 2 ^ (8 * (i + j)) % 256
unfolding num_loop
num_loop-byte code codepos zero i val j h k = absurd (omega (arith, k))
num_loop-byte code codepos (suc n) i val zero h k =
    let c = set code (codepos + i) (val / 2 ^ (8 * i) % 256) in
    let here : i + 0 ≡ i = omega arith in
    rw here (
      num_loop-other c codepos n (i + 1) val (codepos + i) (inl (omega arith))
      ∙ get_or-set_self code (codepos + i) (val / 2 ^ (8 * i) % 256) 0 (omega (arith, h)))
num_loop-byte code codepos (suc n) i val (suc j) h k =
    let c = set code (codepos + i) (val / 2 ^ (8 * i) % 256) in
    let here : i + suc j ≡ i + 1 + j = omega arith in
    rw here (
      num_loop-byte c codepos n (i + 1) val j
        (omega (arith, h, length-set code (codepos + i) (val / 2 ^ (8 * i) % 256)))
        (omega (arith, k)))

-- Another encoding, at the next token, and with the bytes but for `n` of them from `at` on.
abbrev pub Encoded : Encoding → ℕ → ℕ → Encoding → Type 0
Encoded l at n l' =
    (l'.tpos ≡ l.tpos + 1)
    × (l'.failed ≡ l.failed)
    × ((q : ℕ) → (q < at) ⊎ (at + n ≤ q) → get_or l'.code q 0 ≡ get_or l.code q 0)

word_read :
    (code : List ℕ) (at val : ℕ)
    → at + 8 ≤ length code
    → val < word_mod
    → from_bytes (num_loop code at 8 0 val) at 8 ≡ val
word_read code at val h k =
    rw
      (
        byte at 0 (omega arith) (omega arith),
        byte (at + 1) 1 (omega arith) (omega arith),
        byte (at + 1 + 1) 2 (omega arith) (omega arith),
        byte (at + 1 + 1 + 1) 3 (omega arith) (omega arith),
        byte (at + 1 + 1 + 1 + 1) 4 (omega arith) (omega arith),
        byte (at + 1 + 1 + 1 + 1 + 1) 5 (omega arith) (omega arith),
        byte (at + 1 + 1 + 1 + 1 + 1 + 1) 6 (omega arith) (omega arith),
        byte (at + 1 + 1 + 1 + 1 + 1 + 1 + 1) 7 (omega arith) (omega arith),
      )
      (omega (arith, k))
  where
    byte :
        (q j : ℕ)
        → q ≡ at + j
        → j < 8
        → get_or (num_loop code at 8 0 val) q 0 ≡ val / 2 ^ (8 * j) % 256
    byte q j e l =
        let from : 0 + j ≡ j = omega arith in
        rw e (rw from at (num_loop-byte code at 8 0 val j (omega (arith, h)) l))

length-num_loop :
    (code : List ℕ) (codepos n i val : ℕ) → length (num_loop code codepos n i val) ≡ length code
unfolding num_loop
length-num_loop code codepos zero i val = refl
length-num_loop code codepos (suc n) i val =
    let v = val / 2 ^ (8 * i) % 256 in
    length-num_loop (set code (codepos + i) v) codepos n (i + 1) val
    ∙ length-set code (codepos + i) v

get_num-number :
    (tokens : List Token) (table : SymbolTable) (l : Encoding) (codepos val : ℕ)
    → token_at tokens l.tpos ≡ num val
    → val < word_mod
    → get_num tokens table l codepos 8 0
      ≡ record l { code = num_loop l.code codepos 8 0 val; tpos = l.tpos + 1 }
unfolding get_num
get_num-number tokens table l codepos val e k =
    let same : sub64 val 0 ≡ val = omega (arith, k) in rw (get_num, e, same) refl

-- `get_num` of eight bytes with room for them, at a number that is a word: it passes the token and does
-- not fail, the number is what is read as a word there, and no other byte is changed.
pub get_num_lem :
    (tokens : List Token) (table : SymbolTable) (l : Encoding) (codepos val : ℕ)
    → token_at tokens l.tpos ≡ num val
    → val < word_mod
    → codepos + 8 ≤ length l.code
    → (from_bytes (get_num tokens table l codepos 8 0).code codepos 8 ≡ val)
      × Encoded l codepos 8 (get_num tokens table l codepos 8 0)
get_num_lem tokens table l codepos val e k h =
    subst (λ r. (from_bytes r.code codepos 8 ≡ val) × Encoded l codepos 8 r)
      (sym (get_num-number tokens table l codepos val e k))
      (
        word_read l.code codepos val h k,
        (refl, refl, λ q s. num_loop-other l.code codepos 8 0 val q (omega (arith, s))),
      )

-- The byte with an id in one half.
abbrev half : Bool → ℕ → ℕ → ℕ
half true c id = c % 16 + id * 16
half false c id = id + c / 16 * 16

half_written :
    (hi : Bool) (c id : ℕ)
    → c < 256
    → id < 15
    → (if hi then bit_or (c % 16) (id * 16) % 256 else bit_or id (c / 16 * 16) % 256) ≡ half hi c id
half_written true c id h k =
    let or : bit_or (c % 16) (id * 16) ≡ c % 16 + id * 16 =
      bit_or-shifted 4 (c % 16) id (omega arith) in
    omega (arith, or, h, k)
half_written false c id h k =
    let or : bit_or id (c / 16 * 16) ≡ id + c / 16 * 16 =
      bit_or-shifted 4 id (c / 16) (omega (arith, k)) in
    omega (arith, or, h, k)

get_reg-half :
    (tokens : List Token) (l : Encoding) (codepos id : ℕ) (hi : Bool)
    → token_at tokens l.tpos ≡ reg (reg_name id)
    → id < 15
    → get_or l.code codepos 0 < 256
    → get_reg tokens l codepos hi ≡ record l {
      code = set l.code codepos (half hi (get_or l.code codepos 0) id);
      tpos = l.tpos + 1;
    }
unfolding get_reg
get_reg-half tokens l codepos id hi e k b =
    let found : find_register (reg_name id) ≡ id =
      (find_register-reg_name (reg_name id) id k).1 refl in
    rw (get_reg, e, found, half_written hi (get_or l.code codepos 0) id b k) refl

-- What of the byte is read as the register, and what else it has.
abbrev pub half_read : Bool → ℕ → ℕ
half_read true c = hi4 c
half_read false c = lo4 c

half_read-half : (hi : Bool) (c id : ℕ) → c < 256 → id < 15 → half_read hi (half hi c id) ≡ id
half_read-half true c id h k = omega (arith, h, k)
half_read-half false c id h k = omega (arith, h, k)

half_kept :
    (hi : Bool) (c id : ℕ)
    → c < 256
    → id < 15
    → half_read (not hi) (half hi c id) ≡ half_read (not hi) c
half_kept true c id h k = omega (arith, h, k)
half_kept false c id h k = omega (arith, h, k)

-- `get_reg` at the name of a register, at a byte of the instruction: it passes the token and does not
-- fail, the id is what is read in the half of the byte that it is written to, the other half and every
-- other byte are not changed.
pub get_reg_lem :
    (tokens : List Token) (l : Encoding) (codepos id : ℕ) (hi : Bool)
    → token_at tokens l.tpos ≡ reg (reg_name id)
    → id < reg_none
    → codepos < length l.code
    → get_or l.code codepos 0 < 256
    → (half_read hi (get_or (get_reg tokens l codepos hi).code codepos 0) ≡ id)
      × (half_read (not hi) (get_or (get_reg tokens l codepos hi).code codepos 0)
          ≡ half_read (not hi) (get_or l.code codepos 0))
      × Encoded l codepos 1 (get_reg tokens l codepos hi)
get_reg_lem tokens l codepos id hi e k h b =
    let c = get_or l.code codepos 0 in
    let byte : get_or (set l.code codepos (half hi c id)) codepos 0 ≡ half hi c id =
      get_or-set_self l.code codepos (half hi c id) 0 h in
    subst
      (λ r.
        (half_read hi (get_or r.code codepos 0) ≡ id)
        × (half_read (not hi) (get_or r.code codepos 0)
            ≡ half_read (not hi) (get_or l.code codepos 0))
        × Encoded l codepos 1 r)
      (sym (get_reg-half tokens l codepos id hi e k b))
      (
        ap (half_read hi) byte ∙ half_read-half hi c id b k,
        ap (half_read (not hi)) byte ∙ half_kept hi c id b k,
        (refl, refl, λ q s. get_or-set_ne l.code codepos q (half hi c id) 0 (omega (arith, s))),
      )

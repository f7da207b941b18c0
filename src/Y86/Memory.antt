-- ===== src/Y86/Memory.antt =====
-- isa.c, "Implementation of Memory" and "Implementation of Register File" (isa.h): a memory is an
-- array of bytes, and the register file is a memory of 128 bytes.
pub mod Bytes
pub mod Bounds
pub mod RoundTrip
pub mod Registers
use csapp_3e_study.Base.{
  ℕ, zero, suc, ◌+◌, ◌-◌, ◌*◌, ◌/◌, ◌%◌, ◌^◌, Bool, true, false, ◌||◌, ◌&&◌, not, List, ltb, leb,
  if◌then◌else◌, length, get_or, set, replicate, bit_or,
}
use csapp_3e_study.Base.Words.{sign_bit, word_mod, add64}

-- `BPL`
abbrev pub block : ℕ
block = 32

-- `mem_rec`; no code reads its `maxaddr`.
pub record Mem : Type 0 where
  pub len : ℕ
  pub contents : List ℕ

-- What an access ends in: `refused` is the return value FALSE, `fault` an index outside the array,
-- which C leaves undefined.
pub data Access {ℓ} (A : Type ℓ) : Type ℓ where
  found : A → Access A
  refused : Access A
  fault : Access A

-- `init_mem`: the length is rounded up to whole blocks, and `calloc` zeroes the bytes.
unfoldable pub init_mem : ℕ → Mem
init_mem n =
    let len = (n + block - 1) / block * block in record { len = len; contents = replicate len 0 }

-- `clear_mem`
unfoldable pub clear_mem : Mem → Mem
clear_mem m = record m { contents = replicate m.len 0 }

abbrev pub is_neg : ℕ → Bool
is_neg w = leb sign_bit w

-- `w >= n` and `w > n` between a `word_t` and an `int` that is not negative.
abbrev pub word_ge : ℕ → ℕ → Bool
word_ge w n = not (is_neg w) && leb n w

abbrev pub word_gt : ℕ → ℕ → Bool
word_gt w n = not (is_neg w) && ltb n w

unfoldable pub get_byte_val : Mem → ℕ → Access ℕ
get_byte_val m pos =
    if is_neg pos || word_ge pos m.len
    then refused
    else if ltb pos (length m.contents)
    then found (get_or m.contents pos 0)
    else fault

-- The loop of `get_word_val`: `n` rounds are left, and `i` is the counter.
unfoldable pub read_loop : List ℕ → ℕ → ℕ → ℕ → ℕ → ℕ
read_loop bytes pos zero i val = val
read_loop bytes pos (suc n) i val =
    let b = get_or bytes (pos + i) 0 % 256 in
    read_loop bytes pos n (i + 1) (bit_or val (b * 2 ^ (8 * i)))

-- `pos + 8` is a signed sum: it wraps to a negative number just below 2 ^ 63, the test lets that
-- pass, and the loop runs outside the array.
unfoldable pub get_word_val : Mem → ℕ → Access ℕ
get_word_val m pos =
    if is_neg pos || word_gt (add64 pos 8) m.len
    then refused
    else if leb (pos + 8) (length m.contents)
    then found (read_loop m.contents pos 8 0 0)
    else fault

unfoldable pub set_byte_val : Mem → ℕ → ℕ → Access Mem
set_byte_val m pos val =
    if is_neg pos || word_ge pos m.len
    then refused
    else if ltb pos (length m.contents)
    then found (record m { contents = set m.contents pos val })
    else fault

-- `val >>= 8` on a `word_t`: the shift copies the sign.
abbrev pub shift_byte : ℕ → ℕ
shift_byte val = val / 256 + (if ltb val sign_bit then 0 else 255 * 2 ^ 56)

-- The loop of `set_word_val`.
unfoldable pub write_loop : List ℕ → ℕ → ℕ → ℕ → ℕ → List ℕ
write_loop bytes pos zero i val = bytes
write_loop bytes pos (suc n) i val =
    write_loop (set bytes (pos + i) (val % 256)) pos n (i + 1) (shift_byte val)

unfoldable pub set_word_val : Mem → ℕ → ℕ → Access Mem
set_word_val m pos val =
    if is_neg pos || word_gt (add64 pos 8) m.len
    then refused
    else if leb (pos + 8) (length m.contents)
    then found (record m { contents = write_loop m.contents pos 8 0 val })
    else fault

-- `reg_id_t`: REG_RAX is 0, REG_RSP is 4 and REG_NONE is 15.
abbrev pub reg_none : ℕ
reg_none = 15

abbrev pub reg_rsp : ℕ
reg_rsp = 4

unfoldable pub init_reg : Mem
unfolding init_mem
init_reg = init_mem 128

-- `get_reg_val`: `val` keeps its 0 where the word cannot be read.
unfoldable pub get_reg_val : Mem → ℕ → ℕ
get_reg_val r id =
    if leb reg_none id
    then 0
    else elim (get_word_val r (id * 8)) [ found val ↦ val | refused ↦ 0 | fault ↦ 0 ]

unfoldable pub set_reg_val : Mem → ℕ → ℕ → Mem
set_reg_val r id val =
    if ltb id reg_none
    then elim (set_word_val r (id * 8) val) [ found r' ↦ r' | refused ↦ r | fault ↦ r ]
    else r

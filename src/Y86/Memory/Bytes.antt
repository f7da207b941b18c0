-- ===== src/Y86/Memory/Bytes.antt =====
-- The loops of `get_word_val` and `set_word_val` as little-endian bytes.
use csapp_3e_study.Base.{
  ℕ, zero, suc, ◌+◌, ◌*◌, ◌/◌, ◌%◌, ◌^◌, ◌<◌, ◌≤◌, ◌≡◌, refl, ap₂, ◌∙◌, ◌⊎◌, get_or-set_self,
  get_or-set_ne, List, [], ◌∷◌, length, length-set, get_or, set, arith,
}
use csapp_3e_study.Base.Words.{word_mod, bit_or-shifted}
use native.Mathlib.Numerals.{towards_suc}
use csapp_3e_study.Y86.Memory.{read_loop, write_loop, shift_byte}

-- The number whose low byte stands first.
abbrev pub from_bytes : List ℕ → ℕ → ℕ → ℕ
from_bytes bytes pos zero = 0
from_bytes bytes pos (suc n) = get_or bytes pos 0 % 256 + 256 * from_bytes bytes (pos + 1) n

abbrev pub put_bytes : List ℕ → ℕ → List ℕ → List ℕ
put_bytes bytes pos [] = bytes
put_bytes bytes pos (b ∷ bs) = put_bytes (set bytes pos b) (pos + 1) bs

-- The eight bytes of a word, low byte first.
abbrev pub word_bytes : ℕ → List ℕ
word_bytes v =
    v % 256
    ∷ v / 2 ^ 8 % 256
    ∷ v / 2 ^ 16 % 256
    ∷ v / 2 ^ 24 % 256
    ∷ v / 2 ^ 32 % 256
    ∷ v / 2 ^ 40 % 256
    ∷ v / 2 ^ 48 % 256
    ∷ v / 2 ^ 56 % 256
    ∷ []

-- The loop of `get_word_val` reads the bytes from the low one on.
pow-byte : (i : ℕ) → 2 ^ (8 * (i + 1)) ≡ 256 * 2 ^ (8 * i)
pow-byte i = let e : 8 * (i + 1) ≡ 8 * i + 8 = omega arith in rw e (simp towards_suc (omega arith))

read_loop-from_bytes :
    (bytes : List ℕ) (pos n i val : ℕ)
    → val < 2 ^ (8 * i)
    → read_loop bytes pos n i val ≡ val + from_bytes bytes (pos + i) n * 2 ^ (8 * i)
unfolding read_loop
read_loop-from_bytes bytes pos zero i val h = omega arith
read_loop-from_bytes bytes pos (suc n) i val h =
    let b = get_or bytes (pos + i) 0 % 256 in
    let next = val + b * 2 ^ (8 * i) in
    let e : pos + (i + 1) ≡ pos + i + 1 = omega arith in
    rw (bit_or-shifted (8 * i) val b h) (
      read_loop-from_bytes bytes pos n (i + 1) next (grind (arith, pow-byte i))
      ∙ rw (e, pow-byte i) (grind arith))

pub read_word : (bytes : List ℕ) (pos : ℕ) → read_loop bytes pos 8 0 0 ≡ from_bytes bytes pos 8
read_word bytes pos =
    let e : pos + 0 ≡ pos = omega arith in
    read_loop-from_bytes bytes pos 8 0 0 (omega arith) ∙ rw e (omega arith)

pub from_bytes-lt : (bytes : List ℕ) (pos : ℕ) → from_bytes bytes pos 8 < word_mod
from_bytes-lt bytes pos = omega arith

-- The copied sign stays above the bytes that the remaining rounds write.
shift_byte-low :
    (v : ℕ) → v < word_mod → (shift_byte v < word_mod) × (shift_byte v % 2 ^ 56 ≡ v / 256 % 2 ^ 56)
shift_byte-low v h = ground arith

shifts : ℕ → ℕ → ℕ
shifts zero v = v
shifts (suc k) v = shift_byte (shifts k v)

shifts_step :
    (v k : ℕ)
    → shifts k v < word_mod
    → (shifts (suc k) v < word_mod) × (shifts (suc k) v % 2 ^ 56 ≡ shifts k v / 256 % 2 ^ 56)
unfolding shifts
shifts_step v k = shift_byte-low (shifts k v)

-- After `k` shifts the low bytes are those of the value that are left to write.
shifted :
    (v : ℕ)
    → v < word_mod
    → (shifts 1 v % 2 ^ 56 ≡ v / 2 ^ 8)
      × (shifts 2 v % 2 ^ 48 ≡ v / 2 ^ 16)
      × (shifts 3 v % 2 ^ 40 ≡ v / 2 ^ 24)
      × (shifts 4 v % 2 ^ 32 ≡ v / 2 ^ 32)
      × (shifts 5 v % 2 ^ 24 ≡ v / 2 ^ 40)
      × (shifts 6 v % 2 ^ 16 ≡ v / 2 ^ 48)
      × (shifts 7 v % 2 ^ 8 ≡ v / 2 ^ 56)
shifted v h =
    let l1 = shifts_step v 0 (unfold shifts in h) in
    let z : shifts 0 v ≡ v = unfold shifts in refl in
    let l2 = shifts_step v 1 l1.0 in
    let l3 = shifts_step v 2 l2.0 in
    let l4 = shifts_step v 3 l3.0 in
    let l5 = shifts_step v 4 l4.0 in
    let l6 = shifts_step v 5 l5.0 in
    let l7 = shifts_step v 6 l6.0 in
    (omega arith, omega arith, omega arith, omega arith, omega arith, omega arith, omega arith)

-- The bytes that the rounds write.
shift_bytes : ℕ → ℕ → List ℕ
shift_bytes zero v = []
shift_bytes (suc n) v = v % 256 ∷ shift_bytes n (shift_byte v)

shift_bytes-word_bytes : (v : ℕ) → v < word_mod → shift_bytes 8 v ≡ word_bytes v
unfolding shift_bytes shifts
shift_bytes-word_bytes v h =
    let t = shifted v h in
    ap₂ ◌∷◌ refl (
      ap₂ ◌∷◌ (omega arith) (
        ap₂ ◌∷◌ (omega arith) (
          ap₂ ◌∷◌ (omega arith) (
            ap₂ ◌∷◌ (omega arith)
              (ap₂ ◌∷◌ (omega arith) (ap₂ ◌∷◌ (omega arith) (ap₂ ◌∷◌ (omega arith) refl)))))))

write_loop-put_bytes :
    (bytes : List ℕ) (pos n i v : ℕ)
    → write_loop bytes pos n i v ≡ put_bytes bytes (pos + i) (shift_bytes n v)
unfolding write_loop shift_bytes
write_loop-put_bytes bytes pos zero i v = refl
write_loop-put_bytes bytes pos (suc n) i v =
    let e : pos + (i + 1) ≡ pos + i + 1 = omega arith in
    write_loop-put_bytes (set bytes (pos + i) (v % 256)) pos n (i + 1) (shift_byte v) ∙ rw e

-- The loop of `set_word_val` writes the eight bytes, the low one first.
pub write_word :
    (bytes : List ℕ) (pos v : ℕ)
    → v < word_mod
    → write_loop bytes pos 8 0 v ≡ put_bytes bytes pos (word_bytes v)
write_word bytes pos v h =
    let e : pos + 0 ≡ pos = omega arith in
    write_loop-put_bytes bytes pos 8 0 v ∙ rw (e, shift_bytes-word_bytes v h)

pub length-put_bytes :
    (bytes : List ℕ) (pos : ℕ) (bs : List ℕ) → length (put_bytes bytes pos bs) ≡ length bytes
length-put_bytes bytes pos [] = refl
length-put_bytes bytes pos (b ∷ bs) =
    length-put_bytes (set bytes pos b) (pos + 1) bs ∙ length-set bytes pos b

-- Bytes outside the range that is written stay.
pub get_or-put_bytes_ne :
    (bytes : List ℕ) (pos : ℕ) (bs : List ℕ) (q : ℕ)
    → (q < pos) ⊎ (pos + length bs ≤ q)
    → get_or (put_bytes bytes pos bs) q 0 ≡ get_or bytes q 0
get_or-put_bytes_ne bytes pos [] q h = refl
get_or-put_bytes_ne bytes pos (b ∷ bs) q h =
    get_or-put_bytes_ne (set bytes pos b) (pos + 1) bs q (omega arith)
    ∙ get_or-set_ne bytes pos q b 0 (omega arith)

abbrev value : List ℕ → ℕ
value [] = 0
value (b ∷ bs) = b % 256 + 256 * value bs

from_bytes-put_bytes :
    (bytes : List ℕ) (pos : ℕ) (bs : List ℕ)
    → pos + length bs ≤ length bytes
    → from_bytes (put_bytes bytes pos bs) pos (length bs) ≡ value bs
from_bytes-put_bytes bytes pos [] h = refl
from_bytes-put_bytes bytes pos (b ∷ bs) h = omega (
  arith,
  get_or-put_bytes_ne (set bytes pos b) (pos + 1) bs pos (omega arith),
  get_or-set_self bytes pos b 0 (omega arith),
  from_bytes-put_bytes (set bytes pos b) (pos + 1) bs (omega (arith, length-set bytes pos b)),
)

-- A word that was written is read back.
pub from_bytes-word_bytes :
    (bytes : List ℕ) (pos v : ℕ)
    → v < word_mod
    → pos + 8 ≤ length bytes
    → from_bytes (put_bytes bytes pos (word_bytes v)) pos 8 ≡ v
from_bytes-word_bytes bytes pos v h k =
    from_bytes-put_bytes bytes pos (word_bytes v) k ∙ omega arith

pub from_bytes-put_bytes_ne :
    (bytes : List ℕ) (pos : ℕ) (bs : List ℕ) (q n : ℕ)
    → (q + n ≤ pos) ⊎ (pos + length bs ≤ q)
    → from_bytes (put_bytes bytes pos bs) q n ≡ from_bytes bytes q n
from_bytes-put_bytes_ne bytes pos bs q zero h = refl
from_bytes-put_bytes_ne bytes pos bs q (suc n) h = omega (
  arith,
  get_or-put_bytes_ne bytes pos bs q (omega arith),
  from_bytes-put_bytes_ne bytes pos bs (q + 1) n (omega arith),
)

-- ===== src/Y86/ObjectFile.antt =====
-- isa.c: `load_mem`, which reads an object file into the memory, without the graphical interface. A
-- line is its bytes before the final 0.
pub mod Printing
pub mod Lines
pub mod Buffers
pub mod Loading
pub mod Safety
use csapp_3e_study.Base.{
  ℕ, zero, suc, ◌+◌, ◌-◌, ◌*◌, ◌%◌, Bool, true, false, ◌||◌, ◌&&◌, List, [], ◌∷◌, Option, none,
  some, ltb, leb, ◌==◌, if◌then◌else◌, length, set,
}
use csapp_3e_study.Base.Words.{word_mod}
use csapp_3e_study.Y86.Memory.{Mem, word_ge}

-- <ctype.h> on ASCII.
abbrev pub isdigit : ℕ → Bool
isdigit c = leb 48 c && leb c 57

abbrev pub isupper : ℕ → Bool
isupper c = leb 65 c && leb c 90

abbrev pub isspace : ℕ → Bool
isspace c = c == 32 || leb 9 c && leb c 13

abbrev pub isxdigit : ℕ → Bool
isxdigit c = isdigit c || leb 65 c && leb c 70 || leb 97 c && leb c 102

unfoldable pub hex2dig : ℕ → ℕ
hex2dig c = if isdigit c then c - 48 else if isupper c then c - 65 + 10 else c - 97 + 10

-- Where loading ends: with the memory and the count of bytes; with an error, where the function
-- returns 0 and leaves what it has stored; or with a store outside the array.
pub data Loaded : Type 0 where
  loaded : Mem → ℕ → Loaded
  stopped : Mem → Loaded
  fault : Loaded

unfoldable pub skip_spaces : List ℕ → List ℕ
skip_spaces [] = []
skip_spaces (c ∷ cs) = let rest = skip_spaces cs in if isspace c then rest else c ∷ cs

-- "0x" or "0X", and what stands behind it.
unfoldable pub hex_prefix : List ℕ → Option (List ℕ)
hex_prefix [] = none
hex_prefix (c ∷ []) = none
hex_prefix (c ∷ x ∷ cs) = if c == 48 && (x == 120 || x == 88) then some cs else none

-- The loop that reads the address.
unfoldable pub address_from : ℕ → List ℕ → ℕ × List ℕ
unfolding hex2dig
address_from bytepos [] = (bytepos, [])
address_from bytepos (c ∷ cs) =
    let rest = address_from ((bytepos * 16 + hex2dig c) % word_mod) cs in
    if isxdigit c then rest else (bytepos, c ∷ cs)

-- The loop that stores the bytes; `bytepos >= m->len` is a signed test.
unfoldable pub load_codes : Mem → ℕ → ℕ → List ℕ → Loaded
unfolding hex2dig
load_codes m bytepos byte_cnt [] = loaded m byte_cnt
load_codes m bytepos byte_cnt (ch ∷ []) = loaded m byte_cnt
load_codes m bytepos byte_cnt (ch ∷ cl ∷ cs) =
    let byte = (hex2dig ch * 16 + hex2dig cl) % 256 in
    let rest =
      load_codes (record m { contents = set m.contents bytepos byte }) ((bytepos + 1) % word_mod)
        (byte_cnt + 1) cs in
    if isxdigit ch && isxdigit cl
    then if word_ge bytepos m.len
      then stopped m
      else if ltb bytepos (length m.contents)
      then rest
      else fault
    else loaded m byte_cnt

-- From the address on: the colon, and the code behind it.
unfoldable pub load_at : Mem → ℕ → ℕ → List ℕ → Loaded
unfolding skip_spaces load_codes
load_at m byte_cnt bytepos text = elim (skip_spaces text) [
  | [] ↦ stopped m
  | c ∷ cs ↦ if c == 58 then load_codes m bytepos byte_cnt (skip_spaces cs) else stopped m
]

-- One round of `load_mem`; a line without an address is skipped.
unfoldable pub load_line : Mem → ℕ → List ℕ → Loaded
unfolding skip_spaces hex_prefix address_from load_at
load_line m byte_cnt buf = elim (hex_prefix (skip_spaces buf)) [
  | none ↦ loaded m byte_cnt
  | some text ↦ let (bytepos, rest) = address_from 0 text in load_at m byte_cnt bytepos rest
]

unfoldable pub load_from : Mem → ℕ → List (List ℕ) → Loaded
unfolding load_line
load_from m byte_cnt [] = loaded m byte_cnt
load_from m byte_cnt (buf ∷ infile) = elim (load_line m byte_cnt buf) [
  | loaded m' byte_cnt' ↦ load_from m' byte_cnt' infile
  | stopped m' ↦ stopped m'
  | fault ↦ fault
]

-- LINELEN
abbrev pub line_len : ℕ
line_len = 4096

-- A character before the rest of the line that is being read, or at the end of the file.
abbrev pub onto_line : ℕ → List (List ℕ) → List (List ℕ)
onto_line c [] = (c ∷ []) ∷ []
onto_line c (text ∷ more) = (c ∷ text) ∷ more

-- What the calls of `fgets` return: the lines of the file, each with its line break, and a longer line in
-- parts, where the buffer has place for `room` more characters of the first.
unfoldable pub lines_from : ℕ → List ℕ → List (List ℕ)
lines_from room [] = []
lines_from room (c ∷ cs) =
    let ends = c == 10 || leb room 1 in
    let rest = lines_from (if ends then line_len - 1 else room - 1) cs in
    if ends then (c ∷ []) ∷ rest else onto_line c rest

unfoldable pub file_lines : List ℕ → List (List ℕ)
unfolding lines_from
file_lines infile = lines_from (line_len - 1) infile

-- `load_mem`, with what `fgets` returns.
unfoldable pub load_mem : Mem → List (List ℕ) → Loaded
unfolding load_from
load_mem m infile = load_from m 0 infile

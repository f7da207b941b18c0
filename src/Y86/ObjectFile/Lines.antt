-- ===== src/Y86/ObjectFile/Lines.antt =====
-- One line that `print_code` prints, as `load_mem` reads it.
use csapp_3e_study.Base.{
  ℕ, zero, suc, ◌+◌, ◌-◌, ◌*◌, ◌/◌, ◌%◌, ◌^◌, ◌≤◌, ◌<◌, ◌≡◌, ◌∙◌, refl, ap, arith, true, false,
  List, [], ◌∷◌, ◌++◌, ltb, length, length-set, set, drop, replicate,
}
use csapp_3e_study.Base.Tables.{All}
use csapp_3e_study.Base.Words.{word_mod}
use csapp_3e_study.Y86.Memory.{Mem, word_ge}
use csapp_3e_study.Y86.Memory.Bytes.{put_bytes}
use csapp_3e_study.Y86.Memory.Bounds.{IsMem}
use csapp_3e_study.Y86.ObjectFile.{
  isxdigit, hex2dig, loaded, skip_spaces, hex_prefix, address_from, load_codes, load_at, load_line,
}
use csapp_3e_study.Y86.ObjectFile.Printing.{hex_digit, hexstuff, hexstuffs}

hex2dig-hex_digit : (d : ℕ) → d < 16 → hex2dig (hex_digit d) ≡ d
unfolding hex2dig
hex2dig-hex_digit d h = ground arith

isxdigit-hex_digit : (d : ℕ) → d < 16 → isxdigit (hex_digit d) ≡ true
isxdigit-hex_digit d h = ground arith

skip_spaces-hex_digit :
    (d : ℕ) (cs : List ℕ) → d < 16 → skip_spaces (hex_digit d ∷ cs) ≡ hex_digit d ∷ cs
unfolding skip_spaces
skip_spaces-hex_digit d cs h = ground arith

skip_spaces-blanks : (n : ℕ) (cs : List ℕ) → skip_spaces (replicate n 32 ++ 124 ∷ cs) ≡ 124 ∷ cs
unfolding skip_spaces
skip_spaces-blanks zero cs = refl
skip_spaces-blanks (suc n) cs = skip_spaces-blanks n cs

same_blanks : (a b : ℕ) → a ≡ b → replicate {A = ℕ} a 32 ≡ replicate b 32
same_blanks a b e = ap (λ i. replicate i 32) e

pub drop-blanks : (k n : ℕ) → drop {A = ℕ} k (replicate n 32) ≡ replicate (n - k) 32
drop-blanks zero n = same_blanks n (n - 0) (omega arith)
drop-blanks (suc k) zero = same_blanks 0 (0 - suc k) (omega arith)
drop-blanks (suc k) (suc n) = drop-blanks k n ∙ same_blanks (n - k) (suc n - suc k) (omega arith)

-- One digit of the address.
address_from-digit :
    (pos d : ℕ) (cs : List ℕ)
    → d < 16
    → address_from pos (hex_digit d ∷ cs) ≡ address_from ((pos * 16 + d) % word_mod) cs
unfolding address_from
address_from-digit pos d cs h = rw (isxdigit-hex_digit d h, hex2dig-hex_digit d h) refl

-- At a blank or at the bar the code ends.
load_codes-blanks :
    (m : Mem) (pos cnt n : ℕ) (cs : List ℕ)
    → load_codes m pos cnt (replicate n 32 ++ 124 ∷ cs) ≡ loaded m cnt
unfolding load_codes
load_codes-blanks m pos cnt zero [] = refl
load_codes-blanks m pos cnt zero (c ∷ cs) = refl
load_codes-blanks m pos cnt (suc zero) cs = refl
load_codes-blanks m pos cnt (suc (suc n)) cs = refl

-- A byte is stored.
load_codes-byte :
    (m : Mem) (pos cnt b : ℕ) (cs : List ℕ)
    → IsMem m
    → b < 256
    → pos < m.len
    → load_codes m pos cnt (hexstuff b 2 ++ cs)
      ≡ load_codes (record m { contents = set m.contents pos b }) (pos + 1) (cnt + 1) cs
unfolding load_codes
load_codes-byte m pos cnt b cs w h le =
    let high : b / 16 ^ 1 % 16 < 16 = omega arith in
    let low : b / 16 ^ 0 % 16 < 16 = omega arith in
    let byte : (b / 16 ^ 1 % 16 * 16 + b / 16 ^ 0 % 16) % 256 ≡ b = omega arith in
    let next : (pos + 1) % word_mod ≡ pos + 1 = omega (arith, w.small) in
    let inside : word_ge pos m.len ≡ false = ground (arith, w.small) in
    let in_array : ltb pos (length m.contents) ≡ true = ground (arith, w.sized) in
    rw
      (
        isxdigit-hex_digit (b / 16 ^ 1 % 16) high,
        isxdigit-hex_digit (b / 16 ^ 0 % 16) low,
        hex2dig-hex_digit (b / 16 ^ 1 % 16) high,
        hex2dig-hex_digit (b / 16 ^ 0 % 16) low,
        byte,
        next,
        inside,
        in_array,
      )
      refl

load_codes-hexstuffs :
    (m : Mem) (pos cnt : ℕ) (bs : List ℕ) (n : ℕ) (cs : List ℕ)
    → IsMem m
    → All (λ b. b < 256) bs
    → pos + length bs ≤ m.len
    → load_codes m pos cnt (hexstuffs bs ++ (replicate n 32 ++ 124 ∷ cs))
      ≡ loaded (record m { contents = put_bytes m.contents pos bs }) (cnt + length bs)
load_codes-hexstuffs m pos cnt [] n cs w h le =
    load_codes-blanks m pos cnt n cs ∙ ap (loaded m) (omega arith)
load_codes-hexstuffs m pos cnt (b ∷ bs) n cs w h le =
    let m' = record m { contents = set m.contents pos b } in
    let w' : IsMem m' = record {
      sized = omega (arith, length-set m.contents pos b, w.sized);
      small = w.small;
    } in
    load_codes-byte m pos cnt b (hexstuffs bs ++ (replicate n 32 ++ 124 ∷ cs)) w h.0 (omega arith)
    ∙ load_codes-hexstuffs m' (pos + 1) (cnt + 1) bs n cs w' h.1 (omega arith)
    ∙ ap (loaded (record m { contents = put_bytes (set m.contents pos b) (pos + 1) bs }))
        (omega arith)

pub load_codes-skipped :
    (m : Mem) (pos cnt : ℕ) (bs : List ℕ) (n : ℕ) (cs : List ℕ)
    → IsMem m
    → All (λ b. b < 256) bs
    → pos + length bs ≤ m.len
    → load_codes m pos cnt (skip_spaces (hexstuffs bs ++ (replicate n 32 ++ 124 ∷ cs)))
      ≡ loaded (record m { contents = put_bytes m.contents pos bs }) (cnt + length bs)
load_codes-skipped m pos cnt [] n cs w h le =
    ap (load_codes m pos cnt) (skip_spaces-blanks n cs)
    ∙ load_codes-hexstuffs m pos cnt [] 0 cs w h le
load_codes-skipped m pos cnt (b ∷ bs) n cs w h le =
    ap (load_codes m pos cnt) (
      skip_spaces-hex_digit (b / 16 ^ 1 % 16)
        (hex_digit (b / 16 ^ 0 % 16) ∷ (hexstuffs bs ++ (replicate n 32 ++ 124 ∷ cs)))
        (omega arith))
    ∙ load_codes-hexstuffs m pos cnt (b ∷ bs) n cs w h le

load_at-colon :
    (m : Mem) (cnt pos : ℕ) (cs : List ℕ)
    → load_at m cnt pos (58 ∷ cs) ≡ load_codes m pos cnt (skip_spaces cs)
unfolding load_at skip_spaces
load_at-colon m cnt pos cs = refl

pub load_line-address :
    (m : Mem) (cnt pos : ℕ) (cs rest : List ℕ)
    → address_from 0 cs ≡ (pos, 58 ∷ rest)
    → load_line m cnt (48 ∷ 120 ∷ cs) ≡ load_codes m pos cnt (skip_spaces rest)
unfolding load_line hex_prefix skip_spaces
load_line-address m cnt pos cs rest e = rw e (load_at-colon m cnt pos rest)

pub load_line-bare :
    (m : Mem) (cnt n : ℕ) (cs : List ℕ)
    → load_line m cnt (replicate n 32 ++ 124 ∷ cs) ≡ loaded m cnt
unfolding load_line hex_prefix
load_line-bare m cnt n [] = rw (load_line, skip_spaces-blanks n []) refl
load_line-bare m cnt n (c ∷ cs) = rw (load_line, skip_spaces-blanks n (c ∷ cs)) refl

pub address_from-four :
    (pos : ℕ) (cs : List ℕ)
    → pos ≤ 65535
    → address_from 0 (hexstuff pos 4 ++ 58 ∷ cs) ≡ (pos, 58 ∷ cs)
unfolding address_from
address_from-four pos cs h =
    let a = pos / 16 ^ 3 % 16 in
    let b = pos / 16 ^ 2 % 16 in
    let c = pos / 16 ^ 1 % 16 in
    let d = pos / 16 ^ 0 % 16 in
    let p1 = (0 * 16 + a) % word_mod in
    let p2 = (p1 * 16 + b) % word_mod in
    let p3 = (p2 * 16 + c) % word_mod in
    address_from-digit 0 a (hexstuff pos 3 ++ 58 ∷ cs) (omega arith)
    ∙ address_from-digit p1 b (hexstuff pos 2 ++ 58 ∷ cs) (omega arith)
    ∙ address_from-digit p2 c (hexstuff pos 1 ++ 58 ∷ cs) (omega arith)
    ∙ address_from-digit p3 d (58 ∷ cs) (omega arith)
    ∙ ap (λ p. (p, 58 ∷ cs)) (omega arith)

pub address_from-three :
    (pos : ℕ) (cs : List ℕ)
    → pos ≤ 4095
    → address_from 0 (hexstuff pos 3 ++ 58 ∷ cs) ≡ (pos, 58 ∷ cs)
unfolding address_from
address_from-three pos cs h =
    let b = pos / 16 ^ 2 % 16 in
    let c = pos / 16 ^ 1 % 16 in
    let d = pos / 16 ^ 0 % 16 in
    let p2 = (0 * 16 + b) % word_mod in
    let p3 = (p2 * 16 + c) % word_mod in
    address_from-digit 0 b (hexstuff pos 2 ++ 58 ∷ cs) (omega arith)
    ∙ address_from-digit p2 c (hexstuff pos 1 ++ 58 ∷ cs) (omega arith)
    ∙ address_from-digit p3 d (58 ∷ cs) (omega arith)
    ∙ ap (λ p. (p, 58 ∷ cs)) (omega arith)

-- ===== src/Y86/ObjectFile/Buffers.antt =====
-- Which lines `fgets` reads as a whole, and that those of `print_code` are such lines.
use csapp_3e_study.Base.{
  ℕ, zero, suc, ◌+◌, ◌-◌, ◌*◌, ◌/◌, ◌%◌, ◌^◌, ◌≤◌, ◌<◌, ◌≡◌, ◌≢◌, ◌∙◌, refl, ap, arith, List, [],
  ◌∷◌, ◌++◌, ◌==◌, leb, false, length, drop, replicate, length-replicate, length-drop,
}
use csapp_3e_study.Base.Texts.{Without, Without-append}
use csapp_3e_study.Y86.ObjectFile.{line_len, onto_line, lines_from, file_lines}
use csapp_3e_study.Y86.ObjectFile.Printing.{hex_digit, hexstuff, hexstuffs, rest_of}

-- A line that the assembler reads, and prints behind at most 31 other characters.
abbrev pub Short : List ℕ → Type 0
Short text = Without 10 text × (length text ≤ 4063)

-- A text of at most `room` characters, with a line break at its end and nowhere else.
abbrev pub OneLine : ℕ → List ℕ → Type 0
OneLine zero cs = ⊥
OneLine (suc room) [] = ⊥
OneLine (suc room) (c ∷ []) = c ≡ 10
OneLine (suc room) (c ∷ d ∷ cs) = (c ≢ 10) × OneLine room (d ∷ cs)

lines_from-inside :
    (room c : ℕ) (cs : List ℕ)
    → c ≢ 10
    → lines_from (suc (suc room)) (c ∷ cs) ≡ onto_line c (lines_from (suc room) cs)
unfolding lines_from
lines_from-inside room c cs n =
    let other : (c == 10) ≡ false = ground (arith, n) in
    let place : leb (suc (suc room)) 1 ≡ false = ground arith in
    rw (other, place)
      (ap (λ r. onto_line c (lines_from r cs)) {x = suc (suc room) - 1} (omega arith))

lines_from-end :
    (room : ℕ) (more : List ℕ)
    → lines_from room (10 ∷ more) ≡ (10 ∷ []) ∷ lines_from (line_len - 1) more
unfolding lines_from
lines_from-end room more = refl

lines_from-OneLine :
    (room : ℕ) (text more : List ℕ)
    → OneLine room text
    → lines_from room (text ++ more) ≡ text ∷ lines_from (line_len - 1) more
lines_from-OneLine zero text more h = elim h [ ]
lines_from-OneLine (suc room) [] more h = elim h [ ]
lines_from-OneLine (suc room) (c ∷ []) more h = rw h (lines_from-end (suc room) more)
lines_from-OneLine (suc zero) (c ∷ d ∷ cs) more h = elim h.1 [ ]
lines_from-OneLine (suc (suc room)) (c ∷ d ∷ cs) more h =
    lines_from-inside room c ((d ∷ cs) ++ more) h.0
    ∙ ap (onto_line c) (lines_from-OneLine (suc room) (d ∷ cs) more h.1)

pub file_lines-OneLine :
    (text more : List ℕ)
    → OneLine (line_len - 1) text
    → file_lines (text ++ more) ≡ text ∷ file_lines more
unfolding file_lines
file_lines-OneLine text more h = lines_from-OneLine (line_len - 1) text more h

-- A text without line breaks, and one after it.
ended_line :
    (room : ℕ) (text : List ℕ)
    → Without 10 text
    → length text < room
    → OneLine room (text ++ 10 ∷ [])
ended_line zero text h le = absurd (omega arith)
ended_line (suc room) [] h le = refl
ended_line (suc zero) (c ∷ cs) h le = absurd (omega arith)
ended_line (suc (suc room)) (c ∷ []) h le = (h.0, refl)
ended_line (suc (suc room)) (c ∷ d ∷ cs) h le =
    (h.0, ended_line (suc room) (d ∷ cs) h.1 (omega arith))

replicate-Without : (n : ℕ) → Without 10 (replicate n 32)
replicate-Without zero = tt
replicate-Without (suc n) = (omega arith, replicate-Without n)

drop-Without : (k : ℕ) (text : List ℕ) → Without 10 text → Without 10 (drop k text)
drop-Without zero text h = h
drop-Without (suc k) [] h = tt
drop-Without (suc k) (c ∷ text) h = drop-Without k text h.1

hex_digit_visible : (d : ℕ) → d < 16 → hex_digit d ≢ 10
hex_digit_visible d h = ground arith

hexstuff-Without : (value len : ℕ) → Without 10 (hexstuff value len)
hexstuff-Without value zero = tt
hexstuff-Without value (suc len) =
    (hex_digit_visible (value / 16 ^ len % 16) (omega arith), hexstuff-Without value len)

hexstuffs-Without : (code : List ℕ) → Without 10 (hexstuffs code)
hexstuffs-Without [] = tt
hexstuffs-Without (b ∷ code) =
    Without-append 10 (hexstuff b 2) (hexstuffs code) (hexstuff-Without b 2)
      (hexstuffs-Without code)

length-hexstuff : (value len : ℕ) → length (hexstuff value len) ≡ len
length-hexstuff value zero = refl
length-hexstuff value (suc len) = omega (arith, length-hexstuff value len)

length-hexstuffs : (code : List ℕ) → length (hexstuffs code) ≡ 2 * length code
length-hexstuffs [] = refl
length-hexstuffs (b ∷ code) = omega (arith, length-hexstuffs code)

widen_line :
    (room room' : ℕ) (line : List ℕ) → room ≤ room' → OneLine room line → OneLine room' line
widen_line zero room' line le h = elim h [ ]
widen_line (suc room) zero line le h = absurd (omega arith)
widen_line (suc room) (suc room') [] le h = elim h [ ]
widen_line (suc room) (suc room') (c ∷ []) le h = h
widen_line (suc room) (suc room') (c ∷ d ∷ line) le h =
    (h.0, widen_line room room' (d ∷ line) (omega arith) h.1)

-- A text without line breaks before a line.
before_line :
    (room n : ℕ) (text line : List ℕ)
    → Without 10 text
    → length text + room ≤ n
    → OneLine room line
    → OneLine n (text ++ line)
before_line room n [] line h le k = widen_line room n line (omega arith) k
before_line room zero (c ∷ text) line h le k = absurd (omega arith)
before_line zero (suc n) (c ∷ text) line h le k = elim k [ ]
before_line (suc room) (suc n) (c ∷ text) [] h le k = elim k [ ]
before_line (suc room) (suc n) (c ∷ []) (d ∷ line) h le k =
    (h.0, before_line (suc room) n [] (d ∷ line) tt (omega arith) k)
before_line (suc room) (suc n) (c ∷ d ∷ text) (e ∷ line) h le k =
    (h.0, before_line (suc room) n (d ∷ text) (e ∷ line) h.1 (omega arith) k)

-- What stands behind the code.
pub rest_line :
    (blanks room : ℕ) (code input_line : List ℕ)
    → (blanks - 2 * length code) + 4066 ≤ room
    → Short input_line
    → OneLine room (rest_of blanks code input_line)
rest_line blanks room code input_line le short =
    before_line 4066 room (drop (2 * length code) (replicate blanks 32))
      (124 ∷ 32 ∷ (input_line ++ 10 ∷ []))
      (drop-Without (2 * length code) (replicate blanks 32) (replicate-Without blanks))
      (omega (
        arith,
        length-drop (2 * length code) (replicate {A = ℕ} blanks 32),
        length-replicate {A = ℕ} blanks 32,
      ))
      (ended_line 4066 (124 ∷ 32 ∷ input_line) (omega arith, (omega arith, short.0))
        (omega (arith, short.1)))

-- A line with an address of `digits` digits and code.
pub coded_line :
    (pos : ℕ) (code input_line : List ℕ) (digits blanks : ℕ) (space : List ℕ)
    → digits ≤ 4
    → 20 ≤ blanks
    → blanks + length space ≤ 22
    → Without 10 space
    → length code ≤ 10
    → Short input_line
    → OneLine (line_len - 1) (
        48
        ∷ 120
        ∷ (hexstuff pos digits
            ++ 58 ∷ (space ++ (hexstuffs code ++ rest_of blanks code input_line))))
coded_line pos code input_line digits blanks space le wide le' spaces ten short =
    let rest = rest_of blanks code input_line in
    let room : ℕ = (blanks - 2 * length code) + 4066 in
    let behind : OneLine room rest = rest_line blanks room code input_line (omega arith) short in
    let codes : OneLine (blanks + 4066) (hexstuffs code ++ rest) =
      before_line room (blanks + 4066) (hexstuffs code) rest (hexstuffs-Without code)
        (omega (arith, length-hexstuffs code)) behind in
    let spaced : OneLine 4088 (space ++ (hexstuffs code ++ rest)) =
      before_line (blanks + 4066) 4088 space (hexstuffs code ++ rest) spaces (omega arith) codes in
    let colon : OneLine 4089 (58 ∷ (space ++ (hexstuffs code ++ rest))) =
      before_line 4088 4089 (58 ∷ []) (space ++ (hexstuffs code ++ rest)) (omega arith, tt)
        (omega arith) spaced in
    let address : OneLine 4093 (hexstuff pos digits ++ 58 ∷ (space ++ (hexstuffs code ++ rest))) =
      before_line 4089 4093 (hexstuff pos digits) (58 ∷ (space ++ (hexstuffs code ++ rest)))
        (hexstuff-Without pos digits) (omega (arith, length-hexstuff pos digits)) colon in
    before_line 4093 4095 (48 ∷ 120 ∷ [])
      (hexstuff pos digits ++ 58 ∷ (space ++ (hexstuffs code ++ rest)))
      (omega arith, (omega arith, tt)) (omega arith) address

-- ===== src/Y86/ObjectFile/Printing.antt =====
-- yas.c: `hexstuff` and `print_code`, which print a line of the object file, not for Verilog.
use csapp_3e_study.Base.{
  ℕ, zero, suc, ◌+◌, ◌-◌, ◌*◌, ◌/◌, ◌%◌, ◌^◌, Bool, ◌&&◌, List, [], ◌∷◌, ◌++◌, Option, none, some,
  ltb, if◌then◌else◌, length, drop, replicate,
}

abbrev pub hex_digit : ℕ → ℕ
hex_digit h = if ltb h 10 then h + 48 else h - 10 + 97

-- The digits that are written, from the first on.
abbrev pub hexstuff : ℕ → ℕ → List ℕ
hexstuff value zero = []
hexstuff value (suc len) = hex_digit (value / 16 ^ len % 16) ∷ hexstuff value len

-- The loop over `code`, each byte in two digits.
abbrev pub hexstuffs : List ℕ → List ℕ
hexstuffs [] = []
hexstuffs (b ∷ code) = hexstuff b 2 ++ hexstuffs code

-- What is left of the blanks of a template after the code, which is written over them, the bar, the line
-- that was read, and a line break. Ten bytes of code do not reach the bar.
abbrev pub rest_of : ℕ → List ℕ → List ℕ → List ℕ
rest_of blanks code input_line =
    drop (2 * length code) (replicate blanks 32) ++ 124 ∷ 32 ∷ (input_line ++ 10 ∷ [])

-- `print_code`, where `tcount` is whether the line has tokens; `none` where the address has more than
-- four digits, and the assembler exits, and where the loop leaves the ten bytes of `code`.
unfoldable pub print_code : Bool → ℕ → List ℕ → List ℕ → Option (List ℕ)
print_code tcount pos code input_line =
    if tcount && ltb 10 (length code)
    then none
    else if ltb 4095 pos
    then if tcount
      then if ltb 65535 pos
        then none
        else some
            (48 ∷ 120 ∷ (hexstuff pos 4 ++ 58 ∷ (hexstuffs code ++ rest_of 22 code input_line)))
      else some (rest_of 29 [] input_line)
    else if tcount
    then some
        (48 ∷ 120 ∷ (hexstuff pos 3 ++ 58 ∷ 32 ∷ (hexstuffs code ++ rest_of 21 code input_line)))
    else some (rest_of 28 [] input_line)

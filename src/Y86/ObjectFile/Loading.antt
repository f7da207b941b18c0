-- ===== src/Y86/ObjectFile/Loading.antt =====
-- What `load_mem` does with the file that `print_code` prints.
use csapp_3e_study.Base.{
  ℕ, ◌+◌, ◌-◌, ◌≤◌, ◌<◌, ◌≡◌, true, false, List, [], ◌∷◌, ◌++◌, Option, none, some, length,
}
use csapp_3e_study.Base.Tables.{All}
use csapp_3e_study.Y86.Memory.{Mem}
use csapp_3e_study.Y86.Memory.Bytes.{put_bytes}
use csapp_3e_study.Y86.ObjectFile.{loaded, load_line, line_len}
use csapp_3e_study.Y86.ObjectFile.Buffers.{Short, OneLine}
use csapp_3e_study.Y86.ObjectFile.Printing.{print_code}

-- A line that is read: with tokens, at an address and with its code, or without.
pub data Row : Type 0 where
  coded : ℕ → List ℕ → List ℕ → Row
  bare : ℕ → List ℕ → Row

abbrev pub print_row : Row → Option (List ℕ)
print_row (coded pos code input_line) = print_code true pos code input_line
print_row (bare pos input_line) = print_code false pos [] input_line

abbrev pub bytes_of : Row → ℕ
bytes_of (coded pos code input_line) = length code
bytes_of (bare pos input_line) = 0

abbrev pub store_row : Mem → Row → Mem
store_row m (coded pos code input_line) = record m { contents = put_bytes m.contents pos code }
store_row m (bare pos input_line) = m

-- The code is of ten bytes at most, at an address of four digits at most, and lies in the memory; the line
-- that was read has no line break, and with what is before it on the printed line it fits the buffer of
-- `load_mem`.
abbrev pub Fits : ℕ → Row → Type 0
Fits len (coded pos code input_line) =
    All (λ b. b < 256) code
    × (pos ≤ 65535)
    × (pos + length code ≤ len)
    × (length code ≤ 10)
    × Short input_line
Fits len (bare pos input_line) = Short input_line

-- One line, printed and loaded.
abbrev Loads : Mem → ℕ → Row → Type 0
Loads m cnt x =
    (text : List ℕ) × (print_row x ≡ some text)
    × (load_line m cnt text ≡ loaded (store_row m x) (cnt + bytes_of x))
    × OneLine (line_len - 1) text

-- The file with the lines, printed one after the other.
abbrev pub print_rows : List Row → Option (List ℕ)
print_rows [] = some []
print_rows (x ∷ xs) = elim (print_row x) [
  | none ↦ none
  | some text ↦ elim (print_rows xs) [ none ↦ none | some texts ↦ some (text ++ texts) ]
]

-- The code of the lines, stored one after the other.
abbrev pub store_rows : Mem → List Row → Mem
store_rows m [] = m
store_rows m (x ∷ xs) = store_rows (store_row m x) xs

-- ===== src/Y86/Assembler.antt =====
-- yas.c: the symbol table, and the operands of an instruction, which are written into its bytes. Tokens
-- come from the lexer; `fail` is a flag, and its message is left out.
pub mod Operands
use csapp_3e_study.Base.{
  ℕ, zero, suc, ◌+◌, ◌-◌, ◌*◌, ◌/◌, ◌%◌, ◌^◌, Bool, true, false, List, [], ◌∷◌, ◌++◌, Option, none,
  some, ltb, leb, ◌==◌, if◌then◌else◌, length, get_or, set, bit_or,
}
use csapp_3e_study.Base.Texts.{same_text}
use csapp_3e_study.Base.Words.{word_mod, sub64}
use csapp_3e_study.Y86.Memory.{reg_none}
use csapp_3e_study.Y86.Names.{find_register}

-- `token_rec`, with the field that its type uses.
pub data Token : Type 0 where
  ident reg instruction : List ℕ → Token
  num punct : ℕ → Token
  err : Token

-- The tokens behind the last are `TOK_ERR`.
abbrev pub token_at : List Token → ℕ → Token
token_at tokens tpos = get_or tokens tpos err

-- `STAB`
abbrev pub stab : ℕ
stab = 1000

-- A name and its position, as the pattern of an `int`.
abbrev pub SymbolTable : Type 0
SymbolTable = List (List ℕ × ℕ)

-- `add_symbol`: `none` where it writes behind the table.
unfoldable pub add_symbol : SymbolTable → List ℕ → ℕ → Option SymbolTable
add_symbol table name p = if ltb (length table) stab then some (table ++ (name, p) ∷ []) else none

-- `find_symbol`: `none` where it fails and returns -1.
unfoldable pub find_symbol : SymbolTable → List ℕ → Option ℕ
unfolding same_text
find_symbol [] name = none
find_symbol ((n, p) ∷ table) name =
    let rest = find_symbol table name in if same_text name n then some p else rest

-- An `int` as a word.
abbrev pub widen : ℕ → ℕ
widen p = if leb (2 ^ 31) p then word_mod - 2 ^ 32 + p else p

-- `code`, `tpos`, and whether `fail` was called.
pub record Encoding : Type 0 where
  pub code : List ℕ
  pub tpos : ℕ
  pub failed : Bool

abbrev pub fail : Encoding → Encoding
fail l = record l { failed = true }

-- The value of a symbol, or -1.
abbrev pub symbol_value : SymbolTable → Encoding → List ℕ → ℕ × Encoding
symbol_value table l name = elim (find_symbol table name) [
  | none ↦ (word_mod - 1, fail l)
  | some p ↦ (widen p, l)
]

-- `get_reg`
unfoldable pub get_reg : List Token → Encoding → ℕ → Bool → Encoding
get_reg tokens l codepos hi = elim (token_at tokens l.tpos) [
  | reg sval ↦
      let rval = find_register sval in
      let c = get_or l.code codepos 0 in
      let c' = if hi then bit_or (c % 16) (rval * 16) % 256 else bit_or rval (c / 16 * 16) % 256 in
      record l { code = set l.code codepos c'; tpos = l.tpos + 1 }
  | _ ↦ fail l
]

-- The loop that writes a number: `n` bytes are left, and `i` is the counter.
unfoldable pub num_loop : List ℕ → ℕ → ℕ → ℕ → ℕ → List ℕ
num_loop code codepos zero i val = code
num_loop code codepos (suc n) i val =
    num_loop (set code (codepos + i) (val / 2 ^ (8 * i) % 256)) codepos n (i + 1) val

-- The end of `get_num`.
abbrev pub put_num : ℕ → ℕ → ℕ → ℕ × Encoding → Encoding
put_num codepos bytes offset (val, l) = record l {
  code = num_loop l.code codepos bytes 0 (sub64 val offset);
  tpos = l.tpos + 1;
}

-- `get_num`
unfoldable pub get_num : List Token → SymbolTable → Encoding → ℕ → ℕ → ℕ → Encoding
unfolding num_loop
get_num tokens table l codepos bytes offset = elim (token_at tokens l.tpos) [
  | num ival ↦ put_num codepos bytes offset (ival, l)
  | ident sval ↦ put_num codepos bytes offset (symbol_value table l sval)
  | _ ↦ fail l
]

-- `get_mem`: the displacement, if there is one.
abbrev pub displacement : List Token → SymbolTable → Encoding → ℕ × Encoding
displacement tokens table l = elim (token_at tokens l.tpos) [
  | num ival ↦ (ival, record l { tpos = l.tpos + 1 })
  | ident sval ↦
      let (val, l') = symbol_value table l sval in (val, record l' { tpos = l'.tpos + 1 })
  | _ ↦ (0, l)
]

-- The end of `get_mem`.
abbrev pub put_mem : ℕ → ℕ → ℕ → Encoding → Encoding
put_mem codepos val rval l =
    let c = bit_or (rval % 16) (get_or l.code codepos 0 / 16 * 16) % 256 in
    record l { code = num_loop (set l.code codepos c) (codepos + 1) 8 0 val }

-- The register in parentheses, from behind the opening one.
abbrev pub base_register : List Token → ℕ → ℕ → Encoding → Encoding
base_register tokens codepos val l = elim (token_at tokens l.tpos) [
  | reg sval ↦ elim (token_at tokens (l.tpos + 1)) [
    | punct cval ↦
        if cval == 41
        then put_mem codepos val (find_register sval) (record l { tpos = l.tpos + 2 })
        else fail (record l { tpos = l.tpos + 2 })
    | _ ↦ fail (record l { tpos = l.tpos + 1 })
  ]
  | _ ↦ fail l
]

unfoldable pub get_mem : List Token → SymbolTable → Encoding → ℕ → Encoding
unfolding num_loop
get_mem tokens table l codepos =
    let (val, l1) = displacement tokens table l in
    elim (token_at tokens l1.tpos) [
      | punct cval ↦
          if cval == 40
          then base_register tokens codepos val (record l1 { tpos = l1.tpos + 1 })
          else put_mem codepos val reg_none l1
      | _ ↦ put_mem codepos val reg_none l1
    ]

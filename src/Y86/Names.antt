-- ===== src/Y86/Names.antt =====
-- isa.c: the tables of registers, instructions, operations and conditions, and the look-up by name and
-- by code. Names are their bytes.
pub mod Registers
pub mod Instructions
use csapp_3e_study.Base.{
  ℕ, zero, suc, ◌+◌, ◌*◌, ◌%◌, Bool, true, false, List, [], ◌∷◌, Option, none, some, ltb, ◌==◌,
  if◌then◌else◌, get_or, take,
}
use csapp_3e_study.Base.Texts.{codes, same_text}
use csapp_3e_study.Y86.Memory.{reg_none}

-- `REG_ERR`
abbrev pub reg_err : ℕ
reg_err = 16

abbrev pub reg_table : List (List ℕ × ℕ)
reg_table =
    (codes "%rax", 0)
    ∷ (codes "%rcx", 1)
    ∷ (codes "%rdx", 2)
    ∷ (codes "%rbx", 3)
    ∷ (codes "%rsp", 4)
    ∷ (codes "%rbp", 5)
    ∷ (codes "%rsi", 6)
    ∷ (codes "%rdi", 7)
    ∷ (codes "%r8", 8)
    ∷ (codes "%r9", 9)
    ∷ (codes "%r10", 10)
    ∷ (codes "%r11", 11)
    ∷ (codes "%r12", 12)
    ∷ (codes "%r13", 13)
    ∷ (codes "%r14", 14)
    ∷ (codes "----", 15)
    ∷ (codes "----", 16)
    ∷ []

-- The loop of `find_register` over the entries that are left.
unfoldable pub first_id : List ℕ → List (List ℕ × ℕ) → ℕ
unfolding same_text
first_id name [] = reg_err
first_id name ((n, id) ∷ table) =
    let rest = first_id name table in if same_text name n then id else rest

unfoldable pub find_register : List ℕ → ℕ
unfolding first_id
find_register name = first_id name (take reg_none reg_table)

unfoldable pub reg_name : ℕ → List ℕ
reg_name id =
    if ltb id reg_none
    then (get_or reg_table id ([], 0)).0
    else (get_or reg_table reg_none ([], 0)).0

-- `arg_t`
pub data Arg : Type 0 where
  r_arg m_arg i_arg no_arg : Arg

-- `instr_t`
pub record Instr : Type 0 where
  pub name : List ℕ
  pub code : ℕ
  pub bytes : ℕ
  pub arg1 : Arg
  pub arg1pos : ℕ
  pub arg1hi : ℕ
  pub arg2 : Arg
  pub arg2pos : ℕ
  pub arg2hi : ℕ

-- `HPACK`
abbrev pub hpack : ℕ → ℕ → ℕ
hpack hi lo = hi % 16 * 16 + lo % 16

abbrev pub instr : List ℕ → ℕ → ℕ → Arg → ℕ → ℕ → Arg → ℕ → ℕ → Instr
instr name code bytes arg1 arg1pos arg1hi arg2 arg2pos arg2hi = record {
  name = name;
  code = code;
  bytes = bytes;
  arg1 = arg1;
  arg1pos = arg1pos;
  arg1hi = arg1hi;
  arg2 = arg2;
  arg2pos = arg2pos;
  arg2hi = arg2hi;
}

-- `instruction_set`, less the entry that ends it.
abbrev pub instruction_set : List Instr
instruction_set =
    instr (codes "nop") (hpack 1 0) 1 no_arg 0 0 no_arg 0 0
    ∷ instr (codes "halt") (hpack 0 0) 1 no_arg 0 0 no_arg 0 0
    ∷ instr (codes "rrmovq") (hpack 2 0) 2 r_arg 1 1 r_arg 1 0
    ∷ instr (codes "cmovle") (hpack 2 1) 2 r_arg 1 1 r_arg 1 0
    ∷ instr (codes "cmovl") (hpack 2 2) 2 r_arg 1 1 r_arg 1 0
    ∷ instr (codes "cmove") (hpack 2 3) 2 r_arg 1 1 r_arg 1 0
    ∷ instr (codes "cmovne") (hpack 2 4) 2 r_arg 1 1 r_arg 1 0
    ∷ instr (codes "cmovge") (hpack 2 5) 2 r_arg 1 1 r_arg 1 0
    ∷ instr (codes "cmovg") (hpack 2 6) 2 r_arg 1 1 r_arg 1 0
    ∷ instr (codes "irmovq") (hpack 3 0) 10 i_arg 2 8 r_arg 1 0
    ∷ instr (codes "rmmovq") (hpack 4 0) 10 r_arg 1 1 m_arg 1 0
    ∷ instr (codes "mrmovq") (hpack 5 0) 10 m_arg 1 0 r_arg 1 1
    ∷ instr (codes "addq") (hpack 6 0) 2 r_arg 1 1 r_arg 1 0
    ∷ instr (codes "subq") (hpack 6 1) 2 r_arg 1 1 r_arg 1 0
    ∷ instr (codes "andq") (hpack 6 2) 2 r_arg 1 1 r_arg 1 0
    ∷ instr (codes "xorq") (hpack 6 3) 2 r_arg 1 1 r_arg 1 0
    ∷ instr (codes "jmp") (hpack 7 0) 9 i_arg 1 8 no_arg 0 0
    ∷ instr (codes "jle") (hpack 7 1) 9 i_arg 1 8 no_arg 0 0
    ∷ instr (codes "jl") (hpack 7 2) 9 i_arg 1 8 no_arg 0 0
    ∷ instr (codes "je") (hpack 7 3) 9 i_arg 1 8 no_arg 0 0
    ∷ instr (codes "jne") (hpack 7 4) 9 i_arg 1 8 no_arg 0 0
    ∷ instr (codes "jge") (hpack 7 5) 9 i_arg 1 8 no_arg 0 0
    ∷ instr (codes "jg") (hpack 7 6) 9 i_arg 1 8 no_arg 0 0
    ∷ instr (codes "call") (hpack 8 0) 9 i_arg 1 8 no_arg 0 0
    ∷ instr (codes "ret") (hpack 9 0) 1 no_arg 0 0 no_arg 0 0
    ∷ instr (codes "pushq") (hpack 10 0) 2 r_arg 1 1 no_arg 0 0
    ∷ instr (codes "popq") (hpack 11 0) 2 r_arg 1 1 no_arg 0 0
    ∷ instr (codes "iaddq") (hpack 12 0) 10 i_arg 2 8 r_arg 1 0
    ∷ instr (codes "pop2") (hpack 13 0) 0 no_arg 0 0 no_arg 0 0
    ∷ instr (codes ".byte") 0 1 i_arg 0 1 no_arg 0 0
    ∷ instr (codes ".word") 0 2 i_arg 0 2 no_arg 0 0
    ∷ instr (codes ".long") 0 4 i_arg 0 4 no_arg 0 0
    ∷ instr (codes ".quad") 0 8 i_arg 0 8 no_arg 0 0
    ∷ []

-- The loop of `find_instr` over the entries that are left.
unfoldable pub first_named : List ℕ → List Instr → Option Instr
unfolding same_text
first_named name [] = none
first_named name (i ∷ more) =
    let rest = first_named name more in if same_text i.name name then some i else rest

unfoldable pub find_instr : List ℕ → Option Instr
unfolding first_named
find_instr name = first_named name instruction_set

-- The loop of `iname`.
unfoldable pub first_coded : ℕ → List Instr → List ℕ
first_coded code [] = codes "<bad>"
first_coded code (i ∷ more) =
    let rest = first_coded code more in if code == i.code then i.name else rest

unfoldable pub iname : ℕ → List ℕ
unfolding first_coded
iname code = first_coded code instruction_set

-- `bad_instr`
abbrev pub bad_instr : Instr
bad_instr = instr (codes "XXX") 0 0 no_arg 0 0 no_arg 0 0

abbrev pub cc_names : List (List ℕ)
cc_names =
    codes "Z=0 S=0 O=0"
    ∷ codes "Z=0 S=0 O=1"
    ∷ codes "Z=0 S=1 O=0"
    ∷ codes "Z=0 S=1 O=1"
    ∷ codes "Z=1 S=0 O=0"
    ∷ codes "Z=1 S=0 O=1"
    ∷ codes "Z=1 S=1 O=0"
    ∷ codes "Z=1 S=1 O=1"
    ∷ []

unfoldable pub cc_name : ℕ → List ℕ
cc_name c = if ltb 7 c then codes "???????????" else get_or cc_names c []

abbrev pub stat_names : List (List ℕ)
stat_names = codes "BUB" ∷ codes "AOK" ∷ codes "HLT" ∷ codes "ADR" ∷ codes "INS" ∷ codes "PIP" ∷ []

unfoldable pub stat_name : ℕ → List ℕ
stat_name e = if ltb 5 e then codes "Invalid Status" else get_or stat_names e []

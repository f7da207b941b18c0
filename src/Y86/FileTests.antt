-- ===== src/Y86/FileTests.antt =====
-- Object files, names and differences on small cases, and their theorems at concrete values.
use csapp_3e_study.Base.{
  ◌^◌, inr, ℕ, ◌%◌, ◌≡◌, ◌↔◌, refl, arith, true, false, List, [], ◌∷◌, some, replicate,
}
use csapp_3e_study.Base.Texts.{codes, same_text}
use csapp_3e_study.Y86.Memory.{Mem, init_mem}
use csapp_3e_study.Y86.Memory.Bounds.{IsMem}
use csapp_3e_study.Y86.ObjectFile.{
  fault, hex2dig, skip_spaces, hex_prefix, address_from, load_codes, load_at, load_line, load_from,
  load_mem,
}
use csapp_3e_study.Y86.ObjectFile.Loading.{Row, coded, bare}
use csapp_3e_study.Y86.ObjectFile.Safety.{Sound, LowAddress, load_mem-Sound}
use csapp_3e_study.Y86.Machine.{State, new_state}
use csapp_3e_study.Y86.Differences.{diff_state}
use csapp_3e_study.Y86.Differences.States.{SameWords, diff_state_iff}
use csapp_3e_study.Y86.Memory.Bytes.{from_bytes}
use csapp_3e_study.Y86.Assembler.{Token, reg, num, punct, token_at, Encoding, get_num}
use csapp_3e_study.Y86.Assembler.Operands.{Encoded, get_num_lem}
use csapp_3e_study.Y86.Copying.{copy_loop, ncopy}
use csapp_3e_study.Y86.Copying.Arrays.{positives, Copied, ncopy_lem}
use csapp_3e_study.Y86.Names.{reg_name, find_instr, first_named, Arg, instr, r_arg, hpack}
use csapp_3e_study.Y86.Names.Instructions.{Encodes, find_instr-Encodes}

-- A memory of one block.
abbrev one_block : Mem
one_block = record { len = 32; contents = replicate 32 0 }

one_block-IsMem : IsMem one_block
one_block-IsMem = record { sized = refl; small = omega arith }

-- `halt` and `pushq %rax` with a comment between.
abbrev rows : List Row
rows =
    coded 0 (0 ∷ []) (codes "halt")
    ∷ bare 1 (codes "# push")
    ∷ coded 16 (160 ∷ 15 ∷ []) (codes "pushq %rax")
    ∷ []

abbrev line_read : List ℕ
line_read = codes "0x010: 30f4 | irmovq"

address_low : LowAddress line_read
unfolding hex2dig skip_spaces hex_prefix address_from
address_low = omega arith

load_mem-Sound_example : Sound 32 0 (load_mem one_block (line_read ∷ []))
load_mem-Sound_example = load_mem-Sound one_block (line_read ∷ []) one_block-IsMem (address_low, tt)

-- A negative address passes the test of `load_mem`, and the byte is stored outside the array.
negative_address : load_mem one_block (codes "0xffffffffffffffff: 00" ∷ []) ≡ fault
unfolding hex2dig skip_spaces hex_prefix address_from load_codes load_at load_line load_from
    load_mem
negative_address = refl

-- A machine with one block of memory.
abbrev machine : State
machine = new_state 32

abbrev moved : State
moved = record machine { pc = 8 }

diff_state_iff_example : (diff_state true machine moved ≡ false) ↔ (
    (machine.pc ≡ 8)
    × (machine.cc ≡ machine.cc)
    × SameWords machine.r machine.r
    × SameWords machine.m machine.m)
diff_state_iff_example = diff_state_iff true machine moved

whole_blocks : machine.m.len % 32 ≡ 0
unfolding new_state init_mem
whole_blocks = refl

popq_found :
    find_instr (codes "popq") ≡ some (instr (codes "popq") (hpack 11 0) 2 r_arg 1 1 Arg.no_arg 0 0)
unfolding find_instr first_named same_text
popq_found = refl

find_instr-Encodes_example :
    (codes "popq" ≡ codes "popq")
    × Encodes (instr (codes "popq") (hpack 11 0) 2 r_arg 1 1 Arg.no_arg 0 0)
find_instr-Encodes_example = find_instr-Encodes (codes "popq") _ popq_found

-- Three words, copied behind.
abbrev words : List ℕ
words = 5 ∷ 2 ^ 63 ∷ 7 ∷ 0 ∷ 0 ∷ 0 ∷ []

ncopy_lem_example :
    (mem' : List ℕ) × (ncopy words 0 3 3 ≡ some (mem', positives words 0 3))
    × Copied words 0 3 3 mem'
ncopy_lem_example =
    ncopy_lem words 0 3 3 (omega arith) (omega arith) (omega arith) (inr (omega arith))

words_copied : ncopy words 0 3 3 ≡ some (5 ∷ 2 ^ 63 ∷ 7 ∷ 5 ∷ 2 ^ 63 ∷ 7 ∷ [], 2)
unfolding ncopy copy_loop
words_copied = refl

-- The operands of `irmovq $300, %rsp`, before they are written.
abbrev operands : List Token
operands = num 300 ∷ punct 44 ∷ reg (codes "%rsp") ∷ []

abbrev irmovq_line : ℕ → Encoding
irmovq_line tpos = record { code = 48 ∷ 255 ∷ replicate 8 0; tpos = tpos; failed = false }

get_num_lem_example :
    (from_bytes (get_num operands [] (irmovq_line 0) 2 8 0).code 2 8 ≡ 300)
    × Encoded (irmovq_line 0) 2 8 (get_num operands [] (irmovq_line 0) 2 8 0)
get_num_lem_example = get_num_lem operands [] (irmovq_line 0) 2 300 refl (omega arith) (omega arith)

stack_pointer : token_at operands 2 ≡ reg (reg_name 4)
unfolding reg_name
stack_pointer = refl

-- ===== src/Y86/Machine.antt =====
-- isa.c, "Implementation of ISA model" (isa.h): the state, the statuses and the instruction types.
pub mod Fetch
pub mod Execute
pub mod Run
pub mod Invariant
pub mod Safety
pub mod Faults
pub mod Stack
pub mod Programs
use csapp_3e_study.Base.{ℕ, zero, suc, Bool, true, false, ltb}
use csapp_3e_study.Y86.Memory.{Mem, init_mem, init_reg, reg_none}
use csapp_3e_study.Y86.Alu.{default_cc}

-- `state_rec`
pub record State : Type 0 where
  pub pc : ℕ
  pub r : Mem
  pub m : Mem
  pub cc : ℕ

-- `stat_t`
pub data Stat : Type 0 where
  bub aok hlt adr ins pip : Stat

-- What `step_state` ends in: a status and the state it leaves, or an access outside an array.
pub data Outcome : Type 0 where
  done : Stat → State → Outcome
  crash : Outcome

-- `itype_t`; `unknown` stands for the codes above I_POP2.
pub data Itype : Type 0 where
  halt nop rrmovq irmovq rmmovq mrmovq alu jmp call ret pushq popq iaddq pop2 unknown : Itype

unfoldable pub itype_of : ℕ → Itype
itype_of zero = halt
itype_of (suc zero) = nop
itype_of (suc (suc zero)) = rrmovq
itype_of (suc (suc (suc zero))) = irmovq
itype_of (suc (suc (suc (suc zero)))) = rmmovq
itype_of (suc (suc (suc (suc (suc zero))))) = mrmovq
itype_of (suc (suc (suc (suc (suc (suc zero)))))) = alu
itype_of (suc (suc (suc (suc (suc (suc (suc zero))))))) = jmp
itype_of (suc (suc (suc (suc (suc (suc (suc (suc zero)))))))) = call
itype_of (suc (suc (suc (suc (suc (suc (suc (suc (suc zero))))))))) = ret
itype_of (suc (suc (suc (suc (suc (suc (suc (suc (suc (suc zero)))))))))) = pushq
itype_of (suc (suc (suc (suc (suc (suc (suc (suc (suc (suc (suc zero))))))))))) = popq
itype_of (suc (suc (suc (suc (suc (suc (suc (suc (suc (suc (suc (suc zero)))))))))))) = iaddq
itype_of (suc (suc (suc (suc (suc (suc (suc (suc (suc (suc (suc (suc (suc zero))))))))))))) = pop2
itype_of _ = unknown

-- The local variables of `step_state` once an instruction is read.
pub record Insn : Type 0 where
  pub hi0 : Itype
  pub lo0 : ℕ
  pub ok1 : Bool
  pub hi1 : ℕ
  pub lo1 : ℕ
  pub okc : Bool
  pub cval : ℕ
  pub ftpc : ℕ

-- `need_regids`
unfoldable pub need_regids : Itype → Bool
need_regids rrmovq = true
need_regids alu = true
need_regids pushq = true
need_regids popq = true
need_regids irmovq = true
need_regids rmmovq = true
need_regids mrmovq = true
need_regids iaddq = true
need_regids _ = false

-- `need_imm`
unfoldable pub need_imm : Itype → Bool
need_imm irmovq = true
need_imm rmmovq = true
need_imm mrmovq = true
need_imm jmp = true
need_imm call = true
need_imm iaddq = true
need_imm _ = false

-- `reg_valid`: the ids below REG_NONE stand at their own place in `reg_table`.
abbrev pub reg_valid : ℕ → Bool
reg_valid id = ltb id reg_none

unfoldable pub new_state : ℕ → State
new_state memlen = record { pc = 0; r = init_reg; m = init_mem memlen; cc = default_cc }

-- ===== src/Y86/Seq/Control.antt =====
-- The signals of seq-std.hcl and seq-full.hcl, which adds `iaddq`. A signal none of whose cases
-- holds is 0.
use csapp_3e_study.Base.{ℕ, ◌-◌, Bool, true, false, ◌||◌, not, if◌then◌else◌}
use csapp_3e_study.Base.Words.{word_mod}
use csapp_3e_study.Y86.Memory.{reg_none, reg_rsp}
use csapp_3e_study.Y86.Alu.{Alu, alu_of}
use csapp_3e_study.Y86.Machine.{Stat, aok, hlt, adr, ins}
use csapp_3e_study.Y86.Machine.{
  Itype, halt, nop, rrmovq, irmovq, rmmovq, mrmovq, alu, jmp, call, ret,
}
use csapp_3e_study.Y86.Machine.{pushq, popq, iaddq, pop2, unknown}
use csapp_3e_study.Y86.Seq.{Version, is_full}

abbrev pub gen_icode : Bool → Itype → Itype
gen_icode imem_error imem_icode = if imem_error then nop else imem_icode

abbrev pub gen_ifun : Bool → ℕ → ℕ
gen_ifun imem_error imem_ifun = if imem_error then 0 else imem_ifun

abbrev pub gen_instr_valid : Version → Itype → Bool
gen_instr_valid v iaddq = is_full v
gen_instr_valid v pop2 = false
gen_instr_valid v unknown = false
gen_instr_valid v _ = true

abbrev pub gen_need_regids : Version → Itype → Bool
gen_need_regids v rrmovq = true
gen_need_regids v alu = true
gen_need_regids v iaddq = is_full v
gen_need_regids v pushq = true
gen_need_regids v popq = true
gen_need_regids v irmovq = true
gen_need_regids v rmmovq = true
gen_need_regids v mrmovq = true
gen_need_regids v _ = false

abbrev pub gen_need_valc : Version → Itype → Bool
gen_need_valc v irmovq = true
gen_need_valc v rmmovq = true
gen_need_valc v mrmovq = true
gen_need_valc v iaddq = is_full v
gen_need_valc v jmp = true
gen_need_valc v call = true
gen_need_valc v _ = false

abbrev pub gen_src_a : Itype → ℕ → ℕ
gen_src_a rrmovq ra = ra
gen_src_a rmmovq ra = ra
gen_src_a alu ra = ra
gen_src_a pushq ra = ra
gen_src_a popq ra = reg_rsp
gen_src_a ret ra = reg_rsp
gen_src_a _ ra = reg_none

abbrev pub gen_src_b : Version → Itype → ℕ → ℕ
gen_src_b v alu rb = rb
gen_src_b v iaddq rb = if is_full v then rb else reg_none
gen_src_b v rmmovq rb = rb
gen_src_b v mrmovq rb = rb
gen_src_b v pushq rb = reg_rsp
gen_src_b v popq rb = reg_rsp
gen_src_b v call rb = reg_rsp
gen_src_b v ret rb = reg_rsp
gen_src_b v _ rb = reg_none

abbrev pub gen_dst_e : Version → Itype → Bool → ℕ → ℕ
gen_dst_e v rrmovq cnd rb = if cnd then rb else reg_none
gen_dst_e v irmovq cnd rb = rb
gen_dst_e v alu cnd rb = rb
gen_dst_e v iaddq cnd rb = if is_full v then rb else reg_none
gen_dst_e v pushq cnd rb = reg_rsp
gen_dst_e v popq cnd rb = reg_rsp
gen_dst_e v call cnd rb = reg_rsp
gen_dst_e v ret cnd rb = reg_rsp
gen_dst_e v _ cnd rb = reg_none

abbrev pub gen_dst_m : Itype → ℕ → ℕ
gen_dst_m mrmovq ra = ra
gen_dst_m popq ra = ra
gen_dst_m _ ra = reg_none

-- -8 is its 64-bit pattern.
abbrev pub gen_alu_a : Version → Itype → ℕ → ℕ → ℕ
gen_alu_a v rrmovq vala valc = vala
gen_alu_a v alu vala valc = vala
gen_alu_a v irmovq vala valc = valc
gen_alu_a v rmmovq vala valc = valc
gen_alu_a v mrmovq vala valc = valc
gen_alu_a v iaddq vala valc = if is_full v then valc else 0
gen_alu_a v call vala valc = word_mod - 8
gen_alu_a v pushq vala valc = word_mod - 8
gen_alu_a v ret vala valc = 8
gen_alu_a v popq vala valc = 8
gen_alu_a v _ vala valc = 0

abbrev pub gen_alu_b : Version → Itype → ℕ → ℕ
gen_alu_b v rmmovq valb = valb
gen_alu_b v mrmovq valb = valb
gen_alu_b v alu valb = valb
gen_alu_b v iaddq valb = if is_full v then valb else 0
gen_alu_b v call valb = valb
gen_alu_b v pushq valb = valb
gen_alu_b v ret valb = valb
gen_alu_b v popq valb = valb
gen_alu_b v _ valb = 0

abbrev pub gen_alufun : Itype → ℕ → Alu
gen_alufun alu ifun = alu_of ifun
gen_alufun _ ifun = Alu.add

abbrev pub gen_set_cc : Version → Itype → Bool
gen_set_cc v alu = true
gen_set_cc v iaddq = is_full v
gen_set_cc v _ = false

abbrev pub gen_mem_read : Itype → Bool
gen_mem_read mrmovq = true
gen_mem_read popq = true
gen_mem_read ret = true
gen_mem_read _ = false

abbrev pub gen_mem_write : Itype → Bool
gen_mem_write rmmovq = true
gen_mem_write pushq = true
gen_mem_write call = true
gen_mem_write _ = false

abbrev pub gen_mem_addr : Itype → ℕ → ℕ → ℕ
gen_mem_addr rmmovq vale vala = vale
gen_mem_addr pushq vale vala = vale
gen_mem_addr call vale vala = vale
gen_mem_addr mrmovq vale vala = vale
gen_mem_addr popq vale vala = vala
gen_mem_addr ret vale vala = vala
gen_mem_addr _ vale vala = 0

abbrev pub gen_mem_data : Itype → ℕ → ℕ → ℕ
gen_mem_data rmmovq vala valp = vala
gen_mem_data pushq vala valp = vala
gen_mem_data call vala valp = valp
gen_mem_data _ vala valp = 0

abbrev is_halt : Itype → Bool
is_halt halt = true
is_halt _ = false

abbrev pub gen_stat : Bool → Bool → Bool → Itype → Stat
gen_stat imem_error dmem_error instr_valid icode =
    if imem_error || dmem_error
    then adr
    else if not instr_valid
    then ins
    else if is_halt icode
    then hlt
    else aok

abbrev pub gen_new_pc : Itype → Bool → ℕ → ℕ → ℕ → ℕ
gen_new_pc call cnd valc valm valp = valc
gen_new_pc jmp cnd valc valm valp = if cnd then valc else valp
gen_new_pc ret cnd valc valm valp = valm
gen_new_pc _ cnd valc valm valp = valp

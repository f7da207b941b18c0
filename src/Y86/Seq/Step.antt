-- ===== src/Y86/Seq/Step.antt =====
-- ssim.c: `update_state`, `sim_step` and `sim_run`.
use csapp_3e_study.Base.{
  ℕ, zero, suc, ◌+◌, Bool, true, false, Option, some, none, ◌==◌, if◌then◌else◌,
}
use csapp_3e_study.Base.Words.{add64}
use csapp_3e_study.Y86.Memory.{
  Mem, found, refused, fault, get_byte_val, get_word_val, set_word_val, get_reg_val, set_reg_val,
  reg_none,
}
use csapp_3e_study.Y86.Alu.{compute_alu, compute_cc, cond_of, cond_holds}
use csapp_3e_study.Y86.Machine.{Stat, aok, Itype, itype_of}
use csapp_3e_study.Y86.Machine.Fetch.{hi4, lo4}
use csapp_3e_study.Y86.Seq.{Version, Sim}
use csapp_3e_study.Y86.Seq.Control.{
  gen_icode, gen_ifun, gen_instr_valid, gen_need_regids, gen_need_valc, gen_src_a, gen_src_b,
  gen_dst_e, gen_dst_m, gen_alu_a, gen_alu_b, gen_alufun, gen_set_cc, gen_mem_read, gen_mem_write,
  gen_mem_addr, gen_mem_data, gen_stat, gen_new_pc,
}

-- `none` is an access outside the array of the memory, here and below.
unfoldable pub read_port : Mem → ℕ → ℕ
read_port reg src = if src == reg_none then 0 else get_reg_val reg src

unfoldable pub write_port : Mem → ℕ → ℕ → Mem
write_port reg dst val = if dst == reg_none then reg else set_reg_val reg dst val

-- The pending write to the memory; what `set_word_val` returns is not looked at.
unfoldable pub write_back : Bool → Mem → ℕ → ℕ → Option Mem
write_back false mem addr val = some mem
write_back true mem addr val = elim (set_word_val mem addr val) [
  | found m ↦ some m
  | refused ↦ some mem
  | fault ↦ none
]

unfoldable pub update_state : Sim → Option Sim
update_state x = elim (write_back x.mem_write x.mem x.mem_addr x.mem_data) [
  | some m ↦ some (record x {
    mem = m;
    reg = write_port (write_port x.reg x.dest_e x.vale) x.dest_m x.valm;
    cc = x.cc_in;
    pc = x.pc_in;
  })
  | none ↦ none
]

-- What the fetch stage leaves in the variables of the simulator.
pub record Fetched : Type 0 where
  pub imem_error : Bool
  pub icode : Itype
  pub ifun : ℕ
  pub ra : ℕ
  pub rb : ℕ
  pub valc : ℕ
  pub valp : ℕ

pub record Ids : Type 0 where
  pub ra : ℕ
  pub rb : ℕ
  pub valp : ℕ

pub record Constant : Type 0 where
  pub valc : ℕ
  pub valp : ℕ

-- The status that a refused read sets here is overwritten by `gen_stat` before it is read.
unfoldable pub read_ids : Version → Mem → Itype → ℕ → Option Ids
read_ids v mem icode valp =
    if gen_need_regids v icode
    then elim (get_byte_val mem valp) [
      | found regids ↦ some (record { ra = hi4 regids; rb = lo4 regids; valp = add64 valp 1 })
      | refused ↦ some (record { ra = reg_none; rb = reg_none; valp = add64 valp 1 })
      | fault ↦ none
    ]
    else some (record { ra = reg_none; rb = reg_none; valp = valp })

unfoldable pub read_constant : Version → Mem → Itype → ℕ → Option Constant
read_constant v mem icode valp =
    if gen_need_valc v icode
    then elim (get_word_val mem valp) [
      | found valc ↦ some (record { valc = valc; valp = add64 valp 8 })
      | refused ↦ some (record { valc = 0; valp = add64 valp 8 })
      | fault ↦ none
    ]
    else some (record { valc = 0; valp = valp })

-- The rest of the fetch, once the first byte is read, or cannot be.
unfoldable pub fetch_rest : Version → Mem → ℕ → Bool → Itype → ℕ → Option Fetched
fetch_rest v mem pc imem_error icode ifun = elim (read_ids v mem icode (add64 pc 1)) [
  | some a ↦ elim (read_constant v mem icode a.valp) [
    | some c ↦ some (record {
      imem_error = imem_error;
      icode = icode;
      ifun = ifun;
      ra = a.ra;
      rb = a.rb;
      valc = c.valc;
      valp = c.valp;
    })
    | none ↦ none
  ]
  | none ↦ none
]

-- `instr` starts as a `nop`, 0x10.
unfoldable pub fetch_stage : Version → Mem → ℕ → Option Fetched
fetch_stage v mem pc = elim (get_byte_val mem pc) [
  | found instr ↦
      fetch_rest v mem pc false (gen_icode false (itype_of (hi4 instr)))
        (gen_ifun false (lo4 instr))
  | refused ↦ fetch_rest v mem pc true (gen_icode true (itype_of (hi4 16))) (gen_ifun true (lo4 16))
  | fault ↦ none
]

-- `valm` and `dmem_error` after the read of the memory stage. A refused read leaves `valm`.
abbrev pub read_data : Bool → Mem → ℕ → ℕ → Option (ℕ × Bool)
read_data false mem addr valm = some (0, false)
read_data true mem addr valm = elim (get_word_val mem addr) [
  | found val ↦ some (val, false)
  | refused ↦ some (valm, true)
  | fault ↦ none
]

-- `dmem_error` after the test read that stands before a write.
abbrev pub test_read : Bool → Bool → Mem → ℕ → Option Bool
test_read false dmem_error mem addr = some dmem_error
test_read true true mem addr = some true
test_read true false mem addr = elim (get_word_val mem addr) [
  | found junk ↦ some false
  | refused ↦ some true
  | fault ↦ none
]

-- The stages after the fetch, for the code `icode`.
unfoldable pub later_stages : Version → Itype → Fetched → Sim → Option (Stat × Sim)
later_stages v icode f x =
    let vala = read_port x.reg (gen_src_a icode f.ra) in
    let valb = read_port x.reg (gen_src_b v icode f.rb) in
    let cond = cond_holds x.cc (cond_of f.ifun) in
    let alu_a = gen_alu_a v icode vala f.valc in
    let alu_b = gen_alu_b v icode valb in
    let alufun = gen_alufun icode f.ifun in
    let vale = compute_alu alufun alu_a alu_b in
    let mem_addr = gen_mem_addr icode vale vala in
    elim (read_data (gen_mem_read icode) x.mem mem_addr x.valm) [
      | some (valm, err) ↦ elim (test_read (gen_mem_write icode) err x.mem mem_addr) [
        | some dmem_error ↦ some (
          gen_stat f.imem_error dmem_error (gen_instr_valid v icode) icode,
          record x {
            cc_in = if gen_set_cc v icode then compute_cc alufun alu_a alu_b else x.cc;
            pc_in = gen_new_pc icode cond f.valc valm f.valp;
            dest_e = gen_dst_e v icode cond f.rb;
            dest_m = gen_dst_m icode f.ra;
            vale = vale;
            valm = valm;
            mem_write = gen_mem_write icode;
            mem_addr = mem_addr;
            mem_data = gen_mem_data icode vala f.valp;
          },
        )
        | none ↦ none
      ]
      | none ↦ none
    ]

-- A cycle once the last one is applied.
unfoldable pub cycle : Version → Sim → Option (Stat × Sim)
cycle v y = elim (fetch_stage v y.mem y.pc) [ some f ↦ later_stages v f.icode f y | none ↦ none ]

unfoldable pub sim_step : Version → Sim → Option (Stat × Sim)
sim_step v x = elim (update_state x) [ some y ↦ cycle v y | none ↦ none ]

-- What `sim_run` leaves: `icount`, `run_status` and the simulator.
pub data Ending : Type 0 where
  ended : ℕ → Stat → Sim → Ending
  overrun : Ending

-- The loop's test `run_status != STAT_AOK`, and what it goes on with.
unfoldable pub go_on : (ℕ → Sim → Ending) → ℕ → Option (Stat × Sim) → Ending
go_on rest icount (some (aok, x)) = rest icount x
go_on rest icount (some (e, x)) = ended icount e x
go_on rest icount none = overrun

-- `n` rounds are left of `max_instr`, and `icount` are made.
unfoldable pub sim_run_from : Version → ℕ → ℕ → Sim → Ending
sim_run_from v zero icount x = ended icount aok x
sim_run_from v (suc n) icount x = go_on (sim_run_from v n) (icount + 1) (sim_step v x)

unfoldable pub sim_run : Version → ℕ → Sim → Ending
sim_run v max_instr x = sim_run_from v max_instr 0 x

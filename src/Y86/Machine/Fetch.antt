-- ===== src/Y86/Machine/Fetch.antt =====
-- `step_state` up to its switch: the bytes of the instruction. A register byte or a constant that
-- cannot be read leaves a flag false, which the switch tests.
use csapp_3e_study.Base.{ℕ, ◌+◌, ◌/◌, ◌%◌, Bool, true, false, if◌then◌else◌}
use csapp_3e_study.Y86.Memory.{
  Mem, Access, found, refused, fault, get_byte_val, get_word_val, reg_none,
}
use csapp_3e_study.Y86.Machine.{State, Itype, itype_of, Insn, need_regids, need_imm}

pub record Regids : Type 0 where
  pub ok1 : Bool
  pub hi1 : ℕ
  pub lo1 : ℕ
  pub ftpc : ℕ

pub record Imm : Type 0 where
  pub okc : Bool
  pub cval : ℕ
  pub ftpc : ℕ

-- `HI4` and `LO4`
abbrev pub hi4 : ℕ → ℕ
hi4 byte = byte / 16 % 16

abbrev pub lo4 : ℕ → ℕ
lo4 byte = byte % 16

-- `byte1` keeps its 0 if it cannot be read. `ftpc` is at most ten above an address of the memory,
-- so it does not wrap.
unfoldable pub fetch_regids : Mem → Itype → ℕ → Access Regids
fetch_regids m hi0 ftpc =
    if need_regids hi0
    then elim (get_byte_val m ftpc) [
      | found byte1 ↦
          found (record { ok1 = true; hi1 = hi4 byte1; lo1 = lo4 byte1; ftpc = ftpc + 1 })
      | refused ↦ found (record { ok1 = false; hi1 = hi4 0; lo1 = lo4 0; ftpc = ftpc + 1 })
      | fault ↦ fault
    ]
    else found (record { ok1 = true; hi1 = reg_none; lo1 = reg_none; ftpc = ftpc })

unfoldable pub fetch_imm : Mem → Itype → ℕ → Access Imm
fetch_imm m hi0 ftpc =
    if need_imm hi0
    then elim (get_word_val m ftpc) [
      | found cval ↦ found (record { okc = true; cval = cval; ftpc = ftpc + 8 })
      | refused ↦ found (record { okc = false; cval = 0; ftpc = ftpc + 8 })
      | fault ↦ fault
    ]
    else found (record { okc = true; cval = 0; ftpc = ftpc })

-- `refused` is the return with STAT_ADR.
unfoldable pub fetch : State → Access Insn
fetch s = elim (get_byte_val s.m s.pc) [
  | found byte0 ↦ elim (fetch_regids s.m (itype_of (hi4 byte0)) (s.pc + 1)) [
    | found a ↦ elim (fetch_imm s.m (itype_of (hi4 byte0)) a.ftpc) [
      | found c ↦ found (record {
        hi0 = itype_of (hi4 byte0);
        lo0 = lo4 byte0;
        ok1 = a.ok1;
        hi1 = a.hi1;
        lo1 = a.lo1;
        okc = c.okc;
        cval = c.cval;
        ftpc = c.ftpc;
      })
      | refused ↦ refused
      | fault ↦ fault
    ]
    | refused ↦ refused
    | fault ↦ fault
  ]
  | refused ↦ refused
  | fault ↦ fault
]

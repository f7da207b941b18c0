-- ===== src/Y86/Seq/Agreement.antt =====
-- What it means that a cycle of the simulator does what a step of `step_state` does, and the parts
-- that several instructions share.
use csapp_3e_study.Base.{
  ℕ, ◌<◌, ◌≡◌, refl, ap, ◌∙◌, Bool, true, false, Option, some, none, inl, inr, ◌&&◌,
}
use csapp_3e_study.Base.Words.{word_mod}
use csapp_3e_study.Y86.Memory.{Mem, found, set_word_val, set_reg_val, reg_none}
use csapp_3e_study.Y86.Machine.{State, Stat, aok, adr, Outcome, done, crash, Insn, reg_valid}
use csapp_3e_study.Y86.Machine.{Itype, rrmovq, irmovq, rmmovq, mrmovq}
use csapp_3e_study.Y86.Machine.{pushq, popq, iaddq}
use csapp_3e_study.Y86.Machine.Execute.{store, load}
use csapp_3e_study.Y86.Memory.Bytes.{from_bytes}
use csapp_3e_study.Y86.Memory.Bounds.{IsMem, written, get_word_cases}
use csapp_3e_study.Y86.Seq.{Sim, state_of}
use csapp_3e_study.Y86.Seq.Step.{write_port, update_state, write_back, read_data, test_read}
use csapp_3e_study.Y86.Seq.Ports.{write_port_lem, write_port-none, word_cases}

-- What the program sees of a simulator once the pending writes are made.
abbrev pub Shows : Option Sim → State → Type 0
Shows (some y) s = state_of y ≡ s
Shows none s = ⊥

-- The cycle ends with the status of the step, and after STAT_AOK its pending writes lead to the
-- state of the step; it leaves the array where the step does.
abbrev pub Agrees : Outcome → Option (Stat × Sim) → Type 0
Agrees (done st s) (some (e, x)) = (e ≡ st) × (st ≡ aok → Shows (update_state x) s)
Agrees crash none = Unit
Agrees _ _ = ⊥

-- The registers that the cases of `step_state` test.
abbrev pub operands_valid : Itype → Insn → Bool
operands_valid rrmovq i = reg_valid i.hi1 && reg_valid i.lo1
operands_valid irmovq i = reg_valid i.lo1
operands_valid rmmovq i = reg_valid i.hi1
operands_valid mrmovq i = reg_valid i.hi1
operands_valid pushq i = reg_valid i.hi1
operands_valid popq i = reg_valid i.hi1
operands_valid iaddq i = reg_valid i.lo1
operands_valid _ i = true

pub Agrees-done :
    {o : Outcome} {r : Option (Stat × Sim)} (st : Stat) (s : State) (x : Sim)
    → o ≡ done st s
    → r ≡ some (st, x)
    → (st ≡ aok → Shows (update_state x) s)
    → Agrees o r
Agrees-done st s x eo er h = rw (eo, er) (refl, h)

pub Agrees-crash : {o : Outcome} {r : Option (Stat × Sim)} → o ≡ crash → r ≡ none → Agrees o r
Agrees-crash eo er = rw (eo, er) tt

-- One register written, and two.
pub one_write :
    (r : Mem) (dst val val' valm : ℕ)
    → val ≡ val'
    → write_port (write_port r dst val) reg_none valm ≡ set_reg_val r dst val'
one_write r dst val val' valm e =
    write_port-none _ valm ∙ write_port_lem r dst val ∙ ap (set_reg_val r dst) e

pub two_writes :
    (r : Mem) (dst dst' val val' valm : ℕ)
    → val ≡ val'
    → write_port (write_port r dst val) dst' valm ≡ set_reg_val (set_reg_val r dst val') dst' valm
two_writes r dst dst' val val' valm e =
    write_port_lem _ dst' valm
    ∙ ap (λ t. set_reg_val t dst' valm) (write_port_lem r dst val ∙ ap (set_reg_val r dst) e)

-- The pending writes of `x`, with the memory `m`.
abbrev applied : Sim → Mem → State
applied x m = record {
  pc = x.pc_in;
  r = write_port (write_port x.reg x.dest_e x.vale) x.dest_m x.valm;
  m = m;
  cc = x.cc_in;
}

pub written_back :
    {b : Bool} (m m' : Mem) {pos pos' val val' : ℕ}
    → b ≡ true
    → pos ≡ pos'
    → val ≡ val'
    → set_word_val m pos' val' ≡ found m'
    → write_back b m pos val ≡ some m'
unfolding write_back
written_back m m' eb ep ev e = rw (eb, ep, ev, write_back, e) refl

pub applied-Shows :
    (x : Sim) (m : Mem) (s : State)
    → write_back x.mem_write x.mem x.mem_addr x.mem_data ≡ some m
    → applied x m ≡ s
    → Shows (update_state x) s
unfolding update_state
applied-Shows x m s e h = rw (update_state, e) h

-- A store of `step_state` against the test read of the cycle and the write behind it.
pub store-Agrees :
    (s : State) (x : Sim) (st : Bool → Stat) (go : Mem → State) {pos val addr : ℕ}
    → IsMem x.mem
    → pos < word_mod
    → val < word_mod
    → addr ≡ pos
    → x.mem_addr ≡ pos
    → x.mem_data ≡ val
    → x.mem_write ≡ true
    → st false ≡ aok
    → st true ≡ adr
    → ((m : Mem) → applied x m ≡ go m)
    → Agrees
        (store (record s { m = x.mem }) pos val go)
        (elim (test_read true false x.mem addr) [ some err ↦ some (st err, x) | none ↦ none ])
unfolding update_state
store-Agrees s x st go {pos} {val} w hp hv eb ea ed ew sf sn h = elim (word_cases w pos val hp hv) [
  | inl (g, e) ↦
      Agrees-done aok (go (written x.mem pos val)) x (rw (e, store) refl) (rw (eb, g, sf) refl)
        (λ _. applied-Shows x (written x.mem pos val) _ (written_back _ _ ew ea ed e) (h _))
  | inr (inl (g, e)) ↦
      Agrees-done adr (record s { m = x.mem }) x (rw (e, store) refl) (rw (eb, g, sn) refl)
        (λ c. absurd (cc))
  | inr (inr (g, e)) ↦ Agrees-crash (rw (e, store) refl) (rw (eb, g) refl)
]

-- A load against the read of the cycle.
pub load-Agrees :
    (s : State) (m : Mem) (old : ℕ) (x : ℕ → Sim) (st : Bool → Stat) (go : ℕ → State) {pos addr : ℕ}
    → IsMem m
    → pos < word_mod
    → addr ≡ pos
    → st false ≡ aok
    → st true ≡ adr
    → ((val : ℕ) → Shows (update_state (x val)) (go val))
    → Agrees (load (record s { m = m }) pos go) (elim (read_data true m addr old) [
      | some (valm, err) ↦ some (st err, x valm)
      | none ↦ none
    ])
load-Agrees s m old x st go {pos} w hp ea sf sn h = elim (get_word_cases w pos hp) [
  | inl g ↦
      let val = from_bytes m.contents pos 8 in
      Agrees-done aok (go val) (x val) (rw (g, load) refl) (rw (ea, g, sf) refl) (λ _. h val)
  | inr (inl g) ↦
      Agrees-done adr (record s { m = m }) (x old) (rw (g, load) refl) (rw (ea, g, sn) refl)
        (λ c. absurd (cc))
  | inr (inr (g, _)) ↦ Agrees-crash (rw (g, load) refl) (rw (ea, g) refl)
]

-- ===== src/Y86/Seq/Refinement.antt =====
-- A cycle of the simulator against `step_state`.
use csapp_3e_study.Base.{ℕ, subst, ◌≡◌, refl, ap, ◌∙◌, sym, true, false, some, ◌≤◌, ◌⊎◌, inl, inr}
use csapp_3e_study.Base.Words.{add64}
use csapp_3e_study.Y86.Memory.{found, refused, fault, reg_none}
use csapp_3e_study.Y86.Memory.Bounds.{get_byte-out}
use csapp_3e_study.Y86.Machine.{State, Insn, adr, done}
use csapp_3e_study.Y86.Seq.Control.{gen_stat}
use csapp_3e_study.Y86.Machine.{
  Itype, halt, nop, rrmovq, irmovq, rmmovq, mrmovq, alu, jmp, call, ret,
}
use csapp_3e_study.Y86.Machine.{pushq, popq, iaddq, pop2, unknown}
use csapp_3e_study.Y86.Machine.Fetch.{fetch}
use csapp_3e_study.Y86.Machine.Execute.{dispatch, step_state}
use csapp_3e_study.Y86.Machine.Invariant.{IsState, IsInsn, fetch_lem}
use csapp_3e_study.Y86.Seq.{Version, Sim, state_of}
use csapp_3e_study.Y86.Seq.Step.{
  update_state, Fetched, read_ids, read_constant, fetch_rest, fetch_stage, later_stages, cycle,
  sim_step,
}
use csapp_3e_study.Y86.Seq.Fetching.{supports, fetched, fetch_stage_lem}
use csapp_3e_study.Y86.Seq.Agreement.{Agrees, operands_valid}
use csapp_3e_study.Y86.Seq.Instructions.{
  rrmovq-Agrees, irmovq-Agrees, rmmovq-Agrees, mrmovq-Agrees, alu-Agrees, jmp-Agrees, call-Agrees,
  ret-Agrees, pushq-Agrees, popq-Agrees, iaddq-Agrees, nop-Agrees, halt-Agrees, pop2-Agrees,
  unknown-Agrees, full_only,
}

module _ (y : Sim) (w : IsState (state_of y)) (v : Version) (i : Insn) (k : IsInsn i)
    (o1 : i.ok1 ≡ true) (oc : i.okc ≡ true) where
  dispatch-Agrees :
      (h : Itype)
      → operands_valid h i ≡ true
      → supports v h ≡ true
      → Agrees (dispatch h i (state_of y)) (later_stages v h (fetched i) y)
  unfolding dispatch
  dispatch-Agrees rrmovq o p = rrmovq-Agrees y w v i k o1 oc o
  dispatch-Agrees irmovq o p = irmovq-Agrees y w v i k o1 oc o
  dispatch-Agrees rmmovq o p = rmmovq-Agrees y w v i k o1 oc o
  dispatch-Agrees mrmovq o p = mrmovq-Agrees y w v i k o1 oc o
  dispatch-Agrees alu o p = alu-Agrees y w v i k o1 oc
  dispatch-Agrees jmp o p = jmp-Agrees y w v i k o1 oc
  dispatch-Agrees call o p = call-Agrees y w v i k o1 oc
  dispatch-Agrees ret o p = ret-Agrees y w v i k o1 oc
  dispatch-Agrees pushq o p = pushq-Agrees y w v i k o1 oc o
  dispatch-Agrees popq o p = popq-Agrees y w v i k o1 oc o
  dispatch-Agrees iaddq o p = rw (full_only v p) (iaddq-Agrees y w v i k o1 oc o)
  dispatch-Agrees nop o p = nop-Agrees y w v i k o1 oc
  dispatch-Agrees halt o p = halt-Agrees y w v i k o1 oc
  dispatch-Agrees pop2 o p = pop2-Agrees y w v i k o1 oc
  dispatch-Agrees unknown o p = unknown-Agrees y w v i k o1 oc

-- The step reads a whole instruction that the version has, of registers that it may name.
abbrev pub Complete : Version → State → Type 0
Complete v s =
    (i : Insn) × (fetch s ≡ found i)
    × (i.ok1 ≡ true)
    × (i.okc ≡ true)
    × (operands_valid i.hi0 i ≡ true)
    × (supports v i.hi0 ≡ true)

found_inj : {i j : Insn} → found i ≡ found j → i ≡ j
found_inj {i} e = ap (λ a. elim a [ found k ↦ k | refused ↦ i | fault ↦ i ]) e

pub step_state-found :
    (s : State) {i : Insn} → fetch s ≡ found i → step_state s ≡ dispatch i.hi0 i s
unfolding step_state
step_state-found s e = rw (step_state, e) refl

pub cycle-fetched :
    (v : Version) (y : Sim) {f : Fetched}
    → fetch_stage v y.mem y.pc ≡ some f
    → cycle v y ≡ later_stages v f.icode f y
unfolding cycle
cycle-fetched v y e = rw (cycle, e) refl

pub sim_step-updated :
    (v : Version) (x : Sim) {y : Sim} → update_state x ≡ some y → sim_step v x ≡ cycle v y
unfolding sim_step
sim_step-updated v x e = rw (sim_step, e) refl

pub cycle-Agrees :
    (v : Version) (y : Sim)
    → IsState (state_of y)
    → Complete v (state_of y)
    → Agrees (step_state (state_of y)) (cycle v y)
cycle-Agrees v y w (i, f, o1, oc, o, p) = elim (fetch_lem w) [
  | inl (e, _) ↦ absurd (cc)
  | inr (j, e, k) ↦
      let same = found_inj (sym e ∙ f) in
      rw (step_state-found (state_of y) f, cycle-fetched v y (fetch_stage_lem w v i f o1 oc p))
        (dispatch-Agrees y w v i (subst IsInsn same k) o1 oc i.hi0 o p)
]

-- Outside the memory the fetch stage leaves a `nop` with an error.
abbrev nop_outside : ℕ → Fetched
nop_outside pc = record {
  imem_error = true;
  icode = nop;
  ifun = 0;
  ra = reg_none;
  rb = reg_none;
  valc = 0;
  valp = add64 pc 1;
}

outside :
    (v : Version) (y : Sim)
    → IsState (state_of y)
    → y.mem.len ≤ y.pc
    → fetch_stage v y.mem y.pc ≡ some (nop_outside y.pc)
unfolding fetch_stage fetch_rest read_ids read_constant
outside v y w h = rw (fetch_stage, get_byte-out w.mem y.pc w.pc_word h) refl

later_nop :
    (v : Version) (y : Sim) (f : Fetched)
    → (x : Sim) × (later_stages v nop f y ≡ some (gen_stat f.imem_error false true nop, x))
unfolding later_stages
later_nop v y f = (_, refl)

later_error :
    (v : Version) (y : Sim) (f : Fetched)
    → f.imem_error ≡ true
    → (x : Sim) × (later_stages v nop f y ≡ some (adr, x))
later_error v y f e =
    let (x, ex) = later_nop v y f in (x, ex ∙ ap (λ b. some (gen_stat b false true nop, x)) e)

outside-Agrees :
    (v : Version) (y : Sim)
    → IsState (state_of y)
    → fetch (state_of y) ≡ refused
    → Agrees (step_state (state_of y)) (cycle v y)
unfolding step_state
outside-Agrees v y w e = elim (fetch_lem w) [
  | inr (i, f, _) ↦ absurd (cc)
  | inl (_, h) ↦
      let (x, ex) = later_error v y (nop_outside y.pc) refl in
      let step : step_state (state_of y) ≡ done adr (state_of y) = rw (step_state, e) refl in
      rw (step, cycle-fetched v y (outside v y w h), ex) (refl, λ c. absurd (cc))
]

-- A cycle starts with the pending writes. Where these lead to a valid state from which the step cannot
-- read the first byte, or reads a whole instruction that the version has, of registers that it may
-- name: the cycle returns the status of the step, after STAT_AOK its own pending writes lead to the
-- state of the step, and it leaves the array of the memory exactly where the step does.
pub sim_step-Agrees :
    (v : Version) (x y : Sim)
    → update_state x ≡ some y
    → IsState (state_of y)
    → (fetch (state_of y) ≡ refused) ⊎ Complete v (state_of y)
    → Agrees (step_state (state_of y)) (sim_step v x)
sim_step-Agrees v x y e w (inl c) = rw (sim_step-updated v x e) (outside-Agrees v y w c)
sim_step-Agrees v x y e w (inr c) = rw (sim_step-updated v x e) (cycle-Agrees v y w c)

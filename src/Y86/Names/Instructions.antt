-- ===== src/Y86/Names/Instructions.antt =====
-- The table of instructions against what `step_state` reads.
use csapp_3e_study.Base.{
  ℕ, ◌+◌, ◌≤◌, ◌≡◌, ◌⊎◌, inl, inr, refl, subst, arith, Bool, true, List, [], ◌∷◌, some, Bool-cases,
  if◌then◌else◌, ◌&&◌, ◌||◌, ◌==◌, leb,
}
use csapp_3e_study.Base.Tables.{All, All-test, at_head}
use csapp_3e_study.Base.Texts.{same_text, same_text_iff}
use csapp_3e_study.Y86.Machine.{itype_of, need_regids, need_imm}
use csapp_3e_study.Y86.Machine.Fetch.{hi4}
use csapp_3e_study.Y86.Names.{
  Arg, r_arg, m_arg, i_arg, no_arg, Instr, instruction_set, first_named, find_instr, first_coded,
  iname,
}

-- How many bytes `step_state` reads of an instruction with this first byte.
abbrev pub fetched : ℕ → ℕ
fetched code =
    let hi0 = itype_of (hi4 code) in
    1 + (if need_regids hi0 then 1 else 0) + (if need_imm hi0 then 8 else 0)

-- How many bytes an argument takes: a register one, a memory reference a byte and the eight behind
-- it, and a number as many as the table says.
abbrev pub width : Arg → ℕ → ℕ
width r_arg hi = 1
width m_arg hi = 9
width i_arg hi = hi
width no_arg hi = 0

-- An instruction, which `iname` finds by its code and which is as long as what is fetched; or a directive,
-- whose number fills its bytes; or "pop2", of no bytes. The arguments lie in the bytes, where there
-- are any.
abbrev pub Encodes : Instr → Type 0
Encodes i =
    (((iname i.code ≡ i.name) × (i.bytes ≡ fetched i.code))
      ⊎ ((i.code ≡ 0) × (i.arg1pos + width i.arg1 i.arg1hi ≡ i.bytes))
      ⊎ (i.bytes ≡ 0))
    × (i.arg1pos + width i.arg1 i.arg1hi ≤ i.bytes)
    × (i.arg2pos + width i.arg2 i.arg2hi ≤ i.bytes)

abbrev encodes : Instr → Bool
encodes i =
    ((same_text (iname i.code) i.name && i.bytes == fetched i.code)
      || (i.code == 0 && (i.arg1pos + width i.arg1 i.arg1hi) == i.bytes)
      || i.bytes == 0)
    && leb (i.arg1pos + width i.arg1 i.arg1hi) i.bytes
    && leb (i.arg2pos + width i.arg2 i.arg2hi) i.bytes

encodes-Encodes : (i : Instr) → encodes i ≡ true → Encodes i
encodes-Encodes i h = let name = same_text_iff (iname i.code) i.name in ground (arith, name.0, h)

encodings : All Encodes instruction_set
unfolding iname first_coded itype_of need_regids need_imm same_text
encodings = All-test encodes encodes-Encodes instruction_set refl

first_named-All :
    (P : Instr → Type 0) (name : List ℕ) (table : List Instr) (i : Instr)
    → All P table
    → first_named name table ≡ some i
    → (i.name ≡ name) × P i
unfolding first_named
first_named-All P name [] i h e = absurd (cc)
first_named-All P name (j ∷ more) i h e = elim (Bool-cases (same_text j.name name)) [
  | inl found ↦
      let same : j ≡ i = at_head (rw found at e) in
      subst (λ k. (k.name ≡ name) × P k) same ((same_text_iff j.name name).0 found, h.0)
  | inr other ↦ first_named-All P name more i h.1 (rw other at e)
]

-- What `find_instr` finds has the name; it is an instruction, which `iname` finds by its code and which
-- is as long as what `step_state` fetches for that code, or a directive, whose number fills its bytes,
-- or an entry of no bytes; and its arguments lie in its bytes.
pub find_instr-Encodes :
    (name : List ℕ) (i : Instr) → find_instr name ≡ some i → (i.name ≡ name) × Encodes i
unfolding find_instr
find_instr-Encodes name i e = first_named-All Encodes name instruction_set i encodings e

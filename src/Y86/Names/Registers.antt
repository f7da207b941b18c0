-- ===== src/Y86/Names/Registers.antt =====
-- The names of the registers.
use csapp_3e_study.Base.{
  ℕ, zero, suc, ◌<◌, ◌≡◌, ◌⊎◌, ◌↔◌, inl, inr, refl, sym, subst, arith, List, [], ◌∷◌, Bool-cases,
  take, ◌==◌, ==_iff,
}
use csapp_3e_study.Base.Tables.{All, All-test}
use csapp_3e_study.Base.Texts.{same_text, same_text_iff}
use csapp_3e_study.Y86.Memory.{reg_none}
use csapp_3e_study.Y86.Names.{reg_err, reg_table, first_id, find_register, reg_name}

-- The ids below a bound, from the last on.
abbrev ids : ℕ → List ℕ
ids zero = []
ids (suc n) = n ∷ ids n

All-ids : (P : ℕ → Type 0) (n k : ℕ) → k < n → All P (ids n) → P k
All-ids P zero k h a = absurd (omega (arith, h))
All-ids P (suc n) k h a = elim (last_or n k h) [
  | inl e ↦ subst P (sym e) (a.0)
  | inr l ↦ All-ids P n k l (a.1)
]
  where
    last_or : (n k : ℕ) → k < suc n → (k ≡ n) ⊎ (k < n)
    last_or n k h = ground arith

named : All (λ id. find_register (reg_name id) ≡ id) (ids 15)
unfolding find_register first_id same_text reg_name
named =
    All-test (λ id. find_register (reg_name id) == id)
      (λ id. (==_iff (find_register (reg_name id)) id).0) (ids 15) refl

entries : All (λ p. reg_name p.1 ≡ p.0) (take reg_none reg_table)
unfolding reg_name same_text
entries =
    All-test (λ p. same_text (reg_name p.1) p.0) (λ p. (same_text_iff (reg_name p.1) p.0).0)
      (take reg_none reg_table) refl

first_id-in :
    (P : List ℕ × ℕ → Type 0) (name : List ℕ) (table : List (List ℕ × ℕ))
    → All P table
    → (first_id name table ≡ reg_err) ⊎ P (name, first_id name table)
unfolding first_id
first_id-in P name [] h = inl refl
first_id-in P name ((n, id) ∷ table) h = elim (Bool-cases (same_text name n)) [
  | inl e ↦ rw e (inr (subst (λ t. P (t, id)) (sym ((same_text_iff name n).0 e)) h.0))
  | inr e ↦ rw e (first_id-in P name table h.1)
]

-- For each register, `find_register` finds its id under its name, and under no other.
pub find_register-reg_name :
    (name : List ℕ) (id : ℕ) → id < reg_none → (find_register name ≡ id) ↔ (reg_name id ≡ name)
unfolding find_register
find_register-reg_name name id h = (
  λ e. elim (first_id-in (λ p. reg_name p.1 ≡ p.0) name (take reg_none reg_table) entries) [
    | inl err ↦ absurd (omega (arith, e, err, h))
    | inr found ↦ subst (λ i. reg_name i ≡ name) e found
  ],
  λ e.
      subst (λ n. find_register n ≡ id) e
        (All-ids (λ i. find_register (reg_name i) ≡ i) 15 id h named),
)

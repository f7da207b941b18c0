-- ===== src/Y86/Seq/Ports.antt =====
-- The ports of the register file and of the memory, and the fetch stage, on a valid state.
use csapp_3e_study.Base.{ℕ, ◌<◌, ◌≡◌, refl, arith, ◌⊎◌}
use csapp_3e_study.Base.Words.{word_mod}
use csapp_3e_study.Y86.Memory.{
  Mem, found, refused, fault, get_word_val, set_word_val, get_reg_val, set_reg_val, reg_none,
}
use csapp_3e_study.Y86.Memory.Bytes.{from_bytes}
use csapp_3e_study.Y86.Memory.Bounds.{IsMem, written, get_word_cases, set_word_cases}
use csapp_3e_study.Y86.Seq.Step.{read_port, write_port}

pub read_port_lem : (r : Mem) (src : ℕ) → read_port r src ≡ get_reg_val r src
unfolding read_port get_reg_val
read_port_lem r src = ground arith

pub write_port_lem : (r : Mem) (dst val : ℕ) → write_port r dst val ≡ set_reg_val r dst val
unfolding write_port set_reg_val
write_port_lem r dst val = ground arith

pub write_port-none : (r : Mem) (val : ℕ) → write_port r reg_none val ≡ r
unfolding write_port
write_port-none r val = refl

-- A test read and the write behind it end the same way.
pub word_cases :
    {m : Mem}
    → IsMem m
    → (pos v : ℕ) → pos < word_mod
    → v < word_mod
    → ((get_word_val m pos ≡ found (from_bytes m.contents pos 8))
        × (set_word_val m pos v ≡ found (written m pos v)))
      ⊎ ((get_word_val m pos ≡ refused) × (set_word_val m pos v ≡ refused))
      ⊎ ((get_word_val m pos ≡ fault) × (set_word_val m pos v ≡ fault))
unfolding get_word_val set_word_val
word_cases {m} w pos v hp hv = ground (arith, get_word_cases w pos hp, set_word_cases w pos v hp hv)

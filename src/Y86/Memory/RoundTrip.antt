-- ===== src/Y86/Memory/RoundTrip.antt =====
-- A word that `set_word_val` stores is what `get_word_val` loads.
use csapp_3e_study.Base.{ℕ, ◌+◌, ◌≤◌, ◌<◌, ◌≡◌, refl, ◌⊎◌, ◌∙◌, ap, arith}
use csapp_3e_study.Base.Words.{word_mod}
use csapp_3e_study.Y86.Memory.{Mem, found, get_byte_val, get_word_val, set_word_val}
use csapp_3e_study.Y86.Memory.Bytes.{
  read_word, put_bytes, word_bytes, from_bytes-word_bytes, from_bytes-put_bytes_ne,
  get_or-put_bytes_ne, length-put_bytes,
}
use csapp_3e_study.Y86.Memory.Bounds.{IsMem, written, set_word-in, get_word-in, written-IsMem}

module _ {m : Mem} (w : IsMem m) (pos v : ℕ) where
  pub get_word-written :
      v < word_mod → pos + 8 ≤ m.len → get_word_val (written m pos v) pos ≡ found v
  get_word-written hv h =
      get_word-in (written-IsMem w pos v) pos h
      ∙ ap found (from_bytes-word_bytes m.contents pos v hv (omega arith))

  pub get_word-written_ne :
      (q : ℕ) → (q + 8 ≤ pos) ⊎ (pos + 8 ≤ q) → get_word_val (written m pos v) q ≡ get_word_val m q
  unfolding get_word_val
  get_word-written_ne q d =
      rw
        (
          length-put_bytes,
          read_word (put_bytes m.contents pos (word_bytes v)) q,
          read_word m.contents q,
          from_bytes-put_bytes_ne m.contents pos (word_bytes v) q 8 d,
        )
        refl

  pub get_byte-written_ne :
      (q : ℕ) → (q < pos) ⊎ (pos + 8 ≤ q) → get_byte_val (written m pos v) q ≡ get_byte_val m q
  unfolding get_byte_val
  get_byte-written_ne q d =
      rw (length-put_bytes, get_or-put_bytes_ne m.contents pos (word_bytes v) q d) refl

-- In a memory that has room for a word at `pos`, storing a word there succeeds; the word is then
-- read back, every word and byte apart from those eight reads as before, and the memory keeps its
-- length and stays well formed.
pub set_word-get_word :
    {m : Mem} (pos v : ℕ)
    → IsMem m
    → v < word_mod
    → pos + 8 ≤ m.len
    → (m' : Mem) × (set_word_val m pos v ≡ found m')
      × (get_word_val m' pos ≡ found v)
      × ((q : ℕ) → (q + 8 ≤ pos) ⊎ (pos + 8 ≤ q) → get_word_val m' q ≡ get_word_val m q)
      × ((q : ℕ) → (q < pos) ⊎ (pos + 8 ≤ q) → get_byte_val m' q ≡ get_byte_val m q)
      × (m'.len ≡ m.len)
      × IsMem m'
set_word-get_word {m} pos v w hv h = (
  written m pos v,
  set_word-in w pos v hv h,
  get_word-written w pos v hv h,
  get_word-written_ne w pos v,
  get_byte-written_ne w pos v,
  refl,
  written-IsMem w pos v,
)

-- ===== src/Proxy/Queue/Threads.antt =====
-- The buffer under threads that stop between the steps of `sbuf_enq` and `sbuf_deq`.
use csapp_3e_study.Base.{
  ℕ, zero, suc, ◌+◌, ◌*◌, ◌%◌, ◌^◌, ◌≤◌, ◌<◌, ◌≡◌, ◌⊎◌, inl, inr, refl, arith, List, length,
  length-replicate,
}
use native.Mathlib.Nat.{suc-mul, mod-lt}
use csapp_3e_study.Base.Words.{word_mod, sub64}
use csapp_3e_study.Proxy.Queue.{Sbuf, sbuf_create, put_item, get_item}
use csapp_3e_study.Proxy.Queue.Overlap.{length-copy_in}

-- The buffer, and how many threads stand after the first wait and after the copy, in `sbuf_enq` and in
-- `sbuf_deq`.
pub record Threads : Type 0 where
  pub q : Sbuf
  pub enq_waited : ℕ
  pub enq_copied : ℕ
  pub deq_waited : ℕ
  pub deq_copied : ℕ

-- One step of one thread; the mutex makes a copy one step.
pub data Step (t : Threads) : Threads → Type 0 where
  enq_wait :
      (v : ℕ)
      → t.q.slots ≡ suc v
      → Step t (record t { q = record (t.q) { slots = v }; enq_waited = t.enq_waited + 1 })
  enq_copy :
      (item : List ℕ) (k : ℕ)
      → length item ≡ t.q.sz
      → t.enq_waited ≡ suc k
      → Step t (record t { q = put_item (t.q) item; enq_waited = k; enq_copied = t.enq_copied + 1 })
  enq_post :
      (k : ℕ)
      → t.enq_copied ≡ suc k
      → Step t (record t { q = record (t.q) { items = t.q.items + 1 }; enq_copied = k })
  deq_wait :
      (v : ℕ)
      → t.q.items ≡ suc v
      → Step t (record t { q = record (t.q) { items = v }; deq_waited = t.deq_waited + 1 })
  deq_copy :
      (k : ℕ)
      → t.deq_waited ≡ suc k
      → Step t (record t { q = (get_item (t.q)).1; deq_waited = k; deq_copied = t.deq_copied + 1 })
  deq_post :
      (k : ℕ)
      → t.deq_copied ≡ suc k
      → Step t (record t { q = record (t.q) { slots = t.q.slots + 1 }; deq_copied = k })

abbrev pub created : ℕ → ℕ → Threads
created len size = record {
  q = sbuf_create len size;
  enq_waited = 0;
  enq_copied = 0;
  deq_waited = 0;
  deq_copied = 0;
}

pub data Reached (len size : ℕ) : Threads → Type 0 where
  initial : Reached len size (created len size)
  after : {t t' : Threads} → Reached len size t → Step t t' → Reached len size t'

-- How many items have been copied in and not out.
abbrev pub stored : Sbuf → ℕ
stored q = sub64 q.rear q.front

-- Every slot is free, held by a thread, or stores an item; every stored item is counted by the second
-- semaphore, or held by a thread.
pub record IsThreads (len size : ℕ) (t : Threads) : Type 0 where
  pub slots : t.q.slots + t.enq_waited + stored (t.q) + t.deq_copied ≡ len
  pub items : t.q.items + t.deq_waited + t.enq_copied ≡ stored (t.q)
  pub shape : (t.q.n ≡ len) × (t.q.sz ≡ size) × (length (t.q.bytes) ≡ len * size)
  pub counters : (t.q.front < word_mod) × (t.q.rear < word_mod)

Step-IsThreads :
    {len size : ℕ} {t t' : Threads}
    → len < word_mod
    → Step t t'
    → IsThreads len size t
    → IsThreads len size t'
unfolding put_item get_item
Step-IsThreads l (enq_wait v e) w = omega arith
Step-IsThreads {t = t} l (enq_copy item k i e) w =
    omega (arith, length-copy_in (t.q.bytes) (t.q.rear % t.q.n) item)
Step-IsThreads l (enq_post k e) w = omega arith
Step-IsThreads l (deq_wait v e) w = omega arith
Step-IsThreads l (deq_copy k e) w = omega arith
Step-IsThreads l (deq_post k e) w = omega arith

pub Reached-IsThreads :
    {len size : ℕ} {t : Threads} → len < 2 ^ 31 → Reached len size t → IsThreads len size t
unfolding sbuf_create
Reached-IsThreads {len} {size} l initial = record {
  slots = omega arith;
  items = omega arith;
  shape = (refl, refl, length-replicate (len * size) 0);
  counters = omega arith;
}
Reached-IsThreads l (after r step) = Step-IsThreads (omega arith) step (Reached-IsThreads l r)

add-le-mul : (a b : ℕ) → 0 < a → 0 < b → a + b ≤ a * b + 1
add-le-mul zero b h h' = absurd (omega arith)
add-le-mul (suc a) b h h' = grind (arith, suc-mul a b)

offset_inside : (r n sz : ℕ) → 0 < n → 0 < sz → r % n + sz ≤ n * sz
offset_inside r n sz h h' = omega (arith, add-le-mul n sz h h', mod-lt r h)

none_or_some : (n : ℕ) → (n ≡ 0) ⊎ (0 < n)
none_or_some zero = inl refl
none_or_some (suc n) = inr (omega arith)

-- However threads follow one another on a buffer that `sbuf_create` made, for at least one and
-- fewer than 2 ^ 31 items of at least one byte: no thread is about to copy an item in, or fewer items
-- are stored than there are slots, and the copy lies in the array; and none is about to copy an item
-- out, or one is stored, and the copy lies in the array.
pub copy_bounds :
    {len size : ℕ} {t : Threads}
    → Reached len size t
    → len < 2 ^ 31
    → 0 < len
    → 0 < size
    → ((t.enq_waited ≡ 0)
        ⊎ ((stored (t.q) < len) × (t.q.rear % t.q.n + t.q.sz ≤ length (t.q.bytes))))
      × ((t.deq_waited ≡ 0)
          ⊎ ((0 < stored (t.q)) × (t.q.front % t.q.n + t.q.sz ≤ length (t.q.bytes))))
copy_bounds {len} {size} {t} r l h h' =
    let w = Reached-IsThreads l r in
    (
      elim (none_or_some t.enq_waited) [
        | inl e ↦ inl e
        | inr p ↦ inr (omega (arith, p, w.slots), inside w (t.q.rear))
      ],
      elim (none_or_some t.deq_waited) [
        | inl e ↦ inl e
        | inr p ↦ inr (omega (arith, p, w.items), inside w (t.q.front))
      ],
    )
  where
    inside : IsThreads len size t → (i : ℕ) → i % t.q.n + t.q.sz ≤ length (t.q.bytes)
    inside w i = rw (w.shape.0, w.shape.1, w.shape.2) (offset_inside i len size h h')

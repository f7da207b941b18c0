-- ===== src/Proxy/Queue.antt =====
-- labs/09-proxy/sbuf.c: a buffer of items behind two semaphores.
pub mod Overlap
pub mod Threads
use csapp_3e_study.Base.{
  ℕ, zero, suc, ◌+◌, ◌-◌, ◌*◌, ◌%◌, ◌^◌, List, [], ◌∷◌, Option, some, none, ltb, if◌then◌else◌, set,
  get_or, replicate,
}
use csapp_3e_study.Base.Words.{word_mod}

-- `struct sbuf`; a semaphore is its value.
pub record Sbuf : Type 0 where
  pub bytes : List ℕ
  pub n : ℕ
  pub sz : ℕ
  pub front : ℕ
  pub rear : ℕ
  pub slots : ℕ
  pub items : ℕ

-- `sbuf_create`, where the array is given. `sem_init` takes an `unsigned int`, which cuts `len`; what it
-- does with more than SEM_VALUE_MAX, 2 ^ 31 - 1, is not modelled.
unfoldable pub sbuf_create : ℕ → ℕ → Sbuf
sbuf_create len size = record {
  bytes = replicate (len * size) 0;
  n = len;
  sz = size;
  front = 0;
  rear = 0;
  slots = len % 2 ^ 32;
  items = 0;
}

-- `memcpy` into an array at an offset, and out of it.
unfoldable pub copy_in : List ℕ → ℕ → List ℕ → List ℕ
copy_in bytes at [] = bytes
copy_in bytes at (b ∷ bs) = copy_in (set bytes at b) (at + 1) bs

unfoldable pub copy_out : List ℕ → ℕ → ℕ → List ℕ
copy_out bytes at zero = []
copy_out bytes at (suc k) = get_or bytes at 0 ∷ copy_out bytes (at + 1) k

-- The part of `sbuf_enq` that holds the mutex: the offset is the number of the slot, not times `sz`.
unfoldable pub put_item : Sbuf → List ℕ → Sbuf
put_item q item = record q {
  bytes = copy_in q.bytes (q.rear % q.n) item;
  rear = (q.rear + 1) % word_mod;
}

unfoldable pub get_item : Sbuf → List ℕ × Sbuf
get_item q = (copy_out q.bytes (q.front % q.n) q.sz, record q { front = (q.front + 1) % word_mod })

-- `sem_wait` on a value: `none` where the caller waits.
abbrev pub sem_wait : ℕ → Option ℕ
sem_wait zero = none
sem_wait (suc v) = some v

-- `sbuf_enq` and `sbuf_deq` by a thread that is not interrupted; `none` where it waits.
unfoldable pub sbuf_enq : Sbuf → List ℕ → Option Sbuf
unfolding put_item
sbuf_enq q item = elim (sem_wait q.slots) [
  | none ↦ none
  | some v ↦
      let q' = put_item (record q { slots = v }) item in some (record q' { items = q'.items + 1 })
]

unfoldable pub sbuf_deq : Sbuf → Option (List ℕ × Sbuf)
unfolding get_item
sbuf_deq q = elim (sem_wait q.items) [
  | none ↦ none
  | some v ↦
      let (item, q') = get_item (record q { items = v }) in
      some (item, record q' { slots = q'.slots + 1 })
]

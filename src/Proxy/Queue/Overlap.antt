-- ===== src/Proxy/Queue/Overlap.antt =====
-- What an item in the buffer keeps of itself until it is taken out.
use csapp_3e_study.Base.{
  ℕ, zero, suc, ◌+◌, ◌%◌, ◌≤◌, ◌<◌, ◌≡◌, ◌∙◌, refl, ap, ap₂, sym, subst, arith, List, [], ◌∷◌, some,
  set, get_or, take, take_all, length, length-set, get_or-set_self, get_or-set_ne,
}
use native.Mathlib.Nat.{mod-eq_of_lt, mod-add-mod}
use csapp_3e_study.Base.Words.{word_mod}
use csapp_3e_study.Proxy.Queue.{Sbuf, copy_in, copy_out, sbuf_enq, sbuf_deq}

pub length-copy_in :
    (bytes : List ℕ) (at : ℕ) (bs : List ℕ) → length (copy_in bytes at bs) ≡ length bytes
unfolding copy_in
length-copy_in bytes at [] = refl
length-copy_in bytes at (b ∷ bs) =
    length-copy_in (set bytes at b) (at + 1) bs ∙ length-set bytes at b

-- A byte before the place of a copy is as it was.
get_or-copy_in_before :
    (bytes : List ℕ) (at i : ℕ) (bs : List ℕ)
    → i < at
    → get_or (copy_in bytes at bs) i 0 ≡ get_or bytes i 0
unfolding copy_in
get_or-copy_in_before bytes at i [] h = refl
get_or-copy_in_before bytes at i (b ∷ bs) h =
    get_or-copy_in_before (set bytes at b) (at + 1) i bs (omega arith)
    ∙ get_or-set_ne bytes at i b 0 (omega arith)

get_or-copy_in_head :
    (bytes : List ℕ) (at b : ℕ) (bs : List ℕ)
    → at < length bytes
    → get_or (copy_in bytes at (b ∷ bs)) at 0 ≡ b
unfolding copy_in
get_or-copy_in_head bytes at b bs h =
    get_or-copy_in_before (set bytes at b) (at + 1) at bs (omega arith)
    ∙ get_or-set_self bytes at b 0 h

-- What was copied in is read back, from the first byte to any.
copy_out-copy_in :
    (bytes : List ℕ) (at : ℕ) (bs : List ℕ) (k : ℕ)
    → k ≤ length bs
    → at + length bs ≤ length bytes
    → copy_out (copy_in bytes at bs) at k ≡ take k bs
unfolding copy_in copy_out
copy_out-copy_in bytes at bs zero h l = refl
copy_out-copy_in bytes at [] (suc k) h l = absurd (omega arith)
copy_out-copy_in bytes at (b ∷ bs) (suc k) h l =
    ap₂ ◌∷◌
      (get_or-copy_in_before (set bytes at b) (at + 1) at bs (omega arith)
        ∙ get_or-set_self bytes at b 0 (omega arith))
      (copy_out-copy_in (set bytes at b) (at + 1) bs k (omega arith)
        (omega (arith, length-set bytes at b)))

-- Of two copies one byte apart, the first byte of the first is left before the second.
copy_out-copies :
    (bytes : List ℕ) (at a : ℕ) (as' bs : List ℕ) (k : ℕ)
    → k ≤ length bs
    → at + 1 + length bs ≤ length bytes
    → copy_out (copy_in (copy_in bytes at (a ∷ as')) (at + 1) bs) at (suc k) ≡ a ∷ take k bs
unfolding copy_out
copy_out-copies bytes at a as' bs k h l =
    let first = copy_in bytes at (a ∷ as') in
    ap₂ ◌∷◌ (get_or-copy_in_before first (at + 1) at bs (omega arith) ∙ head)
      (copy_out-copy_in first (at + 1) bs k h (omega (arith, length-copy_in bytes at (a ∷ as'))))
  where
    head : get_or (copy_in bytes at (a ∷ as')) at 0 ≡ a
    head = get_or-copy_in_head bytes at a as' (omega arith)

-- The next slot, without going round.
next_slot : (r n : ℕ) → r % n + 1 < n → (r + 1) % n ≡ r % n + 1
next_slot r n h = sym (mod-add-mod r n 1) ∙ mod-eq_of_lt h

-- The buffer after `sbuf_enq` and after `sbuf_deq`, where they do not wait.
abbrev pub enqueued : Sbuf → List ℕ → ℕ → Sbuf
enqueued q item v = record {
  bytes = copy_in q.bytes (q.rear % q.n) item;
  n = q.n;
  sz = q.sz;
  front = q.front;
  rear = (q.rear + 1) % word_mod;
  slots = v;
  items = q.items + 1;
}

abbrev pub dequeued : Sbuf → ℕ → Sbuf
dequeued q v = record {
  bytes = q.bytes;
  n = q.n;
  sz = q.sz;
  front = (q.front + 1) % word_mod;
  rear = q.rear;
  slots = q.slots + 1;
  items = v;
}

pub enq-enqueued :
    (q : Sbuf) (item : List ℕ) (v : ℕ)
    → q.slots ≡ suc v
    → sbuf_enq q item ≡ some (enqueued q item v)
unfolding sbuf_enq
enq-enqueued q item v e = rw (e, sbuf_enq)

pub deq-dequeued :
    (q : Sbuf) (v : ℕ)
    → q.items ≡ suc v
    → sbuf_deq q ≡ some (copy_out q.bytes (q.front % q.n) q.sz, dequeued q v)
unfolding sbuf_deq
deq-dequeued q v e = rw (e, sbuf_deq)

-- An empty buffer whose next slot lies inside.
pub record IsEmpty (q : Sbuf) : Type 0 where
  pub none_stored : (q.front ≡ q.rear) × (q.items ≡ 0)
  pub counter : q.rear + 1 < word_mod
  pub inside : q.rear % q.n + 1 < q.n
  pub size : q.rear % q.n + 1 + q.sz ≤ length q.bytes

-- An item of `sz` bytes that is put into an empty buffer with a free slot, whose next slot is not the
-- last and has `sz + 1` bytes before the end of the array, is what the next `sbuf_deq` takes out.
pub enq-deq :
    (q : Sbuf) (item : List ℕ) (s : ℕ)
    → IsEmpty q
    → length item ≡ q.sz
    → q.slots ≡ suc s
    → (q1 q2 : Sbuf) × (sbuf_enq q item ≡ some q1) × (sbuf_deq q1 ≡ some (item, q2))
enq-deq q item s w l e = (
  enqueued q item s,
  dequeued (enqueued q item s) q.items,
  enq-enqueued q item s e,
  deq-dequeued (enqueued q item s) q.items (omega arith)
      ∙ ap (λ x. some (x, dequeued (enqueued q item s) q.items)) back,
)
  where
    back : copy_out (copy_in q.bytes (q.rear % q.n) item) (q.front % q.n) q.sz ≡ item
    back =
        let at = q.rear % q.n in
        let bytes = copy_in q.bytes at item in
        let read : copy_out bytes at (length item) ≡ item =
          copy_out-copy_in q.bytes at item (length item) (omega arith) (omega (arith, w.size))
          ∙ take_all item in
        subst (λ f. copy_out bytes (f % q.n) q.sz ≡ item) (sym (w.none_stored.0))
          (subst (λ k. copy_out bytes at k ≡ item) l read)

-- Two items of `sz` bytes that are put into an empty buffer with two free slots, whose next slot is not
-- the last and has `sz + 1` bytes before the end of the array: the first that is taken out is the first
-- byte of one item before the bytes of the other, less the last.
pub enq-enq-deq :
    (q : Sbuf) (a : ℕ) (as' item : List ℕ) (s : ℕ)
    → IsEmpty q
    → suc (length as') ≡ q.sz
    → length item ≡ q.sz
    → q.slots ≡ suc (suc s)
    → (q1 q2 q3 : Sbuf) × (sbuf_enq q (a ∷ as') ≡ some q1)
      × (sbuf_enq q1 item ≡ some q2)
      × (sbuf_deq q2 ≡ some (a ∷ take (length as') item, q3))
enq-enq-deq q a as' item s w l l' e =
    let q1 = enqueued q (a ∷ as') (suc s) in
    let q2 = enqueued q1 item s in
    (
      q1,
      q2,
      dequeued q2 (q.items + 1),
      enq-enqueued q (a ∷ as') (suc s) e,
      enq-enqueued q1 item s refl,
      deq-dequeued q2 (q.items + 1) (omega arith)
          ∙ ap (λ x. some (x, dequeued q2 (q.items + 1))) mixed,
    )
  where
    next : (q.rear + 1) % word_mod % q.n ≡ q.rear % q.n + 1
    next = ap (λ r. r % q.n) (mod-eq_of_lt w.counter) ∙ next_slot q.rear q.n w.inside

    mixed :
        copy_out
          (copy_in (copy_in q.bytes (q.rear % q.n) (a ∷ as')) ((q.rear + 1) % word_mod % q.n) item)
          (q.front % q.n)
          q.sz
        ≡ a ∷ take (length as') item
    mixed =
        let at = q.rear % q.n in
        let first = copy_in q.bytes at (a ∷ as') in
        let read : copy_out (copy_in first (at + 1) item) at (suc (length as'))
            ≡ a ∷ take (length as') item =
          copy_out-copies q.bytes at a as' item (length as') (omega arith)
            (omega (arith, w.size)) in
        subst
          (λ f.
            copy_out (copy_in first ((q.rear + 1) % word_mod % q.n) item) (f % q.n) q.sz
            ≡ a ∷ take (length as') item)
          (sym (w.none_stored.0))
          (subst
            (λ k.
              copy_out (copy_in first ((q.rear + 1) % word_mod % q.n) item) at k
              ≡ a ∷ take (length as') item)
            l
            (subst
              (λ i.
                copy_out (copy_in first i item) at (suc (length as')) ≡ a ∷ take (length as') item)
              (sym next) read))

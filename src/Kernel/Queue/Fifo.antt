-- ===== src/Kernel/Queue/Fifo.antt =====
-- The critical sections of queue_send and queue_recv are those of a first-in first-out queue.
use rpitos.Prelude.{bytes_of, ℕ, suc, ◌<◌, ◌≡◌, ap, sym, [], ◌∷◌, ◌++◌, arith}
use rpitos.Kernel.Queue.{Queue, put, take}
use rpitos.Kernel.Queue.Slots.{
  IsRing, slot, contents, items_from, copy_out-copy_in, copy_out-other, step_mod, items_from-snoc,
}

put-IsRing :
    (src : ℕ → ℕ) (q : Queue) (n : ℕ) → IsRing q n → n < q.capacity → IsRing (put src q) (suc n)
unfolding put
put-IsRing src q n v free =
    let step = step_mod q.head q.capacity v.head_in v.short in
    record {
      fits = v.fits;
      short = v.short;
      tail_in = v.tail_in;
      head_in = ground (arith, step, v.head_in);
      room = omega (arith, free);
      ends = ground (arith, step, v.ends, v.tail_in, v.head_in, free);
    }

-- The critical section of queue_send, on a queue with a free slot: the bytes of the item become the
-- last item of the queue, the items before it stay as they were, and the queue stays well formed.
pub put-contents :
    (src : ℕ → ℕ) (q : Queue) (n : ℕ)
    → IsRing q n
    → n < q.capacity
    → (contents (put src q) (suc n) ≡ contents q n ++ bytes_of src 0 q.item_size ∷ [])
      × IsRing (put src q) (suc n)
unfolding put
put-contents src q n v free = (
  items_from-snoc (slot q) (slot (put src q)) q.capacity n q.tail q.head
      (bytes_of src 0 q.item_size) v.ends v.tail_in free
      (λ a b ne.
        copy_out-other q.item_size q.capacity v.fits src q.item_size 0 a q.head q.buf b v.head_in ne
          (omega arith))
      (copy_out-copy_in q.item_size q.capacity v.fits src q.item_size 0 q.head q.buf v.head_in
        (omega arith)),
  put-IsRing src q n v free,
)

-- The critical section of queue_recv, on a queue that holds an item: it copies out the first item,
-- what stays are the other items in their order, and the queue stays well formed.
pub take-contents :
    (q : Queue) (n : ℕ)
    → IsRing q (suc n)
    → let (bytes, q') = take q in (contents q (suc n) ≡ bytes ∷ contents q' n) × IsRing q' n
unfolding take
take-contents q n v =
    let step = step_mod q.tail q.capacity v.tail_in v.short in
    (
      ap (λ j. slot q q.tail ∷ items_from (slot q) q.capacity j n) (sym step),
      record {
        fits = v.fits;
        short = v.short;
        tail_in = ground (arith, step, v.tail_in);
        head_in = v.head_in;
        room = omega (arith, v.room);
        ends = ground (arith, step, v.ends, v.tail_in, v.room);
      },
    )

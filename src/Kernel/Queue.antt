-- ===== src/Kernel/Queue.antt =====
-- The message queue of source/kernel/queue/queue.c. The bytes of the backing buffer are a function
-- of the offset from `buf`. semaphore_take blocks, so its result is an argument of the calls
-- here: `taken` is what it returned. The copy under the queue's lock is one step.
pub mod Slots
pub mod Fifo
mod Tests
use rpitos.Prelude.{
  ℕ, zero, suc, ◌+◌, ◌-◌, ◌*◌, ◌%◌, ◌^◌, Bool, true, false, Option, none, some, ltb, if◌then◌else◌,
  ◌==◌, update, List, [], ◌∷◌,
}
use rpitos.Status.{Status, e_ok, e_timed_out, e_out_of_mem, Run, done, ◌>>=◌}
use rpitos.Kernel.State.{Kernel}
use rpitos.Kernel.Semaphore
use rpitos.Kernel.Semaphore.{Semaphore}
use rpitos.Kernel.Heap.{malloc}

pub record Queue : Type 0 where
  pub buf : ℕ → ℕ
  pub head : ℕ
  pub tail : ℕ
  pub capacity : ℕ
  pub item_size : ℕ
  pub space_available : Semaphore
  pub data_available : Semaphore

-- A 32-bit product, and the offset of byte `i` of slot `n`.
abbrev pub mul32 : ℕ → ℕ → ℕ
mul32 a b = a * b % 2 ^ 32

abbrev pub offset : ℕ → ℕ → ℕ → ℕ
offset n size i = (mul32 n size + i) % 2 ^ 32

-- queue_init: the block from the heap, if there is one, and the new heap offset. `d` and `p` are
-- the addresses of the two wait lists.
unfoldable pub init :
    (d p capacity item_size heap_offset : ℕ) → (ℕ → ℕ) → Kernel → Status × Option Queue × ℕ × Kernel
unfolding Semaphore.init
init d p capacity item_size heap_offset bytes k =
    let (block, heap_offset') = malloc (mul32 capacity item_size) heap_offset in
    elim block [
      | none ↦ (e_out_of_mem, none, heap_offset', k)
      | some b ↦
          let (data_available, k1) = Semaphore.init d capacity 0 k in
          let (space_available, k2) = Semaphore.init p capacity capacity k1 in
          (
            e_ok,
            some (record {
              buf = λ i. bytes (b + i);
              head = 0;
              tail = 0;
              capacity = capacity;
              item_size = item_size;
              space_available = space_available;
              data_available = data_available;
            }),
            heap_offset',
            k2,
          )
    ]

-- The loop of queue_send over the bytes of `src`, with `n` of them left from byte `i` on.
unfoldable pub copy_in : ℕ → ℕ → ℕ → ℕ → (ℕ → ℕ) → (ℕ → ℕ) → ℕ → ℕ
copy_in zero i slot size src buf = buf
copy_in (suc n) i slot size src buf =
    copy_in n (i + 1) slot size src (update buf (offset slot size i) (src i))

-- The loop of queue_recv: the bytes that go to `dst`.
unfoldable pub copy_out : ℕ → ℕ → ℕ → ℕ → (ℕ → ℕ) → List ℕ
copy_out zero i slot size buf = []
copy_out (suc n) i slot size buf = buf (offset slot size i) ∷ copy_out n (i + 1) slot size buf

-- The critical sections.
unfoldable pub put : (ℕ → ℕ) → Queue → Queue
unfolding copy_in
put src q = record q {
  buf = copy_in q.item_size 0 q.head q.item_size src q.buf;
  head = (q.head + 1) % 2 ^ 32 % q.capacity;
}

unfoldable pub take : Queue → List ℕ × Queue
unfolding copy_out
take q = (
  copy_out q.item_size 0 q.tail q.item_size q.buf,
  record q { tail = (q.tail + 1) % 2 ^ 32 % q.capacity },
)

unfoldable pub send : Status → (ℕ → ℕ) → Queue → Kernel → Run (Status × Queue × Kernel)
unfolding put
send e_ok src q k =
    let q1 = put src q in
    Semaphore.give q1.data_available k >>= λ r. done (e_ok, record q1 { data_available = r.1 }, r.2)
send _ src q k = done (e_timed_out, q, k)

unfoldable pub recv : Status → Queue → Kernel → Run (Status × List ℕ × Queue × Kernel)
unfolding take
recv e_ok q k =
    let (bytes, q1) = take q in
    Semaphore.give q1.space_available k >>= λ r.
    done (e_ok, bytes, record q1 { space_available = r.1 }, r.2)
recv _ q k = done (e_timed_out, [], q, k)

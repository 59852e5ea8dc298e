-- ===== src/Kernel/Queue/Tests.antt =====
-- The queue's theorems at a queue of two slots of two bytes.
use rpitos.Prelude.{bytes_of, ℕ, ◌+◌, ◌≡◌, ◌++◌, refl, [], ◌∷◌, arith}
use rpitos.Kernel.Semaphore.{Semaphore}
use rpitos.Kernel.Queue.{Queue, put, take}
use rpitos.Kernel.Queue.Slots.{IsRing, contents}
use rpitos.Kernel.Queue.Fifo.{put-contents, take-contents}

abbrev no_semaphore : Semaphore
no_semaphore = record { max_count = 2; count = 0; semaphore_blocked_list = 28 }

-- The head has gone round to slot 0, and slot 1 holds an item.
abbrev one_sent : Queue
one_sent = record {
  buf = λ i. 10 + i;
  head = 0;
  tail = 1;
  capacity = 2;
  item_size = 2;
  space_available = no_semaphore;
  data_available = no_semaphore;
}

one_sent-IsRing : IsRing one_sent 1
one_sent-IsRing = record {
  fits = omega arith;
  short = omega arith;
  tail_in = omega arith;
  head_in = omega arith;
  room = omega arith;
  ends = refl;
}

abbrev item : ℕ → ℕ
item i = 70 + i

put-contents_example :
    (contents (put item one_sent) 2 ≡ contents one_sent 1 ++ bytes_of item 0 2 ∷ [])
    × IsRing (put item one_sent) 2
put-contents_example = put-contents item one_sent 1 one_sent-IsRing (omega arith)

take-contents_example :
    let (bytes, q') = take one_sent in (contents one_sent 1 ≡ bytes ∷ contents q' 0) × IsRing q' 0
take-contents_example = take-contents one_sent 0 one_sent-IsRing

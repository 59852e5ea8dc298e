-- ===== src/Kernel/Spinlock/Cores.antt =====
-- The four cores on one bakery lock, interleaved in any order: spinlock_acquire and spinlock_release in steps
-- of one access to the memory that the cores share. A core's own ticket, which only it writes, is read with the
-- ticket of the other.
use rpitos.Prelude.{ℕ, ◌+◌, ◌%◌, ◌^◌, ◌<◌, ◌≡◌, ◌≢◌, true, false, ltb, if◌then◌else◌, update}
use rpitos.Kernel.State.{max_cores}
use rpitos.Kernel.Spinlock.{Spinlock, announce, publish, has_chosen, goes_before, release}

-- Where a core is: outside; in the loop over the tickets, with the maximum so far; with a ticket but not yet
-- done choosing; at the two waits of the loop over the other cores; inside.
pub data Pc : Type 0 where
  idle : Pc
  scan : ℕ → ℕ → Pc
  drew : Pc
  choose_wait : ℕ → Pc
  ticket_wait : ℕ → Pc
  critical : Pc

-- `if (t > max_ticket) max_ticket = t`.
abbrev pub larger : ℕ → ℕ → ℕ
larger m t = if ltb m t then t else m

abbrev pub set_ticket : ℕ → ℕ → Spinlock → Spinlock
set_ticket me m x = record x { ticket = update x.ticket me ((m + 1) % 2 ^ 32) }

-- The steps of a core, and how many tickets each draws.
pub data Move (me : ℕ) (x : Spinlock) : Pc → ℕ → Spinlock → Pc → Type 0 where
  begin : {k : ℕ} → k ≡ 0 → Move me x idle k (announce me x) (scan 0 0)
  look :
      {j m k : ℕ}
      → j < max_cores
      → k ≡ 0
      → Move me x (scan j m) k x (scan (j + 1) (larger m (x.ticket j)))
  take : {j m k : ℕ} → j ≡ max_cores → k ≡ 1 → Move me x (scan j m) k (set_ticket me m x) drew
  show : {k : ℕ} → k ≡ 0 → Move me x drew k (publish me x) (choose_wait 0)
  skip : {j k : ℕ} → j ≡ me → k ≡ 0 → Move me x (choose_wait j) k x (choose_wait (j + 1))
  spin :
      {j k : ℕ}
      → j < max_cores
      → j ≢ me
      → has_chosen j x ≡ false
      → k ≡ 0
      → Move me x (choose_wait j) k x (choose_wait j)
  see :
      {j k : ℕ}
      → j < max_cores
      → j ≢ me
      → has_chosen j x ≡ true
      → k ≡ 0
      → Move me x (choose_wait j) k x (ticket_wait j)
  stay :
      {j k : ℕ} → goes_before me j x ≡ false → k ≡ 0 → Move me x (ticket_wait j) k x (ticket_wait j)
  pass :
      {j k : ℕ}
      → goes_before me j x ≡ true
      → k ≡ 0
      → Move me x (ticket_wait j) k x (choose_wait (j + 1))
  enter : {j k : ℕ} → j ≡ max_cores → k ≡ 0 → Move me x (choose_wait j) k x critical
  leave : {k : ℕ} → k ≡ 0 → Move me x critical k (release me x) idle

-- The lock, where each core is, and how many tickets were drawn.
pub record System : Type 0 where
  pub lock : Spinlock
  pub pc : ℕ → Pc
  pub drawn : ℕ

abbrev pub ready : System
ready = record { lock = record { choosing = λ i. 0; ticket = λ i. 0 }; pc = λ i. idle; drawn = 0 }

pub data Step (s : System) : System → Type 0 where
  pick :
      (i : ℕ) {k : ℕ} {x : Spinlock} {p : Pc}
      → i < max_cores
      → Move i s.lock (s.pc i) k x p
      → Step s (record { lock = x; pc = update s.pc i p; drawn = s.drawn + k })

-- From a lock after spinlock_init.
pub data Reach : System → Type 0 where
  start : Reach ready
  later : {s t : System} → Reach s → Step s t → Reach t

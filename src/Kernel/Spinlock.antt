-- ===== src/Kernel/Spinlock.antt =====
-- The bakery lock of source/kernel/spinlock/spinlock.c. spinlock_acquire is cut where another core can
-- see a difference: each write of its own cells is a function, and each of its two busy waits is a
-- test that the core repeats until it holds. `draw` reads the four tickets at once; Cores reads them one
-- by one.
pub mod Order
pub mod Cores
pub mod Bakery
pub mod Exclusion
mod Tests
use rpitos.Prelude.{
  ℕ, zero, suc, ◌+◌, ◌%◌, ◌^◌, Bool, true, false, ◌||◌, ◌&&◌, ltb, if◌then◌else◌, ◌==◌, update,
}
use rpitos.Kernel.State.{max_cores}

pub record Spinlock : Type 0 where
  pub choosing : ℕ → ℕ
  pub ticket : ℕ → ℕ

unfoldable pub clear : ℕ → Spinlock → Spinlock
clear zero x = x
clear (suc n) x =
    let x1 = clear n x in
    record { choosing = update x1.choosing n 0; ticket = update x1.ticket n 0 }

unfoldable pub init : Spinlock → Spinlock
unfolding clear
init x = clear max_cores x

unfoldable pub announce : ℕ → Spinlock → Spinlock
announce me x = record x { choosing = update x.choosing me 1 }

-- The loop over the tickets of the cores below `n`.
unfoldable pub max_ticket : ℕ → Spinlock → ℕ
max_ticket zero x = 0
max_ticket (suc n) x =
    let rest = max_ticket n x in if ltb rest (x.ticket n) then x.ticket n else rest

unfoldable pub draw : ℕ → Spinlock → Spinlock
unfolding max_ticket
draw me x = record x { ticket = update x.ticket me ((max_ticket max_cores x + 1) % 2 ^ 32) }

unfoldable pub publish : ℕ → Spinlock → Spinlock
publish me x = record x { choosing = update x.choosing me 0 }

-- The first wait for core `i` ends.
unfoldable pub has_chosen : ℕ → Spinlock → Bool
has_chosen i x = x.choosing i == 0

-- The second wait of core `me` for core `i` ends.
unfoldable pub goes_before : ℕ → ℕ → Spinlock → Bool
goes_before me i x =
    (x.ticket i == 0) || ltb (x.ticket me) (x.ticket i) || ((x.ticket i == x.ticket me) && ltb me i)

unfoldable pub release : ℕ → Spinlock → Spinlock
release me x = record x { ticket = update x.ticket me 0 }

-- ===== src/Kernel/Spinlock/Order.antt =====
-- The order in which the waits of spinlock_acquire let the cores go.
use rpitos.Prelude.{
  ℕ, zero, suc, ◌+◌, ◌%◌, ◌^◌, ◌<◌, ◌≤◌, ◌≡◌, ◌⊎◌, refl, ◌∙◌, true, false, ◌==◌, update, arith,
}
use rpitos.Kernel.State.{max_cores}
use rpitos.Kernel.Spinlock.{Spinlock, max_ticket, draw, goes_before}

max_ticket-le : (n i : ℕ) (x : Spinlock) → i < n → x.ticket i ≤ max_ticket n x
unfolding max_ticket
max_ticket-le zero i x h = absurd (omega arith)
max_ticket-le (suc n) i x h = ground (arith, h, max_ticket-le n i x)

max_ticket-lt : (n b : ℕ) (x : Spinlock) → 0 < b → ((i : ℕ) → x.ticket i < b) → max_ticket n x < b
unfolding max_ticket
max_ticket-lt zero b x h small = h
max_ticket-lt (suc n) b x h small = ground (arith, max_ticket-lt n b x h small, small n)

-- Two cores whose second waits for one another both end do not both hold a ticket.
pub goes_before-apart :
    (x : Spinlock) (a b : ℕ)
    → (a == b) ≡ false
    → goes_before a b x ≡ true
    → goes_before b a x ≡ true
    → (x.ticket a ≡ 0) ⊎ (x.ticket b ≡ 0)
unfolding goes_before
goes_before-apart x a b ne h k = ground (arith, ne, h, k)

update_same : (f : ℕ → ℕ) (a v : ℕ) → update f a v a ≡ v
update_same f a v = ground arith

-- A later ticket waits for an earlier one.
later_waits :
    (y : Spinlock) (me i : ℕ)
    → y.ticket i < y.ticket me
    → (y.ticket i == 0) ≡ false
    → (goes_before me i y ≡ false) × (goes_before i me y ≡ true)
unfolding goes_before
later_waits y me i h held = ground (arith, h, held)

drawn : (me : ℕ) (x : Spinlock) → (draw me x).ticket me ≡ (max_ticket max_cores x + 1) % 2 ^ 32
unfolding draw
drawn me x = update_same x.ticket me ((max_ticket max_cores x + 1) % 2 ^ 32)

spared : (me i : ℕ) (x : Spinlock) → (i == me) ≡ false → (draw me x).ticket i ≡ x.ticket i
unfolding draw
spared me i x ne = rw ne refl

-- A core that draws a ticket, while every ticket is below 2^32 - 1, waits for each other core that
-- holds one already, and that core does not wait for it.
pub draw-waits :
    (x : Spinlock) (me i : ℕ)
    → ((j : ℕ) → x.ticket j < 4294967295)
    → i < max_cores
    → (i == me) ≡ false
    → (x.ticket i == 0) ≡ false
    → (goes_before me i (draw me x) ≡ false) × (goes_before i me (draw me x) ≡ true)
draw-waits x me i small h ne held =
    let low = max_ticket-le max_cores i x h in
    let high = max_ticket-lt max_cores 4294967295 x (omega arith) small in
    let whole : (max_ticket max_cores x + 1) % 2 ^ 32 ≡ max_ticket max_cores x + 1 =
      omega (arith, high) in
    let mine : (draw me x).ticket me ≡ max_ticket max_cores x + 1 = drawn me x ∙ whole in
    let other = spared me i x ne in
    later_waits (draw me x) me i (rw (mine, other) (omega (arith, low))) (rw other held)

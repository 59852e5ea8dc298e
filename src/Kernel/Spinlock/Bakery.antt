-- ===== src/Kernel/Spinlock/Bakery.antt =====
-- What holds between the cores whatever they do.
use rpitos.Prelude.{
  ℕ, ◌+◌, ◌^◌, ◌<◌, ◌≤◌, ◌≡◌, ◌≢◌, Bool, true, false, ◌&&◌, ◌||◌, ltb, leb, if◌then◌else◌, ◌==◌,
  arith, refl, ap, inl, inr, Bool-cases,
}
use rpitos.Kernel.State.{max_cores}
use rpitos.Kernel.Spinlock.{Spinlock, announce, publish, has_chosen, goes_before, release}
use rpitos.Kernel.Spinlock.Cores.{
  Pc, idle, scan, drew, choose_wait, ticket_wait, critical, larger, Move, begin, look, take, show,
  skip, spin, see, stay, pass, enter, leave,
}

-- A core has a ticket; it is choosing.
abbrev pub holds : Pc → Bool
holds idle = false
holds (scan j m) = false
holds drew = true
holds (choose_wait j) = true
holds (ticket_wait j) = true
holds critical = true

abbrev pub chooses : Pc → Bool
chooses (scan j m) = true
chooses drew = true
chooses idle = false
chooses (choose_wait j) = false
chooses (ticket_wait j) = false
chooses critical = false

-- A core has let core `b` behind; it looks at the ticket of core `b`.
abbrev pub passed : Pc → ℕ → Bool
passed (choose_wait j) b = ltb b j
passed (ticket_wait j) b = ltb b j
passed critical b = true
passed idle b = false
passed (scan j m) b = false
passed drew b = false

abbrev pub watches : Pc → ℕ → Bool
watches (ticket_wait j) b = j == b
watches idle b = false
watches (scan j m) b = false
watches drew b = false
watches (choose_wait j) b = false
watches critical b = false

-- A core that still draws has not come to core `a` yet, or has seen its ticket `t`.
abbrev pub sees : Pc → ℕ → ℕ → Bool
sees (scan j m) a t = leb j a || leb t m
sees idle a t = true
sees drew a t = true
sees (choose_wait j) a t = true
sees (ticket_wait j) a t = true
sees critical a t = true

abbrev pub before : ℕ → ℕ → ℕ → ℕ → Bool
before a b t u = ltb t u || ((t == u) && ltb a b)

abbrev pub seen_max : Pc → ℕ
seen_max (scan j m) = m
seen_max idle = 0
seen_max drew = 0
seen_max (choose_wait j) = 0
seen_max (ticket_wait j) = 0
seen_max critical = 0

-- Core by core: the bound on the tickets is the number of tickets that were drawn.
pub record IsOwn (n : ℕ) (c t : ℕ) (p : Pc) : Type 0 where
  pub choosing : (c == 0) ≡ (if chooses p then false else true)
  pub ticket : holds p ≡ true → 0 < t
  pub small : t ≤ n
  pub seen : seen_max p ≤ n

-- Core `a` against another core `b`.
pub record IsApart (a b : ℕ) (t : ℕ) (p : Pc) (u : ℕ) (q : Pc) : Type 0 where
  pub sees : (passed p b || watches p b) ≡ true → sees q a t ≡ true
  pub before : passed p b ≡ true → holds q ≡ true → before a b t u ≡ true

pub Move-IsOwn :
    (i n k : ℕ) (x y : Spinlock) (p q : Pc)
    → Move i x p k y q
    → n + k < 2 ^ 32
    → ((j : ℕ) → x.ticket j ≤ n)
    → IsOwn n (x.choosing i) (x.ticket i) p
    → IsOwn (n + k) (y.choosing i) (y.ticket i) q
unfolding announce publish release
Move-IsOwn i n k x y p q (begin z) w t o = record {
  choosing = ground (arith, o.choosing);
  ticket = ground (arith, o.ticket);
  small = ground (arith, o.small);
  seen = ground (arith, o.seen);
}
Move-IsOwn i n k x y p q (look {j} {m} l z) w t o = record {
  choosing = ground (arith, o.choosing);
  ticket = ground (arith, o.ticket);
  small = ground (arith, o.small);
  seen = ground (arith, o.seen, t j);
}
Move-IsOwn i n k x y p q (take l z) w t o = record {
  choosing = ground (arith, o.choosing);
  ticket = ground (arith, o.ticket);
  small = ground (arith, o.small);
  seen = ground (arith, o.seen);
}
Move-IsOwn i n k x y p q (show z) w t o = record {
  choosing = ground (arith, o.choosing);
  ticket = ground (arith, o.ticket);
  small = ground (arith, o.small);
  seen = ground (arith, o.seen);
}
Move-IsOwn i n k x y p q (skip e z) w t o = record {
  choosing = ground (arith, o.choosing);
  ticket = ground (arith, o.ticket);
  small = ground (arith, o.small);
  seen = ground (arith, o.seen);
}
Move-IsOwn i n k x y p q (spin l e c z) w t o = record {
  choosing = ground (arith, o.choosing);
  ticket = ground (arith, o.ticket);
  small = ground (arith, o.small);
  seen = ground (arith, o.seen);
}
Move-IsOwn i n k x y p q (see l e c z) w t o = record {
  choosing = ground (arith, o.choosing);
  ticket = ground (arith, o.ticket);
  small = ground (arith, o.small);
  seen = ground (arith, o.seen);
}
Move-IsOwn i n k x y p q (stay c z) w t o = record {
  choosing = ground (arith, o.choosing);
  ticket = ground (arith, o.ticket);
  small = ground (arith, o.small);
  seen = ground (arith, o.seen);
}
Move-IsOwn i n k x y p q (pass c z) w t o = record {
  choosing = ground (arith, o.choosing);
  ticket = ground (arith, o.ticket);
  small = ground (arith, o.small);
  seen = ground (arith, o.seen);
}
Move-IsOwn i n k x y p q (enter e z) w t o = record {
  choosing = ground (arith, o.choosing);
  ticket = ground (arith, o.ticket);
  small = ground (arith, o.small);
  seen = ground (arith, o.seen);
}
Move-IsOwn i n k x y p q (leave z) w t o = record {
  choosing = ground (arith, o.choosing);
  ticket = ground (arith, o.ticket);
  small = ground (arith, o.small);
  seen = ground (arith, o.seen);
}

pub Move-spares :
    (i k : ℕ) (x y : Spinlock) (p q : Pc)
    → Move i x p k y q
    → (j : ℕ) → j ≢ i
    → (y.choosing j ≡ x.choosing j) × (y.ticket j ≡ x.ticket j)
unfolding announce publish release
Move-spares i k x y p q (begin z) j ne = (ground arith, ground arith)
Move-spares i k x y p q (look l z) j ne = (refl, refl)
Move-spares i k x y p q (take l z) j ne = (ground arith, ground arith)
Move-spares i k x y p q (show z) j ne = (ground arith, ground arith)
Move-spares i k x y p q (skip e z) j ne = (refl, refl)
Move-spares i k x y p q (spin l e c z) j ne = (refl, refl)
Move-spares i k x y p q (see l e c z) j ne = (refl, refl)
Move-spares i k x y p q (stay c z) j ne = (refl, refl)
Move-spares i k x y p q (pass c z) j ne = (refl, refl)
Move-spares i k x y p q (enter e z) j ne = (refl, refl)
Move-spares i k x y p q (leave z) j ne = (ground arith, ground arith)

-- What a core is to another after a step of its own.
pub Move-from :
    (a b n k : ℕ) (x y : Spinlock) (p p2 : Pc) (q : Pc)
    → Move a x p k y p2
    → a ≢ b
    → b < max_cores
    → IsOwn n (x.choosing b) (x.ticket b) q
    → IsApart a b (x.ticket a) p (x.ticket b) q
    → IsApart a b (y.ticket a) p2 (x.ticket b) q
unfolding announce publish release has_chosen goes_before
Move-from a b n k x y p p2 q (begin z) ne lt o i = record {
  sees = ground (arith, i.sees, o.choosing);
  before = ground (arith, i.before, o.ticket);
}
Move-from a b n k x y p p2 q (look l z) ne lt o i = record {
  sees = ground (arith, i.sees, o.choosing);
  before = ground (arith, i.before, o.ticket);
}
Move-from a b n k x y p p2 q (take l z) ne lt o i = record {
  sees = ground (arith, i.sees, o.choosing);
  before = ground (arith, i.before, o.ticket);
}
Move-from a b n k x y p p2 q (show z) ne lt o i = record {
  sees = ground (arith, i.sees, o.choosing);
  before = ground (arith, i.before, o.ticket);
}
Move-from a b n k x y p p2 q (skip e z) ne lt o i = record {
  sees = ground (arith, i.sees, o.choosing);
  before = ground (arith, i.before, o.ticket);
}
Move-from a b n k x y p p2 q (spin l e c z) ne lt o i = record {
  sees = ground (arith, i.sees, o.choosing);
  before = ground (arith, i.before, o.ticket);
}
Move-from a b n k x y p p2 q (see l e c z) ne lt o i = record {
  sees = ground (arith, i.sees, o.choosing);
  before = ground (arith, i.before, o.ticket);
}
Move-from a b n k x y p p2 q (stay c z) ne lt o i = record {
  sees = ground (arith, i.sees, o.choosing);
  before = ground (arith, i.before, o.ticket);
}
Move-from a b n k x y p p2 q (pass c z) ne lt o i = record {
  sees = ground (arith, i.sees, o.choosing);
  before = ground (arith, i.before, o.ticket);
}
Move-from a b n k x y p p2 q (enter e z) ne lt o i = record {
  sees = ground (arith, i.sees, o.choosing);
  before = ground (arith, i.before, o.ticket);
}
Move-from a b n k x y p p2 q (leave z) ne lt o i = record {
  sees = ground (arith, i.sees, o.choosing);
  before = ground (arith, i.before, o.ticket);
}

look-sees :
    (a b j m : ℕ) (x : Spinlock) (p : Pc)
    → IsApart a b (x.ticket a) p (x.ticket b) (scan j m)
    → (passed p b || watches p b) ≡ true
    → sees (scan (j + 1) (larger m (x.ticket j))) a (x.ticket a) ≡ true
look-sees a b j m x p i e = elim (Bool-cases (j == a)) [
  | inl same ↦ let t : x.ticket j ≡ x.ticket a = ap x.ticket (ground arith) in ground arith
  | inr other ↦ ground (arith, i.sees e)
]

-- What a core is to another that takes a step.
pub Move-to :
    (a b n k : ℕ) (x y : Spinlock) (p q q2 : Pc)
    → Move b x q k y q2
    → a ≢ b
    → a < max_cores
    → n + k < 2 ^ 32
    → IsOwn n (x.choosing b) (x.ticket b) q
    → IsApart a b (x.ticket a) p (x.ticket b) q
    → IsApart a b (x.ticket a) p (y.ticket b) q2
unfolding announce publish release has_chosen goes_before
Move-to a b n k x y p q q2 (begin z) ne lt w o i = record {
  sees = ground (arith, i.sees, i.before);
  before = ground (arith, i.before, i.sees, o.seen);
}
Move-to a b n k x y p q q2 (look {j} {m} l z) ne lt w o i = record {
  sees = look-sees a b j m x p i;
  before = λ e f. cc;
}
Move-to a b n k x y p q q2 (take {j} {m} l z) ne lt w o i = record {
  sees = ground (arith, i.sees, i.before);
  before = ground (arith, i.before, i.sees, o.seen);
}
Move-to a b n k x y p q q2 (show z) ne lt w o i = record {
  sees = ground (arith, i.sees, i.before);
  before = ground (arith, i.before, i.sees, o.seen);
}
Move-to a b n k x y p q q2 (skip e z) ne lt w o i = record {
  sees = ground (arith, i.sees, i.before);
  before = ground (arith, i.before, i.sees, o.seen);
}
Move-to a b n k x y p q q2 (spin l e c z) ne lt w o i = record {
  sees = ground (arith, i.sees, i.before);
  before = ground (arith, i.before, i.sees, o.seen);
}
Move-to a b n k x y p q q2 (see l e c z) ne lt w o i = record {
  sees = ground (arith, i.sees, i.before);
  before = ground (arith, i.before, i.sees, o.seen);
}
Move-to a b n k x y p q q2 (stay c z) ne lt w o i = record {
  sees = ground (arith, i.sees, i.before);
  before = ground (arith, i.before, i.sees, o.seen);
}
Move-to a b n k x y p q q2 (pass c z) ne lt w o i = record {
  sees = ground (arith, i.sees, i.before);
  before = ground (arith, i.before, i.sees, o.seen);
}
Move-to a b n k x y p q q2 (enter e z) ne lt w o i = record {
  sees = ground (arith, i.sees, i.before);
  before = ground (arith, i.before, i.sees, o.seen);
}
Move-to a b n k x y p q q2 (leave z) ne lt w o i = record {
  sees = ground (arith, i.sees, i.before);
  before = ground (arith, i.before, i.sees, o.seen);
}

pub IsOwn-le : (n m c t : ℕ) (p : Pc) → n ≤ m → IsOwn n c t p → IsOwn m c t p
IsOwn-le n m c t p e o = record {
  choosing = o.choosing;
  ticket = o.ticket;
  small = omega (arith, o.small);
  seen = omega (arith, o.seen);
}

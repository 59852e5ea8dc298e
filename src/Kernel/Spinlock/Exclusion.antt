-- ===== src/Kernel/Spinlock/Exclusion.antt =====
-- Mutual exclusion over every interleaving of the four cores.
use rpitos.Prelude.{
  ℕ, ◌+◌, ◌^◌, ◌<◌, ◌≡◌, ◌≢◌, true, false, ◌==◌, update, arith, refl, sym, inl, inr, Bool-cases,
}
use mathlib.Core.Path.{subst}
use rpitos.Kernel.State.{max_cores}
use rpitos.Kernel.Spinlock.{Spinlock}
use rpitos.Kernel.Spinlock.Cores.{Pc, critical, Move, System, ready, pick, Reach, start, later}
use rpitos.Kernel.Spinlock.Bakery.{
  IsOwn, IsApart, Move-IsOwn, Move-spares, Move-from, Move-to, IsOwn-le,
}

abbrev OwnAt : ℕ → Spinlock → (ℕ → Pc) → ℕ → Type 0
OwnAt n x pc i = IsOwn n (x.choosing i) (x.ticket i) (pc i)

abbrev ApartAt : Spinlock → (ℕ → Pc) → ℕ → ℕ → Type 0
ApartAt x pc a b = IsApart a b (x.ticket a) (pc a) (x.ticket b) (pc b)

record IsSafe (s : System) : Type 0 where
  own : (i : ℕ) → OwnAt s.drawn s.lock s.pc i
  apart : (a b : ℕ) → a ≢ b → a < max_cores → b < max_cores → ApartAt s.lock s.pc a b

ready-IsSafe : IsSafe ready
ready-IsSafe = record {
  own = λ i. record { choosing = refl; ticket = λ e. cc; small = omega arith; seen = omega arith };
  apart = λ a b ne l m. record { sees = λ e. cc; before = λ e f. cc };
}

here : (i : ℕ) (pc : ℕ → Pc) (p : Pc) → update pc i p i ≡ p
here i pc p = let e : (i == i) ≡ true = ground arith in rw e refl

elsewhere : (i j : ℕ) (pc : ℕ → Pc) (p : Pc) → j ≢ i → update pc i p j ≡ pc j
elsewhere i j pc p ne = let e : (j == i) ≡ false = ground arith in rw e refl

module _ (i k : ℕ) (s : System) (y : Spinlock) (p : Pc) (core : i < max_cores)
    (mv : Move i s.lock (s.pc i) k y p) (bound : s.drawn + k < 2 ^ 32) (safe : IsSafe s) where
  own-mover : OwnAt (s.drawn + k) y (update s.pc i p) i
  own-mover =
      subst (IsOwn (s.drawn + k) (y.choosing i) (y.ticket i)) (sym (here i s.pc p))
        (Move-IsOwn i s.drawn k s.lock y (s.pc i) p mv bound (λ j. (safe.own j).small) (safe.own i))

  own-other : (j : ℕ) → j ≢ i → OwnAt (s.drawn + k) y (update s.pc i p) j
  own-other j ne =
      let (c, t) = Move-spares i k s.lock y (s.pc i) p mv j ne in
      rw (elsewhere i j s.pc p ne, c, t)
        (IsOwn-le s.drawn (s.drawn + k) (s.lock.choosing j) (s.lock.ticket j) (s.pc j) (omega arith)
          (safe.own j))

  apart-from : (b : ℕ) → i ≢ b → b < max_cores → ApartAt y (update s.pc i p) i b
  apart-from b ne m =
      let ne2 : b ≢ i = λ e. ne (sym e) in
      let (c, t) = Move-spares i k s.lock y (s.pc i) p mv b ne2 in
      rw (elsewhere i b s.pc p ne2, here i s.pc p, t)
        (Move-from i b s.drawn k s.lock y (s.pc i) p (s.pc b) mv ne m (safe.own b)
          (safe.apart i b ne core m))

  apart-to : (a : ℕ) → a ≢ i → a < max_cores → ApartAt y (update s.pc i p) a i
  apart-to a ne l =
      let (c, t) = Move-spares i k s.lock y (s.pc i) p mv a ne in
      rw (elsewhere i a s.pc p ne, here i s.pc p, t)
        (Move-to a i s.drawn k s.lock y (s.pc a) (s.pc i) p mv ne l bound (safe.own i)
          (safe.apart a i ne l core))

  apart-others :
      (a b : ℕ)
      → a ≢ i
      → b ≢ i
      → a ≢ b
      → a < max_cores
      → b < max_cores
      → ApartAt y (update s.pc i p) a b
  apart-others a b na nb ne l m =
      let (_, ta) = Move-spares i k s.lock y (s.pc i) p mv a na in
      let (_, tb) = Move-spares i k s.lock y (s.pc i) p mv b nb in
      rw (elsewhere i a s.pc p na, elsewhere i b s.pc p nb, ta, tb) (safe.apart a b ne l m)

  moved-IsSafe : IsSafe (record { lock = y; pc = update s.pc i p; drawn = s.drawn + k })
  moved-IsSafe = record {
    own = λ j. elim (Bool-cases (j == i)) [
      | inl e ↦
          let same : i ≡ j = ground arith in
          subst (OwnAt (s.drawn + k) y (update s.pc i p)) same own-mover
      | inr e ↦ own-other j (ground arith)
    ];
    apart = λ a b ne l m. elim (Bool-cases (a == i)) [
      | inl e ↦
          let same : i ≡ a = ground arith in
          subst (λ x. x ≢ b → ApartAt y (update s.pc i p) x b) same (λ d. apart-from b d m) ne
      | inr e ↦ elim (Bool-cases (b == i)) [
        | inl f ↦
            let same : i ≡ b = ground arith in
            subst (λ x. a ≢ x → ApartAt y (update s.pc i p) a x) same (λ d. apart-to a d l) ne
        | inr f ↦ apart-others a b (ground arith) (ground arith) ne l m
      ]
    ];
  }

Reach-IsSafe : {s : System} → Reach s → s.drawn < 2 ^ 32 → IsSafe s
Reach-IsSafe start w = ready-IsSafe
Reach-IsSafe (later {s} r (pick i {k} {x} {p} core mv)) w =
    moved-IsSafe i k s x p core mv w (Reach-IsSafe r (omega arith))

-- In every state that the four cores reach from a lock after spinlock_init, by any interleaving of the accesses
-- of spinlock_acquire and spinlock_release, with fewer than 2^32 tickets drawn: two cores that are both between
-- the two calls are the same core.
pub spinlock-excludes :
    {s : System}
    → Reach s
    → s.drawn < 2 ^ 32
    → (a b : ℕ) → a < max_cores
    → b < max_cores
    → s.pc a ≡ critical
    → s.pc b ≡ critical
    → a ≡ b
spinlock-excludes {s} r w a b l m e f = elim (Bool-cases (a == b)) [
  | inl same ↦ ground arith
  | inr other ↦
      let safe = Reach-IsSafe r w in
      let i =
        subst (λ p. IsApart a b (s.lock.ticket a) p (s.lock.ticket b) (s.pc b)) e
          (safe.apart a b (ground arith) l m) in
      let j =
        subst (λ p. IsApart b a (s.lock.ticket b) p (s.lock.ticket a) (s.pc a)) f
          (safe.apart b a (ground arith) m l) in
      let x = i.before refl (rw f refl) in
      let y = j.before refl (rw e refl) in absurd (ground arith)
]

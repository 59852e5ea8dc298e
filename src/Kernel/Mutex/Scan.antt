-- ===== src/Kernel/Mutex/Scan.antt =====
-- The scan of mutex_unlock ends, at the first of the waiters of the highest priority and with the
-- highest priority of the others.
use rpitos.Prelude.{
  ℕ, zero, suc, ◌<◌, ◌≤◌, ◌≡◌, refl, sym, ap, ◌∙◌, true, Option, none, some, List, [], ◌∷◌, ◌++◌,
  arith, has, has-append, head_or, length, ltb, if◌then◌else◌, Bool-cases, inl, inr, ltb→lt,
}
use mathlib.Core.Path.{subst}
use mathlib.Core.List.{append_assoc, append-nil}
use rpitos.Kernel.State.{Kernel}
use rpitos.Kernel.Links.Chain.{IsSeg}
use rpitos.Kernel.Mutex.{better, scan, waiter_priority}

-- The highest value on a list, or 0.
abbrev pub highest : (ℕ → ℕ) → List ℕ → ℕ
highest f [] = 0
highest f (x ∷ xs) = if ltb (highest f xs) (f x) then f x else highest f xs

-- `best` is the first of the items with the highest value, and `second` the highest of the others.
pub record IsBest (f : ℕ → ℕ) (xs : List ℕ) (best second : ℕ) : Type 0 where
  pub front : List ℕ
  pub back : List ℕ
  pub parts : xs ≡ front ++ best ∷ back
  pub before : (a : ℕ) → has a front ≡ true → f a < f best
  pub behind : (a : ℕ) → has a back ≡ true → f a ≤ f best
  pub runner_up : second ≡ highest f (front ++ back)

highest-append :
    (f : ℕ → ℕ) (xs ys : List ℕ)
    → highest f (xs ++ ys)
      ≡ (if ltb (highest f ys) (highest f xs) then highest f xs else highest f ys)
highest-append f [] ys = ground arith
highest-append f (x ∷ xs) ys = ground (arith, highest-append f xs ys)

module _ (f : ℕ → ℕ) where
  IsBest-le :
      (xs : List ℕ) (best second : ℕ)
      → IsBest f xs best second
      → (a : ℕ) → has a xs ≡ true
      → f a ≤ f best
  IsBest-le xs best second v a h =
      let here : has a (v.front ++ best ∷ v.back) ≡ true = rw (← v.parts) h in
      ground (arith, has-append a v.front (best ∷ v.back), v.before a, v.behind a)

  -- What the best item leaves behind when another one takes its place.
  IsBest-all :
      (xs : List ℕ) (best second : ℕ)
      → IsBest f xs best second
      → highest f xs ≡ (if ltb second (f best) then f best else second)
  IsBest-all xs best second v =
      rw (v.parts, v.runner_up)
        (ground (arith, highest-append f v.front (best ∷ v.back), highest-append f v.front v.back))

  better-IsBest :
      (ys : List ℕ) (best second z : ℕ)
      → IsBest f ys best second
      → let (best', second') = better f z (best, second) in IsBest f (ys ++ z ∷ []) best' second'
  unfolding better
  better-IsBest ys best second z v = elim (Bool-cases (ltb (f best) (f z))) [
    | inl e ↦ rw e (record {
      front = ys;
      back = [];
      parts = refl;
      before = λ a h. omega (arith, IsBest-le ys best second v a h, ltb→lt (f best) (f z) e);
      behind = λ a h. absurd (ground arith);
      runner_up = sym (IsBest-all ys best second v) ∙ ap (highest f) (sym (append-nil ys));
    })
    | inr e ↦ rw e (record {
      front = v.front;
      back = v.back ++ z ∷ [];
      parts = ap (λ l. l ++ z ∷ []) v.parts ∙ append_assoc v.front (best ∷ v.back) (z ∷ []);
      before = v.before;
      behind = λ a h. ground (arith, has-append a v.back (z ∷ []), v.behind a);
      runner_up = rw (v.runner_up) (
          ground (
            arith,
            highest-append f v.front v.back,
            highest-append f v.front (v.back ++ z ∷ []),
            highest-append f v.back (z ∷ []),
          ));
    })
  ]

  -- An empty remainder, or one more round.
  first-IsBest : (x : ℕ) → IsBest f (x ∷ []) x 0
  first-IsBest x = record {
    front = [];
    back = [];
    parts = refl;
    before = λ a h. absurd (ground arith);
    behind = λ a h. absurd (ground arith);
    runner_up = refl;
  }

-- What the scan returns.
pub record Scans (f : ℕ → ℕ) (xs : List ℕ) (r : Option (ℕ × ℕ)) : Type 0 where
  pub best : ℕ
  pub second : ℕ
  pub result : r ≡ some (best, second)
  pub is_best : IsBest f xs best second

module _ (k : Kernel) (c : ℕ) where
  scan-Scans :
      (fuel best second : ℕ) (ys zs : List ℕ) (p : Option ℕ)
      → IsBest (waiter_priority k) ys best second
      → IsSeg k.links.item c p none zs
      → length zs ≤ fuel
      → Scans (waiter_priority k) (ys ++ zs) (scan fuel (head_or none zs) (best, second) k)
  unfolding scan
  scan-Scans fuel best second ys [] p v s room = record {
    best = best;
    second = second;
    result = refl;
    is_best = subst (λ l. IsBest (waiter_priority k) l best second) (sym (append-nil ys)) v;
  }
  scan-Scans zero best second ys (z ∷ zs) p v s room = absurd (omega arith)
  scan-Scans (suc fuel) best second ys (z ∷ zs) p v s room =
      let f = waiter_priority k in
      let (best', second') = better f z (best, second) in
      let rest =
        scan-Scans fuel best' second' (ys ++ z ∷ []) zs (some z)
          (better-IsBest f ys best second z v) s.3 (omega arith) in
      rw s.1 (
        subst (λ l. Scans f l (scan fuel (head_or none zs) (best', second') k))
          (append_assoc ys (z ∷ []) zs) rest)

  -- The whole scan, from the head of the list on.
  pub scan_all :
      (h : ℕ) (xs : List ℕ) (n : ℕ)
      → IsSeg k.links.item c none none (h ∷ xs)
      → length xs ≤ n
      → Scans (waiter_priority k) (h ∷ xs) (scan n (k.links.item h).next (h, 0) k)
  scan_all h xs n s room =
      rw s.1 (scan-Scans n h 0 (h ∷ []) xs (some h) (first-IsBest (waiter_priority k) h) s.3 room)

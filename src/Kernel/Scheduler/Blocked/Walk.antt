-- ===== src/Kernel/Scheduler/Blocked/Walk.antt =====
-- The walk of scheduler_add_to_blocked_list ends, behind the last task that wakes up no later.
use rpitos.Prelude.{
  ℕ, zero, suc, ◌/◌, ◌<◌, ◌≤◌, ◌≡◌, refl, true, Option, none, some, List, [], ◌∷◌, ◌++◌, arith, has,
  leb, leb→le, lt_of_leb, length, inl, inr, ap, Bool-cases,
}
use rpitos.Kernel.Links.Chain.{IsSeg}
use rpitos.Kernel.State.{Tcb, Kernel}
use rpitos.Kernel.Scheduler.Valid.{IsSorted, task_of}
use rpitos.Kernel.Scheduler.Blocked.{walk}

abbrev pub wake_time : (ℕ → Tcb) → ℕ → ℕ
wake_time f x = (f (task_of x)).wakeup_time

-- The first of the items, if any, wakes up after `w`.
abbrev pub IsLater : (ℕ → Tcb) → ℕ → List ℕ → Type 0
IsLater f w [] = Unit
IsLater f w (x ∷ xs) = w < wake_time f x

-- Where the walk ends.
pub record IsStop (f : ℕ → Tcb) (w : ℕ) (xs : List ℕ) (r : Option ℕ) : Type 0 where
  pub front : List ℕ
  pub last : ℕ
  pub back : List ℕ
  pub parts : xs ≡ front ++ last ∷ back
  pub result : r ≡ some last
  pub due : wake_time f last ≤ w
  pub later : IsLater f w back

module _ (k : Kernel) (c w : ℕ)
    (owners : (a : ℕ) → (k.links.item a).container ≡ some c → (k.links.item a).owner ≡ a / 2) where
  pub walk-IsStop :
      (fuel x : ℕ) (p : Option ℕ) (xs : List ℕ)
      → IsSeg k.links.item c p none (x ∷ xs)
      → length xs < fuel
      → wake_time k.tcb x ≤ w
      → IsStop k.tcb w (x ∷ xs) (walk fuel x w k)
  unfolding walk
  walk-IsStop zero x p xs s h due = absurd (omega arith)
  walk-IsStop (suc fuel) x p [] s h due = record {
    front = [];
    last = x;
    back = [];
    parts = refl;
    result = rw (s.1, walk);
    due = due;
    later = tt;
  }
  walk-IsStop (suc fuel) x p (y ∷ xs) s h due =
      let owner = owners y s.3.2 in
      elim (Bool-cases (leb (wake_time k.tcb y) w)) [
        | inl e ↦
            let rest =
              walk-IsStop fuel y (some x) xs s.3 (omega arith) (leb→le (wake_time k.tcb y) w e) in
            record {
              front = x ∷ rest.front;
              last = rest.last;
              back = rest.back;
              parts = ap (λ l. x ∷ l) rest.parts;
              result = rw (s.1, walk) (rw (owner, e) rest.result);
              due = rest.due;
              later = rest.later;
            }
        | inr e ↦ record {
          front = [];
          last = x;
          back = y ∷ xs;
          parts = refl;
          result = rw (s.1, walk) (rw (owner, e));
          due = due;
          later = lt_of_leb (wake_time k.tcb y) w e;
        }
      ]

-- An item goes behind one that wakes up no later and before those that wake up later.
pub IsSorted-insert :
    (f : ℕ → Tcb) (i last : ℕ) (front back : List ℕ)
    → IsSorted f (front ++ last ∷ back)
    → wake_time f last ≤ wake_time f i
    → IsLater f (wake_time f i) back
    → IsSorted f ((front ++ last ∷ []) ++ i ∷ back)
IsSorted-insert f i last [] [] s due later = (due, tt)
IsSorted-insert f i last [] (y ∷ back) s due later = (due, (omega arith, s.1))
IsSorted-insert f i last (x ∷ []) back s due later =
    (s.0, IsSorted-insert f i last [] back s.1 due later)
IsSorted-insert f i last (x ∷ y ∷ front) back s due later =
    (s.0, IsSorted-insert f i last (y ∷ front) back s.1 due later)

pub IsSorted-first :
    (f : ℕ → Tcb) (i x : ℕ) (xs : List ℕ)
    → wake_time f i ≤ wake_time f x
    → IsSorted f (x ∷ xs)
    → IsSorted f (i ∷ x ∷ xs)
IsSorted-first f i x xs h s = (h, s)

-- A change of tasks outside the list keeps it sorted.
pub IsSorted-frame :
    (f g : ℕ → Tcb) (xs : List ℕ)
    → ((a : ℕ) → has a xs ≡ true → wake_time g a ≡ wake_time f a)
    → IsSorted f xs
    → IsSorted g xs
IsSorted-frame f g [] same s = tt
IsSorted-frame f g (x ∷ []) same s = tt
IsSorted-frame f g (x ∷ y ∷ xs) same s = (
  rw (same x (ground arith), same y (ground arith)) s.0,
  IsSorted-frame f g (y ∷ xs) (λ a h. same a (ground arith)) s.1,
)

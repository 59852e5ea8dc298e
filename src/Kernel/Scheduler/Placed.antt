-- ===== src/Kernel/Scheduler/Placed.antt =====
-- Appends and removals keep the lists placed.
use rpitos.Prelude.{
  ℕ, ◌/◌, ◌<◌, ◌≡◌, true, false, none, List, [], ◌∷◌, ◌++◌, arith, ◌==◌, update, has, erase,
  Bool-cases, inl, inr,
}
use mathlib.Core.Path.{subst}
use rpitos.Kernel.Links.{Links, state_item, unlink, unlink_ready, push_back_ready, push_back}
use rpitos.Kernel.Links.Contents.{
  push_back_ready-Holds, push_back-Holds, unlink_ready-Holds, unlink-Holds,
}
use rpitos.Kernel.Links.Index.{IsTurn, push_back_ready-IsTurn, unlink_ready-IsTurn}
use rpitos.Kernel.Links.PushBack.{
  push_back_ready_keeps, list-push_back_ready_ne, push_back_keeps, list-push_back_ne,
}
use rpitos.Kernel.Links.Unlink.{
  unlink_ready_keeps, unlink_keeps, list-unlink_ready_ne, list-unlink_ne, prev_ne,
}
use rpitos.Kernel.State.{num_task_priorities, max_cores, ready_list}
use rpitos.Kernel.Scheduler.Valid.{IsPlaced, NotReady, item_end, task_of, room}

-- The turns after a change to one list.
turns_of_update :
    (m m' : Links) (s : ℕ → List ℕ) (v : IsPlaced m s) (c : ℕ) (xs : List ℕ)
    → IsTurn xs (m'.list c).index
    → ((d : ℕ) → (d == c) ≡ false → m'.list d ≡ m.list d)
    → (core p : ℕ) → core < max_cores
    → p < num_task_priorities
    → IsTurn (update s c xs (ready_list core p)) (m'.list (ready_list core p)).index
turns_of_update m m' s v c xs new others core p cb b = elim (Bool-cases (ready_list core p == c)) [
  | inl e ↦ rw e (subst (λ d. IsTurn xs (m'.list d).index) (ground arith) new)
  | inr e ↦ rw (e, others (ready_list core p) e) (v.turns core p cb b)
]

pub turns_elsewhere :
    (m m' : Links) (s : ℕ → List ℕ) (v : IsPlaced m s) (c : ℕ) (xs : List ℕ)
    → NotReady c
    → ((d : ℕ) → (d == c) ≡ false → m'.list d ≡ m.list d)
    → (core p : ℕ) → core < max_cores
    → p < num_task_priorities
    → IsTurn (update s c xs (ready_list core p)) (m'.list (ready_list core p)).index
turns_elsewhere m m' s v c xs other others core p cb b =
    elim (Bool-cases (ready_list core p == c)) [
      | inl e ↦ absurd (other core p cb b (ground arith))
      | inr e ↦ rw (e, others (ready_list core p) e) (v.turns core p cb b)
    ]

module _ (m : Links) (s : ℕ → List ℕ) (v : IsPlaced m s) (i l : ℕ) where
  module _ (owner : ℕ) (small : i < item_end) (kind : l < 28 → i ≡ state_item (task_of i))
      (own : owner ≡ i / 2) (free : (m.item i).container ≡ none) where
    pub push_back_ready-IsPlaced :
        (core p : ℕ)
        → core < max_cores
        → p < num_task_priorities
        → l ≡ ready_list core p
        → IsPlaced (push_back_ready i owner l m) (update s l (s l ++ i ∷ []))
    push_back_ready-IsPlaced core p cb b is = record {
      holds = push_back_ready-Holds m s v.holds i l owner free own (room v l);
      bounded = λ a c e.
          ground (
            arith,
            push_back_ready_keeps m i owner l (s l) (v.holds.lists l) free a,
            v.bounded a c,
          );
      states = λ a c h e.
          ground
            (arith, push_back_ready_keeps m i owner l (s l) (v.holds.lists l) free a, v.states a c);
      turns =
          turns_of_update m (push_back_ready i owner l m) s v l (s l ++ i ∷ [])
            (push_back_ready-IsTurn i l m (s l) (v.holds.lists l) owner
              (rw is (v.turns core p cb b)))
            (list-push_back_ready_ne i owner l m);
    }

    pub push_back-IsPlaced :
        NotReady l → IsPlaced (push_back i owner l m) (update s l (s l ++ i ∷ []))
    push_back-IsPlaced other = record {
      holds = push_back-Holds m s v.holds i l owner free own (room v l);
      bounded = λ a c e.
          ground (arith, push_back_keeps m i owner l (s l) (v.holds.lists l) free a, v.bounded a c);
      states = λ a c h e.
          ground (arith, push_back_keeps m i owner l (s l) (v.holds.lists l) free a, v.states a c);
      turns =
          turns_elsewhere m (push_back i owner l m) s v l (s l ++ i ∷ []) other
            (list-push_back_ne i owner l m);
    }

  module _ (h : has i (s l) ≡ true) where
    pub unlink_ready-IsPlaced :
        (core p : ℕ)
        → core < max_cores
        → p < num_task_priorities
        → l ≡ ready_list core p
        → IsPlaced (unlink_ready i l m) (update s l (erase i (s l)))
    unlink_ready-IsPlaced core p cb b is = record {
      holds = unlink_ready-Holds m s v.holds i l h;
      bounded = λ a c e.
          ground (arith, unlink_ready_keeps m i l (s l) (v.holds.lists l) h a, v.bounded a c);
      states = λ a c k e.
          ground (arith, unlink_ready_keeps m i l (s l) (v.holds.lists l) h a, v.states a c);
      turns =
          turns_of_update m (unlink_ready i l m) s v l (erase i (s l))
            (unlink_ready-IsTurn i l m (s l) (v.holds.lists l) h (rw is (v.turns core p cb b)))
            (list-unlink_ready_ne i l m (prev_ne m i l (s l) (v.holds.lists l) h));
    }

    pub unlink-IsPlaced : NotReady l → IsPlaced (unlink i l m) (update s l (erase i (s l)))
    unlink-IsPlaced other = record {
      holds = unlink-Holds m s v.holds i l h;
      bounded =
          λ a c e. ground (arith, unlink_keeps m i l (s l) (v.holds.lists l) h a, v.bounded a c);
      states =
          λ a c k e. ground (arith, unlink_keeps m i l (s l) (v.holds.lists l) h a, v.states a c);
      turns =
          turns_elsewhere m (unlink i l m) s v l (erase i (s l)) other
            (list-unlink_ne i l m (prev_ne m i l (s l) (v.holds.lists l) h));
    }

-- ===== src/Kernel/Scheduler/Switch/Turn.antt =====
-- The turn of a ready list moves on: `rotate` and `yield_current`.
use rpitos.Prelude.{
  ℕ, ◌<◌, ◌≡◌, refl, true, Option, none, some, List, arith, ◌==◌, has, ◌≢◌, ◌&&◌, ltb, Option-cases,
  Bool-cases, inl, inr, sym,
}
use mathlib.Core.Path.{subst}
use rpitos.Kernel.Links.{Links, set_index, state_item}
use rpitos.Kernel.Links.Chain.{IsList}
use rpitos.Kernel.Links.Index.{IsTurn, successor, successor-IsTurn, next-eq-after, or_else, after}
use rpitos.Kernel.State.{
  ready, running, in_ready, is_running, num_task_priorities, max_cores, Kernel, ready_list,
  set_state, blocked_task_list, set_links,
}
use rpitos.Kernel.Scheduler.Valid.{IsPlaced, IsValid, IsSorted-map}
use rpitos.Kernel.Scheduler.Switch.{rotate, yield_current}

set_index-IsList :
    (m : Links) (l : ℕ) (o : Option ℕ) (c : ℕ) (xs : List ℕ)
    → IsList m c xs
    → IsList (set_index l o m) c xs
set_index-IsList m l o c xs h = record {
  head = ground (arith, h.head);
  list_end = ground (arith, h.list_end);
  count = ground (arith, h.count);
  small = h.small;
  chain = h.chain;
  distinct = h.distinct;
  complete = h.complete;
}

-- The item whose turn it is after a rotation.
pub index-rotate :
    (m : Links) (l i : ℕ) (xs : List ℕ)
    → IsList m l xs
    → (m.list l).index ≡ some i
    → has i xs ≡ true
    → rotate l m ≡ set_index l (successor i xs) m
unfolding rotate successor
index-rotate m l i xs h e mem =
    let next = next-eq-after m.item l i none none xs h.chain mem in
    rw (e, rotate) (rw (next, or_else (m.list l).head (after i xs), h.head))

rotate-none : (m : Links) (l : ℕ) → (m.list l).index ≡ none → rotate l m ≡ m
unfolding rotate
rotate-none m l e = rw (e, rotate)

set_index-IsPlaced :
    (m : Links) (s : ℕ → List ℕ) (l : ℕ) (o : Option ℕ)
    → IsPlaced m s
    → IsTurn (s l) o
    → IsPlaced (set_index l o m) s
set_index-IsPlaced m s l o v t = record {
  holds = record {
    lists = λ c. set_index-IsList m l o c (s c) (v.holds.lists c);
    owners = v.holds.owners;
  };
  bounded = v.bounded;
  states = v.states;
  turns = λ core p cb b. elim (Bool-cases (ready_list core p == l)) [
    | inl e ↦ rw e (subst (λ d. IsTurn (s d) o) (ground arith) t)
    | inr e ↦ rw e (v.turns core p cb b)
  ];
}

pub rotate-IsPlaced :
    (m : Links) (s : ℕ → List ℕ) (core p : ℕ)
    → IsPlaced m s
    → core < max_cores
    → p < num_task_priorities
    → IsPlaced (rotate (ready_list core p) m) s
rotate-IsPlaced m s core p v cb b =
    let l = ready_list core p in
    elim (Option-cases (m.list l).index) [
      | inl e ↦ subst (λ x. IsPlaced x s) (sym (rotate-none m l e)) v
      | inr (i, e) ↦
          let here : has i (s l) ≡ true = subst (IsTurn (s l)) e (v.turns core p cb b) in
          let moved = index-rotate m l i (s l) (v.holds.lists l) e here in
          subst (λ x. IsPlaced x s) (sym moved)
            (set_index-IsPlaced m s l (successor i (s l)) v (successor-IsTurn i (s l)))
    ]

pub item-rotate : (m : Links) (l a : ℕ) → (rotate l m).item a ≡ m.item a
unfolding rotate
item-rotate m l a = ground arith

-- No task of the core is RUNNING.
abbrev pub IsIdle : Kernel → ℕ → Type 0
IsIdle k core = (t : ℕ) → (k.tcb t).core_id ≡ core → (k.tcb t).current_state ≢ running

module _ (k : Kernel) (s : ℕ → List ℕ) (v : IsValid k s) (core : ℕ) (cb : core < max_cores) where
  stopped-IsValid :
      (t p : ℕ)
      → p < num_task_priorities
      → in_ready (k.tcb t).current_state ≡ true
      → IsValid (set_links (rotate (ready_list core p) k.links) (set_state t ready k)) s
  stopped-IsValid t p b st = record {
    placed = rotate-IsPlaced k.links s core p v.placed cb b;
    listed = λ u c q qb b' e.
        ground
          (arith, item-rotate k.links (ready_list core p) (state_item u), v.listed u c q qb b');
    blocked = λ u c qb e.
        ground (arith, item-rotate k.links (ready_list core p) (state_item u), v.blocked u c qb);
    sorted = λ c qb.
        IsSorted-map k.tcb (set_state t ready k).tcb (s (blocked_task_list c)) (λ u. ground arith)
          (v.sorted c qb);
    current = λ u e. ground (arith, v.current u);
  }

  yield_cases :
      (o : Option ℕ)
      → k.current core ≡ o
      → IsValid (yield_current core o k) s × IsIdle (yield_current core o k) core
  unfolding yield_current
  yield_cases none e = (v, λ u on run. ground (arith, v.current u run))
  yield_cases (some t) e =
      elim (Bool-cases
        (is_running (k.tcb t).current_state && ltb (k.tcb t).priority num_task_priorities)) [
          | inl r ↦ rw r (
            stopped-IsValid t (k.tcb t).priority (ground arith) (ground arith),
            λ u on run. ground (arith, v.current u),
          )
          | inr r ↦ rw r (v, λ u on run. ground (arith, v.current u run))
        ]

  -- The switch's first half keeps the state well formed, and leaves no task of the core RUNNING.
  pub yield_current-IsValid :
      IsValid (yield_current core (k.current core) k) s
      × IsIdle (yield_current core (k.current core) k) core
  yield_current-IsValid = yield_cases (k.current core) refl

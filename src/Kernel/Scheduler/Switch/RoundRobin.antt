-- ===== src/Kernel/Scheduler/Switch/RoundRobin.antt =====
-- Round robin: the task that used up its quantum is followed by its successor in the list.
use rpitos.Prelude.{
  ℕ, ◌<◌, ◌≡◌, ◌≢◌, refl, false, some, List, [], arith, has, Bool-cases, inl, inr, ◌∙◌, ap, sym,
  ltb, lt→ltb,
}
use mathlib.Core.Path.{subst}
use rpitos.Status.{Run, done}
use rpitos.Kernel.Links.{state_item}
use rpitos.Kernel.Links.Index.{successor}
use rpitos.Kernel.State.{running, num_task_priorities, max_cores, Kernel, ready_list}
use rpitos.Kernel.Scheduler.Valid.{IsValid}
use rpitos.Kernel.Scheduler.Switch.{switch_context, yield_current, stack_overwritten}
use rpitos.Kernel.Scheduler.Switch.Turn.{index-rotate}
use rpitos.Kernel.Scheduler.Switch.Pick.{IsChosen, Picked, picked, nothing, switch_context-Picked}

-- The task `t` runs and has its turn in the highest list of the core that is not empty.
pub record IsRunningTurn (k : Kernel) (s : ℕ → List ℕ) (core p t : ℕ) : Type 0 where
  pub current : k.current core ≡ some t
  pub state : (k.tcb t).current_state ≡ running
  pub priority : (k.tcb t).priority ≡ p
  pub chosen : IsChosen k s core p t

-- The next task.
pub record IsNext (s : ℕ → List ℕ) (core p t : ℕ) (r : Run Kernel) : Type 0 where
  pub state : Kernel
  pub task : ℕ
  pub result : r ≡ done state
  pub current : state.current core ≡ some task
  pub running : (state.tcb task).current_state ≡ running
  pub next : successor (state_item t) (s (ready_list core p)) ≡ some (state_item task)

not_empty :
    (k : Kernel) (s : ℕ → List ℕ) (core p t : ℕ)
    → IsChosen k s core p t
    → s (ready_list core p) ≢ []
not_empty k s core p t c e =
    let none_there = ap (has (state_item t)) e in ground (arith, c.here, none_there)

-- Only one priority is chosen.
same_priority :
    (k k' : Kernel) (s : ℕ → List ℕ) (core p q t u : ℕ)
    → IsChosen k s core p t
    → IsChosen k' s core q u
    → q ≡ p
same_priority k k' s core p q t u c d = elim (Bool-cases (ltb q p)) [
  | inl e ↦ absurd (not_empty k s core p t c (d.highest p (ground arith) c.below))
  | inr e ↦ elim (Bool-cases (ltb p q)) [
    | inl e' ↦ absurd (not_empty k' s core q u d (c.highest q (ground arith) d.below))
    | inr e' ↦ ground arith
  ]
]

module _ (k : Kernel) (s : ℕ → List ℕ) (core p t : ℕ) (v : IsValid k s)
    (run : IsRunningTurn k s core p t) where
  turn_after :
      ((yield_current core (k.current core) k).links.list (ready_list core p)).index
      ≡ successor (state_item t) (s (ready_list core p))
  unfolding yield_current
  turn_after =
      let l = ready_list core p in
      let moved =
        index-rotate k.links l (state_item t) (s l) (v.placed.holds.lists l) run.chosen.turn
          run.chosen.here in
      rw (run.current, run.state, run.priority)
        (rw (lt→ltb p num_task_priorities run.chosen.below, moved) (ground arith))

  IsNext-pick :
      (r : Run Kernel)
      → Picked (yield_current core (k.current core) k) s core r
      → IsNext s core p t r
  IsNext-pick r (picked k' q u c cur st v') =
      let is =
        same_priority k (yield_current core (k.current core) k) s core p q t u run.chosen c in
      record {
        state = k';
        task = u;
        result = refl;
        current = cur;
        running = st;
        next =
            sym turn_after
            ∙ subst
                (λ j.
                  ((yield_current core (k.current core) k).links.list (ready_list core j)).index
                  ≡ some (state_item u))
                is c.turn;
      }
  IsNext-pick r (nothing k' empty cur v') =
      absurd (not_empty k s core p t run.chosen (empty p run.chosen.below))

  -- The switch away from a task that used up its quantum, in its turn at the highest priority
  -- that has tasks, dispatches the task whose item follows in the same list, or else the first.
  pub switch_context-successor :
      core < max_cores
      → stack_overwritten (k.current core) k ≡ false
      → IsNext s core p t (switch_context core k)
  switch_context-successor cb whole =
      IsNext-pick (switch_context core k) (switch_context-Picked k s core v cb whole)

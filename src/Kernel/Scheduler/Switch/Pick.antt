-- ===== src/Kernel/Scheduler/Switch/Pick.antt =====
-- What scheduler_switch_context picks: the turn of the highest list that is not empty.
use rpitos.Prelude.{
  ℕ, zero, suc, ◌<◌, ◌≤◌, ◌≡◌, ◌≢◌, refl, true, false, none, some, List, [], ◌∷◌, arith, ◌==◌,
  update, has, length, Bool-cases, Option-cases, inl, inr, ◌∙◌, ap, sym, ltb,
}
use mathlib.Core.Path.{subst}
use rpitos.Status.{Run, done}
use rpitos.Kernel.Links.{state_item}
use rpitos.Kernel.Links.Contents.{has-container}
use rpitos.Kernel.Links.Index.{IsTurn}
use rpitos.Kernel.State.{
  running, num_task_priorities, max_cores, Kernel, ready_list, set_state, blocked_task_list,
}
use rpitos.Kernel.Scheduler.Valid.{IsValid, IsSorted-map, task_of}
use rpitos.Kernel.Scheduler.Switch.{
  dispatch, pick, switch_context, yield_current, stack_overwritten,
}
use rpitos.Kernel.Scheduler.Switch.Turn.{IsIdle, yield_current-IsValid}

-- Task `t` has its turn in the highest list of the core that is not empty.
pub record IsChosen (k : Kernel) (s : ℕ → List ℕ) (core p t : ℕ) : Type 0 where
  pub below : p < num_task_priorities
  pub here : has (state_item t) (s (ready_list core p)) ≡ true
  pub turn : (k.links.list (ready_list core p)).index ≡ some (state_item t)
  pub highest : (q : ℕ) → p < q → q < num_task_priorities → s (ready_list core q) ≡ []

-- The outcome of a pick over `k`.
pub data Picked (k : Kernel) (s : ℕ → List ℕ) (core : ℕ) : Run Kernel → Type 0 where
  picked :
      (k' : Kernel) (p t : ℕ)
      → IsChosen k s core p t
      → k'.current core ≡ some t
      → (k'.tcb t).current_state ≡ running
      → IsValid k' s
      → Picked k s core (done k')
  nothing :
      (k' : Kernel)
      → ((q : ℕ) → q < num_task_priorities → s (ready_list core q) ≡ [])
      → k'.current core ≡ none
      → IsValid k' s
      → Picked k s core (done k')

-- The task `t` runs from now on.
abbrev pub run_task : ℕ → Kernel → ℕ → Kernel
run_task core k t = record (set_state t running k) { current = update k.current core (some t) }

no_items : (xs : List ℕ) → length xs ≡ 0 → xs ≡ []
no_items [] h = refl
no_items (x ∷ xs) h = absurd (omega arith)

module _ (k : Kernel) (s : ℕ → List ℕ) (v : IsValid k s) (core : ℕ) (cb : core < max_cores)
    (idle : IsIdle k core) where
  pub run_task-IsValid :
      (t p : ℕ)
      → p < num_task_priorities
      → (k.links.item (state_item t)).container ≡ some (ready_list core p)
      → IsValid (run_task core k t) s
  run_task-IsValid t p b h = record {
    placed = v.placed;
    listed = λ u c q qb b' e. ground (arith, v.listed u c q qb b');
    blocked = λ u c qb e. ground (arith, v.blocked u c qb);
    sorted = λ c qb.
        IsSorted-map k.tcb (run_task core k t).tcb (s (blocked_task_list c)) (λ u. ground arith)
          (v.sorted c qb);
    current = λ u e. ground (arith, v.current u, v.listed t core p cb b h, idle u);
  }

  dispatch-done :
      (l i t : ℕ)
      → (k.links.list l).index ≡ some i
      → (k.links.item i).owner ≡ t
      → dispatch core l k ≡ done (run_task core k t)
  unfolding dispatch
  dispatch-done l i t e o = rw (e, dispatch) (rw o)

  module _ (p : ℕ) (b : p < num_task_priorities)
      (above : (q : ℕ) → p < q → q < num_task_priorities → s (ready_list core q) ≡ []) where
    dispatch_turn :
        (i : ℕ)
        → (k.links.list (ready_list core p)).index ≡ some i
        → Picked k s core (dispatch core (ready_list core p) k)
    dispatch_turn i e =
        let l = ready_list core p in
        let here : has i (s l) ≡ true = subst (IsTurn (s l)) e (v.placed.turns core p cb b) in
        let inside = has-container v.placed.holds i l here in
        let t = task_of i in
        let is : i ≡ state_item t = v.placed.states i l (omega arith) inside in
        subst (Picked k s core) (sym (dispatch-done l i t e (v.placed.holds.owners i l inside))) (
          picked (run_task core k t) p t
            (record {
              below = b;
              here = subst (λ j. has j (s l) ≡ true) is here;
              turn = e ∙ ap some is;
              highest = above;
            })
            (ground arith) (ground arith)
            (run_task-IsValid t p b (subst (λ j. (k.links.item j).container ≡ some l) is inside)))

    dispatch-Picked :
        s (ready_list core p) ≢ [] → Picked k s core (dispatch core (ready_list core p) k)
    dispatch-Picked some_task = elim (Option-cases (k.links.list (ready_list core p)).index) [
      | inl e ↦
          absurd (some_task (subst (IsTurn (s (ready_list core p))) e (v.placed.turns core p cb b)))
      | inr (i, e) ↦ dispatch_turn i e
    ]

  none_left :
      ((q : ℕ) → q < num_task_priorities → s (ready_list core q) ≡ [])
      → Picked k s core (pick core zero k)
  unfolding pick
  none_left empty =
      nothing (record k { current = update k.current core none }) empty (ground arith)
        (record {
          placed = v.placed;
          listed = v.listed;
          blocked = v.blocked;
          sorted = v.sorted;
          current = λ u e. ground (arith, v.current u, idle u);
        })

  pub pick-Picked :
      (n : ℕ)
      → n ≤ num_task_priorities
      → ((q : ℕ) → n ≤ q → q < num_task_priorities → s (ready_list core q) ≡ [])
      → Picked k s core (pick core n k)
  unfolding pick
  pick-Picked zero h above = none_left (λ q. above q (omega arith))
  pick-Picked (suc n) h above =
      let l = ready_list core n in
      let count = (v.placed.holds.lists l).count in
      elim (Bool-cases (ltb 0 (k.links.list l).num_items)) [
        | inl e ↦ rw e (dispatch-Picked n h above (λ empty. ground (arith, count, ap length empty)))
        | inr e ↦ rw e (
            pick-Picked n (omega arith) (λ q hq b. elim (Bool-cases (q == n)) [
              | inl is ↦
                  subst (λ j. s (ready_list core j) ≡ []) (ground arith)
                    (no_items (s l) (ground (arith, count)))
              | inr ne ↦ above q (ground arith) b
            ]))
      ]

-- scheduler_switch_context, on a task whose stack is whole, never faults: it dispatches the task whose turn it is in
-- the highest list that is not empty, or no task if all are empty, and keeps the state well formed.
pub switch_context-Picked :
    (k : Kernel) (s : ℕ → List ℕ) (core : ℕ)
    → IsValid k s
    → core < max_cores
    → stack_overwritten (k.current core) k ≡ false
    → Picked (yield_current core (k.current core) k) s core (switch_context core k)
unfolding switch_context
switch_context-Picked k s core v cb whole =
    let (v', idle) = yield_current-IsValid k s v core cb in
    rw whole (
      pick-Picked (yield_current core (k.current core) k) s v' core cb idle num_task_priorities
        (omega arith) (λ q h b. absurd (omega arith)))

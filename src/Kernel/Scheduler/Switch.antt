-- ===== src/Kernel/Scheduler/Switch.antt =====
-- The context switch of source/kernel/scheduler/scheduler.c.
pub mod Turn
pub mod Pick
pub mod RoundRobin
use rpitos.Prelude.{
  ℕ, zero, suc, Bool, true, false, not, ◌&&◌, Option, none, some, List, [], ◌∷◌, ltb, ◌==◌,
  if◌then◌else◌, is_some, update,
}
use rpitos.Status.{Status, e_ok, e_empty, Run, done, fault, spin, ◌>>=◌}
use rpitos.Kernel.Links.{Links, set_index}
use rpitos.Kernel.State.{
  ready, running, is_running, num_task_priorities, task_watermark, Kernel, ready_list, set_links,
  set_state,
}

-- `stack_base[0] != TASK_WATERMARK`. A buffer of no words counts as overwritten.
abbrev pub overflowed : Option (List ℕ) → Bool
overflowed none = false
overflowed (some []) = true
overflowed (some (w ∷ _)) = not (w == task_watermark)

-- `list->index = (list->index->next != NULL) ? list->index->next : list->head`
unfoldable pub rotate : ℕ → Links → Links
rotate l m = elim ((m.list l).index) [
  | none ↦ m
  | some i ↦ set_index l (elim ((m.item i).next) [ none ↦ (m.list l).head | some n ↦ some n ]) m
]

-- A task that used up its quantum becomes ready, and its list moves on.
unfoldable pub yield_current : ℕ → Option ℕ → Kernel → Kernel
unfolding rotate
yield_current core none k = k
yield_current core (some t) k =
    if is_running (k.tcb t).current_state && ltb (k.tcb t).priority num_task_priorities
    then set_links (rotate (ready_list core (k.tcb t).priority) k.links) (set_state t ready k)
    else k

-- `ready_list[i].index->owner` becomes the running task.
unfoldable pub dispatch : ℕ → ℕ → Kernel → Run Kernel
dispatch core l k = elim ((k.links.list l).index) [
  | none ↦ fault
  | some i ↦
      let t = (k.links.item i).owner in
      done (record (set_state t running k) { current = update k.current core (some t) })
]

-- The loop over the priorities, from `n - 1` down.
unfoldable pub pick : ℕ → ℕ → Kernel → Run Kernel
unfolding dispatch
pick core zero k = done (record k { current = update k.current core none })
pick core (suc n) k =
    let rest = pick core n k in
    if ltb 0 (k.links.list (ready_list core n)).num_items
    then dispatch core (ready_list core n) k
    else rest

-- The stack check of scheduler_switch_context, on the task that was running.
unfoldable pub stack_overwritten : Option ℕ → Kernel → Bool
stack_overwritten none k = false
stack_overwritten (some t) k = overflowed (k.tcb t).stack

unfoldable pub switch_context : ℕ → Kernel → Run Kernel
unfolding stack_overwritten yield_current pick
switch_context core k =
    if stack_overwritten (k.current core) k
    then spin
    else pick core num_task_priorities (yield_current core (k.current core) k)

-- What comes after the switch, start_first_task(), is assembly.
unfoldable pub start : ℕ → Kernel → Run (Status × Kernel)
unfolding switch_context
start core k =
    switch_context core k >>= λ k1. done (if is_some (k1.current core) then e_ok else e_empty, k1)

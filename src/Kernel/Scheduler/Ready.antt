-- ===== src/Kernel/Scheduler/Ready.antt =====
-- The ready lists of source/kernel/scheduler/scheduler.c.
pub mod Valid
pub mod Priority
use rpitos.Prelude.{ℕ, Bool, false, ◌||◌, Option, none, some, leb, ◌==◌, if◌then◌else◌}
use rpitos.Status.{Status, e_ok, e_invalid_args}
use rpitos.Kernel.Links.{in_list, state_item, unlink_ready, push_back_ready}
use rpitos.Kernel.State.{
  ready, in_ready, num_task_priorities, max_cores, Tcb, Kernel, ready_list, set_links, set_tcb,
  set_state,
}

-- `(*tcb)->priority >= NUM_TASK_PRIORITIES || (*tcb)->core_id >= COMPANION_CORE_MAX_CORES`
abbrev pub out_of_range : Tcb → Bool
out_of_range t = leb num_task_priorities t.priority || leb max_cores t.core_id

abbrev pub own_ready_list : Tcb → ℕ
own_ready_list t = ready_list t.core_id t.priority

unfoldable pub enqueue : ℕ → Kernel → Kernel
enqueue t k =
    set_state t ready
      (set_links (push_back_ready (state_item t) t (own_ready_list (k.tcb t)) k.links) k)

unfoldable pub add_to_ready_list : Option ℕ → Kernel → Status × Kernel
unfolding enqueue
add_to_ready_list none k = (e_invalid_args, k)
add_to_ready_list (some t) k =
    if out_of_range (k.tcb t) then (e_invalid_args, k) else (e_ok, enqueue t k)

unfoldable pub remove_from_ready_list : Option ℕ → Kernel → Status × Kernel
remove_from_ready_list none k = (e_invalid_args, k)
remove_from_ready_list (some t) k =
    let i = state_item t in
    let l = own_ready_list (k.tcb t) in
    if out_of_range (k.tcb t)
    then (e_invalid_args, k)
    else if in_list (k.links.item i).container l
    then (e_ok, set_links (unlink_ready i l k.links) k)
    else (e_invalid_args, k)

-- The task leaves its ready list, if it is in one.
abbrev pub leave_list : ℕ → Kernel → Kernel
leave_list t k = elim ((k.links.item (state_item t)).container) [
  | none ↦ k
  | some l ↦ set_links (unlink_ready (state_item t) l k.links) k
]

abbrev pub set_priority : ℕ → ℕ → Kernel → Kernel
set_priority t p k = set_tcb t (record (k.tcb t) { priority = p }) k

unfoldable pub change_task_priority : ℕ → ℕ → Kernel → Kernel
unfolding add_to_ready_list
change_task_priority t p k =
    let saved_state = (k.tcb t).current_state in
    if in_ready saved_state
    then set_state t saved_state (add_to_ready_list (some t) (set_priority t p (leave_list t k))).1
    else set_priority t p k

-- ===== src/Kernel/Task.antt =====
-- task_create of source/kernel/task/task.c. The words of a stack are a list from `stack_base` on; the code
-- addresses of the task function and of task_exit_trap are arguments.
pub mod Stack
mod Tests
use rpitos.Prelude.{
  ℕ, zero, suc, ◌+◌, ◌-◌, ◌*◌, ◌%◌, ◌^◌, Option, none, some, List, [], ◌∷◌, ◌++◌, leb,
  if◌then◌else◌, ◌==◌, update,
}
use rpitos.Status.{Status, e_ok, e_out_of_mem, e_resource_exhausted, Run, done, fault}
use rpitos.Kernel.Links.{state_item, event_item, set_item, ListItem}
use rpitos.Kernel.State.{
  Kernel, Tcb, ready, no_reason, task_watermark, max_num_tasks, num_task_priorities, pool_tcb,
  set_links, set_tcb,
}
use rpitos.Kernel.Scheduler.Ready.{add_to_ready_list}
use rpitos.Kernel.Heap.{malloc}

abbrev pub copies : ℕ → ℕ → List ℕ
copies zero w = []
copies (suc n) w = w ∷ copies n w

-- The sixteen words of task_init_stack, from the top of the stack on: r0 to r12, lr, pc and spsr.
unfoldable pub frame : (task_function exit_trap params : ℕ) → List ℕ
frame task_function exit_trap params = params ∷ copies 12 0 ++ exit_trap ∷ task_function ∷ 0x13 ∷ []

-- The watermarks with the frame over the last of them. A smaller stack is written out of its bounds.
unfoldable pub init_stack : (stack_depth task_function exit_trap params : ℕ) → Option (List ℕ)
unfolding frame
init_stack stack_depth task_function exit_trap params =
    if leb 16 stack_depth
    then some (copies (stack_depth - 16) task_watermark ++ frame task_function exit_trap params)
    else none

abbrev pub free_item : ℕ → ListItem
free_item t = record { next = none; prev = none; owner = t; container = none }

abbrev pub clamp : ℕ → ℕ
clamp priority = if leb num_task_priorities priority then num_task_priorities - 1 else priority

-- The task control block that task_create fills in; `stack_depth` of it stays as it was.
unfoldable pub new_tcb : (core id stack_depth priority : ℕ) → List ℕ → Tcb → Tcb
new_tcb core id stack_depth priority words old = record old {
  current_sp = stack_depth - 16;
  stack_high = stack_depth - 1;
  stack = some words;
  task_id = id;
  core_id = core;
  current_state = ready;
  priority = priority;
  wakeup_time = 0;
  wakeup_reason = no_reason;
  base_priority = priority;
  mutexes_held = 0;
}

-- The task with its items, in its ready list.
unfoldable pub enter : ℕ → Tcb → Kernel → Kernel
enter t v k =
    let m = set_item (event_item t) (free_item t) (set_item (state_item t) (free_item t) k.links) in
    (add_to_ready_list (some t) (set_tcb t v (set_links m k))).1

-- The status, `*p_task_control_block`, the counters, the heap offset and the kernel.
unfoldable pub create :
    (core task_function exit_trap stack_depth priority params : ℕ)
    → (ℕ → ℕ)
    → ℕ
    → Kernel
    → Run (Status × Option ℕ × (ℕ → ℕ) × ℕ × Kernel)
unfolding init_stack new_tcb enter
create core task_function exit_trap stack_depth priority params task_counter heap_offset k =
    let id = task_counter core in
    let t = pool_tcb core id in
    let (block, heap_offset') = malloc (4 * stack_depth % 2 ^ 32) heap_offset in
    if id == max_num_tasks
    then done (e_resource_exhausted, none, task_counter, heap_offset, k)
    else elim block [
      | none ↦ done (
        e_out_of_mem,
        some t,
        task_counter,
        heap_offset',
        set_tcb t (record (k.tcb t) { stack = none }) k,
      )
      | some b ↦ elim (init_stack stack_depth task_function exit_trap params) [
        | none ↦ fault
        | some words ↦ done (
          e_ok,
          some t,
          update task_counter core ((id + 1) % 2 ^ 16),
          heap_offset',
          enter t (new_tcb core id stack_depth (clamp priority) words (k.tcb t)) k,
        )
      ]
    ]

-- ===== src/Kernel/Scheduler/Init.antt =====
-- scheduler_init of source/kernel/scheduler/scheduler.c. `clk_freq` and `tick_count` are what
-- `p_clk_freq` and `p_tick_count` point to, or nothing for NULL.
use rpitos.Prelude.{ℕ, zero, suc, ◌-◌, Option, none, some, ◌++◌, leb, if◌then◌else◌, ◌==◌, update}
use rpitos.Status.{Status, e_ok, e_invalid_args}
use rpitos.Kernel.Links.{Links, empty_list, set_list, set_item, state_item, event_item}
use rpitos.Kernel.State.{
  Kernel, Tcb, ready, no_reason, task_watermark, task_priority_idle, num_task_priorities, max_cores,
  ready_list, blocked_task_list, idle_tcb, set_links, set_tcb,
}
use rpitos.Kernel.Scheduler.Ready.{add_to_ready_list}
use rpitos.Kernel.Task.{copies, frame, free_item}

abbrev pub idle_stack_depth : ℕ
idle_stack_depth = 64

-- The ready lists of the priorities below `n`.
unfoldable pub clear_ready : ℕ → ℕ → Links → Links
clear_ready zero core m = m
clear_ready (suc n) core m = set_list (ready_list core n) empty_list (clear_ready n core m)

-- `idle_task_func` is the address of the idle task's code.
unfoldable pub idle_task : (core idle_task_func : ℕ) → Tcb
unfolding frame
idle_task core idle_task_func = record {
  current_sp = idle_stack_depth - 16;
  stack_high = idle_stack_depth - 1;
  stack = some (copies (idle_stack_depth - 16) task_watermark ++ frame idle_task_func 0 0);
  stack_depth = idle_stack_depth;
  task_id = 0xFFFF;
  core_id = core;
  current_state = ready;
  priority = task_priority_idle;
  wakeup_time = 0;
  wakeup_reason = no_reason;
  base_priority = task_priority_idle;
  mutexes_held = 0;
}

unfoldable pub reset_core : (core clk_freq hz : ℕ) → Kernel → Kernel
unfolding clear_ready
reset_core core clk_freq hz k =
    let c = k.clock core in
    let m =
      set_list (blocked_task_list core) empty_list (clear_ready num_task_priorities core k.links) in
    record k {
      clock = update k.clock core (record c { clk_freq = clk_freq; hz = hz; tick_count = 0 });
      links = m;
    }

unfoldable pub add_idle : (core idle_task_func : ℕ) → Kernel → Kernel
unfolding idle_task
add_idle core idle_task_func k =
    let t = idle_tcb core in
    let m = set_item (event_item t) (free_item t) (set_item (state_item t) (free_item t) k.links) in
    (add_to_ready_list (some t) (set_tcb t (idle_task core idle_task_func) (set_links m k))).1

-- `dfu_trigger_task_start` is the hook that dfu_trigger.c overrides.
unfoldable pub init :
    (dfu_trigger_task_start : Kernel → Status × Kernel)
    → (core : ℕ) → (clk_freq : Option ℕ) → (hz : ℕ) → (tick_count : Option ℕ) → (idle_task_func : ℕ)
    → Kernel
    → Status × Kernel
unfolding reset_core add_idle
init dfu core none hz tick_count idle k = (e_invalid_args, k)
init dfu core (some f) hz none idle k = (e_invalid_args, k)
init dfu core (some f) hz (some n) idle k =
    let k1 = add_idle core idle (reset_core core f hz k) in
    if leb max_cores core then (e_invalid_args, k) else if core == 0 then dfu k1 else (e_ok, k1)

-- ===== src/Kernel/State.antt =====
-- The state that the kernel's parts share: the tasks of source/kernel/task_types/task_types.h, and
-- the cores of source/kernel/scheduler/scheduler.c. A task control block, a list item and a list
-- are known by their addresses.
use rpitos.Prelude.{ℕ, ◌+◌, ◌*◌, ◌%◌, ◌^◌, Bool, true, false, Option, List, update}
use rpitos.Kernel.Links.{Links}

pub data TaskState : Type 0 where
  ready running blocked suspended deleted : TaskState

pub data WakeupReason : Type 0 where
  no_reason resource_acquired : WakeupReason

abbrev pub is_blocked : TaskState → Bool
is_blocked blocked = true
is_blocked _ = false

abbrev pub is_running : TaskState → Bool
is_running running = true
is_running _ = false

-- READY or RUNNING.
abbrev pub in_ready : TaskState → Bool
in_ready ready = true
in_ready running = true
in_ready _ = false

abbrev pub num_task_priorities : ℕ
num_task_priorities = 6

abbrev pub task_priority_idle : ℕ
task_priority_idle = 0

abbrev pub max_num_tasks : ℕ
max_num_tasks = 16

abbrev pub max_cores : ℕ
max_cores = 4

abbrev pub task_watermark : ℕ
task_watermark = 0x5A

-- `struct TaskControlBlock` less its two list items, which `Links` holds. `stack` is the words
-- from `stack_base` on; `current_sp` and `stack_high` count words from there.
pub record Tcb : Type 0 where
  pub current_sp : ℕ
  pub stack_high : ℕ
  pub stack : Option (List ℕ)
  pub stack_depth : ℕ
  pub task_id : ℕ
  pub core_id : ℕ
  pub current_state : TaskState
  pub priority : ℕ
  pub wakeup_time : ℕ
  pub wakeup_reason : WakeupReason
  pub base_priority : ℕ
  pub mutexes_held : ℕ

-- A core's timing: the cells behind `s_clk_freq` and `s_tick_count`, `hz`, and the timer's
-- compare register.
pub record Clock : Type 0 where
  pub clk_freq : ℕ
  pub hz : ℕ
  pub tick_count : ℕ
  pub cntp_cval : ℕ

-- `current` is `p_task_control_block`.
pub record Kernel : Type 0 where
  pub links : Links
  pub tcb : ℕ → Tcb
  pub current : ℕ → Option ℕ
  pub clock : ℕ → Clock

-- Where the lists lie: seven for each core, then those of the mutexes and semaphores.
abbrev pub ready_list : ℕ → ℕ → ℕ
ready_list core priority = core * 7 + priority

abbrev pub blocked_task_list : ℕ → ℕ
blocked_task_list core = core * 7 + 6

abbrev pub event_list : ℕ → ℕ
event_list k = 28 + k

-- Where the task control blocks lie: a pool of sixteen and the idle task for each core.
abbrev pub pool_tcb : ℕ → ℕ → ℕ
pool_tcb core n = core * 17 + n

abbrev pub idle_tcb : ℕ → ℕ
idle_tcb core = core * 17 + 16

abbrev pub set_links : Links → Kernel → Kernel
set_links m k = record k { links = m }

abbrev pub set_tcb : ℕ → Tcb → Kernel → Kernel
set_tcb t v k = record k { tcb = update k.tcb t v }

abbrev pub set_state : ℕ → TaskState → Kernel → Kernel
set_state t s k = set_tcb t (record (k.tcb t) { current_state = s }) k

-- A 64-bit sum.
abbrev pub add64 : ℕ → ℕ → ℕ
add64 a b = (a + b) % 2 ^ 64

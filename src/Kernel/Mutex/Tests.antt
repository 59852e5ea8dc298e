-- ===== src/Kernel/Mutex/Tests.antt =====
-- The mutex's theorem at a mutex that task 1 holds and for which tasks 3 and 5 wait.
use rpitos.Prelude.{some, if◌then◌else◌, ◌==◌}
use rpitos.Kernel.Samples.{empty_kernel, fresh_task}
use rpitos.Kernel.State.{Kernel}
use rpitos.Kernel.Mutex.{Mutex, locked, add_waiter}

abbrev held_mutex : Mutex
held_mutex = record {
  state = locked;
  mutex_owner = some 1;
  mutex_blocked_list = 28;
  inheritance_enabled = 1;
  inherited_priority = 4;
}

-- Task 5 has priority 4, the others priority 2.
abbrev two_priorities : Kernel
two_priorities = record empty_kernel {
  tcb = λ t. record fresh_task { priority = if t == 5 then 4 else 2 };
}

abbrev two_wait : Kernel
two_wait = add_waiter held_mutex 5 (add_waiter held_mutex 3 two_priorities)

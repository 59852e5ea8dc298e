-- ===== src/Kernel/Scheduler/Tests.antt =====
-- The scheduler's theorems at small states: two tasks of priority 2 on core 0.
use rpitos.Prelude.{ℕ, ◌≡◌, ◌⊎◌, refl, true, false, not, ◌&&◌, some, List, [], arith, has}
use rpitos.Status.{e_ok, e_invalid_args, done}
use rpitos.Kernel.Links.{state_item, push_back_ready}
use rpitos.Kernel.Links.Contents.{Holds}
use rpitos.Kernel.Samples.{fresh_task, no_links, empty_kernel}
use rpitos.Kernel.State.{ready, Kernel}
use rpitos.Kernel.Scheduler.Valid.{IsValid}
use rpitos.Kernel.Scheduler.Ready.{
  add_to_ready_list, remove_from_ready_list, out_of_range, own_ready_list, enqueue,
}
use rpitos.Kernel.Scheduler.Ready.Valid.{
  appended, removed, enqueue-IsValid, add_to_ready_list_lem, remove_from_ready_list_lem,
}
use rpitos.Kernel.Scheduler.Blocked.{add_to_blocked_list}
use rpitos.Kernel.Scheduler.Blocked.Valid.{IsQueued, add_to_blocked_list-IsQueued}
use rpitos.Kernel.Scheduler.Switch.{switch_context, yield_current, stack_overwritten}
use rpitos.Kernel.Scheduler.Switch.Pick.{Picked, run_task, run_task-IsValid, switch_context-Picked}
use rpitos.Kernel.Scheduler.Switch.RoundRobin.{IsRunningTurn, IsNext, switch_context-successor}

abbrev no_items : ℕ → List ℕ
no_items c = []

no_links-Holds : Holds no_links no_items
no_links-Holds = record {
  lists = λ c. record {
    head = refl;
    list_end = refl;
    count = refl;
    small = omega arith;
    chain = tt;
    distinct = tt;
    complete = λ a e. cc;
  };
  owners = λ a c e. refl;
}

empty_kernel-IsValid : IsValid empty_kernel no_items
empty_kernel-IsValid = record {
  placed = record {
    holds = no_links-Holds;
    bounded = λ a c e. absurd (ground arith);
    states = λ a c b e. absurd (ground arith);
    turns = λ core p cb b. refl;
  };
  listed = λ t core p cb b e. absurd (ground arith);
  blocked = λ t core cb e. absurd (ground arith);
  sorted = λ core cb. tt;
  current = λ t e. absurd (ground arith);
}

add_to_ready_list_lem_example :
    let (status, k') = add_to_ready_list (some 0) empty_kernel in
    ((out_of_range fresh_task ≡ false)
      × (status ≡ e_ok)
      × IsValid k' (appended empty_kernel no_items 0)
      × ((k'.tcb 0).current_state ≡ ready))
    ⊎ ((out_of_range fresh_task ≡ true) × (status ≡ e_invalid_args) × (k' ≡ empty_kernel))
add_to_ready_list_lem_example =
    add_to_ready_list_lem empty_kernel no_items empty_kernel-IsValid 0 (omega arith) refl

-- Task 0 is ready, then task 1 behind it, then task 0 runs.
abbrev one_task : Kernel
one_task = enqueue 0 empty_kernel

abbrev one_item : ℕ → List ℕ
one_item = appended empty_kernel no_items 0

one_task-IsValid : IsValid one_task one_item
one_task-IsValid =
    enqueue-IsValid empty_kernel no_items empty_kernel-IsValid 0 refl (omega arith) refl

abbrev two_tasks : Kernel
two_tasks = enqueue 1 one_task

abbrev two_items : ℕ → List ℕ
unfolding enqueue
two_items = appended one_task one_item 1

two_tasks-IsValid : IsValid two_tasks two_items
unfolding enqueue push_back_ready
two_tasks-IsValid = enqueue-IsValid one_task one_item one_task-IsValid 1 refl (omega arith) refl

remove_from_ready_list_lem_example :
    let (status, k') = remove_from_ready_list (some 0) two_tasks in
    let stands =
      not (out_of_range (two_tasks.tcb 0))
      && has (state_item 0) (two_items (own_ready_list (two_tasks.tcb 0))) in
    ((stands ≡ true) × (status ≡ e_ok) × IsValid k' (removed two_tasks two_items 0))
    ⊎ ((stands ≡ false) × (status ≡ e_invalid_args) × (k' ≡ two_tasks))
remove_from_ready_list_lem_example =
    remove_from_ready_list_lem two_tasks two_items two_tasks-IsValid 0

switch_context-Picked_example :
    Picked
      (yield_current 0 (two_tasks.current 0) two_tasks)
      two_items
      0
      (switch_context 0 two_tasks)
unfolding stack_overwritten enqueue
switch_context-Picked_example =
    switch_context-Picked two_tasks two_items 0 two_tasks-IsValid (omega arith) refl

-- The first switch dispatches task 0, the second task 1.
abbrev running_kernel : Kernel
running_kernel = run_task 0 two_tasks 0

first_switch : switch_context 0 two_tasks ≡ done running_kernel
unfolding switch_context enqueue push_back_ready
first_switch = refl

running_kernel-IsValid : IsValid running_kernel two_items
unfolding enqueue push_back_ready
running_kernel-IsValid =
    run_task-IsValid two_tasks two_items two_tasks-IsValid 0 (omega arith)
      (λ t on run. ground arith) 0 2 (omega arith) refl

running_kernel-IsRunningTurn : IsRunningTurn running_kernel two_items 0 2 0
unfolding enqueue push_back_ready
running_kernel-IsRunningTurn = record {
  current = refl;
  state = refl;
  priority = refl;
  chosen = record {
    below = omega arith;
    here = refl;
    turn = refl;
    highest = λ q h b. ground arith;
  };
}

switch_context-successor_example : IsNext two_items 0 2 0 (switch_context 0 running_kernel)
unfolding stack_overwritten enqueue
switch_context-successor_example =
    switch_context-successor running_kernel two_items 0 2 0 running_kernel-IsValid
      running_kernel-IsRunningTurn (omega arith) refl

-- Task 2 is in no list.
add_to_blocked_list-IsQueued_example :
    IsQueued two_tasks two_items 2 5 (add_to_blocked_list (some 2) 5 two_tasks)
unfolding enqueue push_back_ready
add_to_blocked_list-IsQueued_example =
    add_to_blocked_list-IsQueued two_tasks two_items two_tasks-IsValid 2 5 (omega arith)
      (omega arith) refl

-- ===== src/Kernel/Samples.antt =====
-- The states that the tests start from.
use rpitos.Prelude.{◌/◌, none}
use rpitos.Kernel.Links.{Links, empty_list}
use rpitos.Kernel.State.{ready, no_reason, Tcb, Kernel}

abbrev pub fresh_task : Tcb
fresh_task = record {
  current_sp = 0;
  stack_high = 0;
  stack = none;
  stack_depth = 0;
  task_id = 0;
  core_id = 0;
  current_state = ready;
  priority = 2;
  wakeup_time = 0;
  wakeup_reason = no_reason;
  base_priority = 2;
  mutexes_held = 0;
}

abbrev pub no_links : Links
no_links = record {
  item = λ a. record { next = none; prev = none; owner = a / 2; container = none };
  list = λ c. empty_list;
}

abbrev pub empty_kernel : Kernel
empty_kernel = record {
  links = no_links;
  tcb = λ t. fresh_task;
  current = λ c. none;
  clock = λ c. record { clk_freq = 1000; hz = 10; tick_count = 0; cntp_cval = 0 };
}

-- ===== src/Kernel/Scheduler/Tick.antt =====
-- timer_tick_handler of source/kernel/scheduler/scheduler.c: the timer is armed again, the tick
-- is counted, and the tasks that are due wake up.
use rpitos.Prelude.{ℕ, zero, suc, ◌/◌, none, some, leb, ◌==◌, if◌then◌else◌, update}
use rpitos.Status.{Run, done, spin, ◌>>=◌}
use rpitos.Kernel.Links.{event_item, unlink}
use rpitos.Kernel.State.{Kernel, blocked_task_list, set_links, add64}
use rpitos.Kernel.Scheduler.Ready.{add_to_ready_list}
use rpitos.Kernel.Scheduler.Blocked.{remove_from_blocked_list}

-- A task that also waits for a mutex or a semaphore leaves that list too.
unfoldable pub leave_event_list : ℕ → Kernel → Kernel
leave_event_list t k = elim ((k.links.item (event_item t)).container) [
  | none ↦ k
  | some l ↦ set_links (unlink (event_item t) l k.links) k
]

unfoldable pub wake : ℕ → Kernel → Kernel
unfolding leave_event_list
wake t k =
    (add_to_ready_list (some t) (leave_event_list t (remove_from_blocked_list (some t) k).1)).1

-- The loop over the blocked list, which has no more items than `fuel`.
unfoldable pub wake_due : ℕ → ℕ → Kernel → Run Kernel
unfolding wake
wake_due core zero k = elim ((k.links.list (blocked_task_list core)).head) [
  | none ↦ done k
  | some h ↦
      if leb (k.tcb (k.links.item h).owner).wakeup_time (k.clock core).tick_count
      then spin
      else done k
]
wake_due core (suc fuel) k = elim ((k.links.list (blocked_task_list core)).head) [
  | none ↦ done k
  | some h ↦
      let rest = wake_due core fuel (wake (k.links.item h).owner k) in
      if leb (k.tcb (k.links.item h).owner).wakeup_time (k.clock core).tick_count
      then rest
      else done k
]

-- The next compare value, from the counter `cntpct`, and the new tick count.
unfoldable pub count_tick : ℕ → ℕ → Kernel → Kernel
count_tick core cntpct k =
    let c = k.clock core in
    record k {
      clock = update k.clock core (record c {
        cntp_cval = add64 cntpct (c.clk_freq / c.hz);
        tick_count = add64 c.tick_count 1;
      });
    }

-- `software_timer_tick` is the hook that software_timer.c overrides.
unfoldable pub timer_tick_handler :
    (software_timer_tick : ℕ → Kernel → Run Kernel) → ℕ → ℕ → Kernel → Run Kernel
unfolding count_tick wake_due
timer_tick_handler software_timer_tick core cntpct k =
    let k1 = count_tick core cntpct k in
    wake_due core (k1.links.list (blocked_task_list core)).num_items k1 >>= λ k2.
    if core == 0 then software_timer_tick (k2.clock core).tick_count k2 else done k2

-- ===== src/Kernel/Scheduler/Delay.antt =====
-- The delays of source/kernel/scheduler/scheduler.c.
use rpitos.Prelude.{ℕ, Option, none, some}
use rpitos.Status.{Run, done, fault, ◌>>=◌}
use rpitos.Kernel.State.{blocked, Kernel, set_state, add64}
use rpitos.Kernel.Scheduler.Ready.{remove_from_ready_list}
use rpitos.Kernel.Scheduler.Blocked.{add_to_blocked_list}

unfoldable pub get_current_task : ℕ → Kernel → Option ℕ
get_current_task core k = k.current core

unfoldable pub get_tick_count : ℕ → Kernel → ℕ
get_tick_count core k = (k.clock core).tick_count

-- block_until up to its busy wait, which ends when another step makes the task ready.
unfoldable pub block_until : ℕ → ℕ → Kernel → Run Kernel
unfolding remove_from_ready_list add_to_blocked_list
block_until core wakeup k =
    let me = k.current core in
    let k1 = (remove_from_ready_list me k).1 in
    add_to_blocked_list me wakeup k1 >>= λ r. elim me [
      | none ↦ fault
      | some t ↦ done (set_state t blocked r.1)
    ]

unfoldable pub task_delay_ms : ℕ → ℕ → Kernel → Run Kernel
unfolding block_until
task_delay_ms core ticks k = block_until core (add64 (get_tick_count core k) ticks) k

-- The overrun warning is printed and changes no state. The result is the new `*last_wake_time`.
unfoldable pub task_delay_until_ms : ℕ → ℕ → ℕ → Kernel → Run (ℕ × Kernel)
unfolding block_until
task_delay_until_ms core last_wake_time period k =
    block_until core (add64 last_wake_time period) k >>= λ k1.
    done (add64 last_wake_time period, k1)

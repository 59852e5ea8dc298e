-- ===== src/Kernel/Semaphore.antt =====
-- The counting semaphore of source/kernel/semaphore/semaphore.c. semaphore_take is cut at its busy
-- wait: `attempt` is a round of its loop up to the wait, `resume` what follows the wait. Each
-- runs under the semaphore's lock, so it is one step.
pub mod Count
mod Tests
use rpitos.Prelude.{
  ℕ, ◌+◌, ◌-◌, ◌^◌, ◌%◌, Bool, true, false, Option, none, some, ltb, leb, if◌then◌else◌, ◌==◌,
}
use rpitos.Status.{Status, e_ok, e_timed_out, e_resource_exhausted, Run, done, fault, spin, ◌>>=◌}
use rpitos.Kernel.Links.{
  Links, TaskList, empty_list, event_item, state_item, set_head, set_list_end, set_prev,
  set_num_items, set_list, dec16, push_back, clear_item,
}
use rpitos.Kernel.State.{
  Kernel, Tcb, WakeupReason, resource_acquired, no_reason, blocked, set_links, set_tcb, set_state,
  add64,
}
use rpitos.Kernel.Scheduler.Ready.{remove_from_ready_list, add_to_ready_list}
use rpitos.Kernel.Scheduler.Blocked.{add_to_blocked_list, remove_from_blocked_list}
use rpitos.Kernel.Scheduler.Delay.{get_tick_count}

-- `semaphore_blocked_list` is the address of the wait list.
pub record Semaphore : Type 0 where
  pub max_count : ℕ
  pub count : ℕ
  pub semaphore_blocked_list : ℕ

-- An `int64_t timeout_ms`: negative, zero or positive.
pub data Timeout : Type 0 where
  forever : Timeout
  no_wait : Timeout
  ticks : ℕ → Timeout

unfoldable pub init : ℕ → ℕ → ℕ → Kernel → Semaphore × Kernel
init l max_count initial_count k = (
  record { max_count = max_count; count = initial_count; semaphore_blocked_list = l },
  set_links (set_list l empty_list k.links) k,
)

-- `(timeout_ms > 0) ? scheduler_get_tick_count() + timeout_ms : 0`
unfoldable pub deadline : Timeout → ℕ → Kernel → ℕ
deadline forever core k = 0
deadline no_wait core k = 0
deadline (ticks n) core k = add64 (get_tick_count core k) n

-- `timeout_ms == 0`, or positive with the deadline reached.
unfoldable pub out_of_time : Timeout → ℕ → ℕ → Kernel → Bool
out_of_time forever limit core k = false
out_of_time no_wait limit core k = true
out_of_time (ticks n) limit core k = leb limit (get_tick_count core k)

unfoldable pub add_to_wait_list : Semaphore → ℕ → Kernel → Kernel
add_to_wait_list p t k = set_links (push_back (event_item t) t p.semaphore_blocked_list k.links) k

-- The task's core's lists: off the ready list, and onto the blocked list if the wait is bounded.
unfoldable pub suspend : Timeout → ℕ → ℕ → Kernel → Run Kernel
suspend forever limit t k = done (remove_from_ready_list (some t) k).1
suspend no_wait limit t k = done (remove_from_ready_list (some t) k).1
suspend (ticks n) limit t k =
    add_to_blocked_list (some t) limit (remove_from_ready_list (some t) k).1 >>= λ r. done r.1

-- What a round of the loop leads to.
pub data Attempt : Type 0 where
  returns : Status → Attempt
  waits : Attempt

unfoldable pub attempt :
    Timeout → (limit core t : ℕ) → Semaphore → Kernel → Run (Attempt × Semaphore × Kernel)
unfolding out_of_time add_to_wait_list suspend
attempt timeout limit core t p k =
    if ltb 0 p.count
    then done (returns e_ok, record p { count = p.count - 1 }, k)
    else if out_of_time timeout limit core k
    then done (returns e_timed_out, p, k)
    else suspend timeout limit t (add_to_wait_list p t k) >>= λ k1.
        done (waits, p, set_state t blocked k1)

-- After the wait: the resource was handed over, or the loop goes round again.
unfoldable pub resume : ℕ → Kernel → Option Status × Kernel
resume t k = elim ((k.tcb t).wakeup_reason) [
  | resource_acquired ↦ (some e_ok, set_tcb t (record (k.tcb t) { wakeup_reason = no_reason }) k)
  | no_reason ↦ (none, k)
]

-- The first waiter's item leaves the list; its own fields are cleared later.
unfoldable pub pop_head : ℕ → ℕ → Links → Links
pop_head h l m =
    let m1 = set_head l (m.item h).next m in
    let m2 : Links = elim ((m1.list l).head) [
      | none ↦ set_list_end l none m1
      | some n ↦ set_prev n none m1
    ] in
    set_num_items l (dec16 (m2.list l).num_items) m2

-- The waiter becomes ready, with the reason for it.
unfoldable pub hand_over : ℕ → Kernel → Kernel
hand_over t k =
    let k1 = (remove_from_blocked_list (some t) k).1 in
    let k2 = set_links (clear_item (event_item t) k1.links) k1 in
    let k3 = set_tcb t (record (k2.tcb t) { wakeup_reason = resource_acquired }) k2 in
    (add_to_ready_list (some t) k3).1

unfoldable pub give_waiter : ℕ → Option ℕ → Kernel → Run Kernel
unfolding pop_head hand_over
give_waiter l none k = fault
give_waiter l (some h) k =
    done (hand_over (k.links.item h).owner (set_links (pop_head h l k.links) k))

unfoldable pub give : Semaphore → Kernel → Run (Status × Semaphore × Kernel)
unfolding give_waiter
give p k =
    let l = p.semaphore_blocked_list in
    if ltb 0 (k.links.list l).num_items
    then (give_waiter l (k.links.list l).head k >>= λ k1. done (e_ok, p, k1))
    else if ltb p.count p.max_count
    then done (e_ok, record p { count = p.count + 1 }, k)
    else done (e_resource_exhausted, p, k)

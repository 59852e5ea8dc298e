-- ===== src/Kernel/Mutex.antt =====
-- The mutex of source/kernel/mutex/mutex.c, with priority inheritance. mutex_lock is cut at its busy
-- wait: `begin_lock` is what comes before it, `finish_lock` what comes after. Each runs under the
-- mutex's lock, so it is one step. `t` is the current task.
pub mod Scan
mod Tests
pub mod Frame
pub mod Unlock
pub mod Holders
pub mod Release
use rpitos.Prelude.{
  ℕ, zero, suc, ◌+◌, ◌^◌, ◌%◌, Bool, true, false, not, ◌&&◌, Option, none, some, ltb, if◌then◌else◌,
  ◌==◌, same_ptr,
}
use rpitos.Status.{Status, e_ok, e_timed_out, e_invalid_args, Run, done, fault, spin, ◌>>=◌}
use rpitos.Kernel.Links.{Links, empty_list, event_item, set_list, push_back, unlink}
use rpitos.Kernel.State.{Kernel, Tcb, blocked, task_priority_idle, set_links, set_tcb, set_state}
use rpitos.Kernel.Scheduler.Ready.{add_to_ready_list, change_task_priority}
use rpitos.Kernel.Scheduler.Blocked.{remove_from_blocked_list}
use rpitos.Kernel.Semaphore.{
  Timeout, forever, no_wait, ticks, deadline, suspend, Attempt, returns, waits,
}

pub data MutexState : Type 0 where
  locked unlocked : MutexState

-- `mutex_blocked_list` is the address of the wait list; `inheritance_enabled` is a `uint8_t`.
pub record Mutex : Type 0 where
  pub state : MutexState
  pub mutex_owner : Option ℕ
  pub mutex_blocked_list : ℕ
  pub inheritance_enabled : ℕ
  pub inherited_priority : ℕ

abbrev pub is_locked : MutexState → Bool
is_locked locked = true
is_locked unlocked = false

abbrev pub inherits : Mutex → Bool
inherits x = ltb 0 x.inheritance_enabled

unfoldable pub init : ℕ → Kernel → Mutex × Kernel
init l k = (
  record {
    state = unlocked;
    mutex_owner = none;
    mutex_blocked_list = l;
    inheritance_enabled = 0;
    inherited_priority = task_priority_idle;
  },
  set_links (set_list l empty_list k.links) k,
)

unfoldable pub set_inheritance : ℕ → Mutex → Kernel → Status × Mutex
set_inheritance enable x k =
    if is_locked x.state
    then (e_invalid_args, x)
    else if ltb 0 (k.links.list x.mutex_blocked_list).num_items
    then (e_invalid_args, x)
    else (e_ok, record x { inheritance_enabled = enable })

-- `mutexes_held++`, for a mutex with inheritance.
abbrev pub hold : Mutex → ℕ → Kernel → Kernel
hold x t k =
    if inherits x
    then set_tcb t (record (k.tcb t) { mutexes_held = ((k.tcb t).mutexes_held + 1) % 2 ^ 32 }) k
    else k

unfoldable pub add_waiter : Mutex → ℕ → Kernel → Kernel
add_waiter x t k = set_links (push_back (event_item t) t x.mutex_blocked_list k.links) k

-- The owner is raised to the highest priority that waits.
unfoldable pub boost_owner : Mutex → Option ℕ → Kernel → Run (Mutex × Kernel)
boost_owner x none k = fault
boost_owner x (some o) k = done (
  x,
  if ltb (k.tcb o).priority x.inherited_priority
      then change_task_priority o x.inherited_priority k
      else k,
)

unfoldable pub boost : Mutex → ℕ → Kernel → Run (Mutex × Kernel)
unfolding boost_owner
boost x t k =
    let p = (k.tcb t).priority in
    let x1 : Mutex =
      if ltb x.inherited_priority p then record x { inherited_priority = p } else x in
    if inherits x then boost_owner x1 x1.mutex_owner k else done (x, k)

unfoldable pub wait : Timeout → (core t : ℕ) → Mutex → Kernel → Run (Attempt × Mutex × Kernel)
unfolding add_waiter boost
wait timeout core t x k = suspend timeout (deadline timeout core k) t (add_waiter x t k) >>= λ k1.
    boost x t (set_state t blocked k1) >>= λ r. done (waits, r.0, r.1)

unfoldable pub begin_lock : Timeout → (core t : ℕ) → Mutex → Kernel → Run (Attempt × Mutex × Kernel)
unfolding wait
begin_lock timeout core t x k =
    if is_locked x.state
    then elim timeout [
      | no_wait ↦ done (returns e_timed_out, x, k)
      | forever ↦ wait forever core t x k
      | ticks n ↦ wait (ticks n) core t x k
    ]
    else done (returns e_ok, record x { state = locked; mutex_owner = some t }, hold x t k)

unfoldable pub finish_lock : ℕ → Mutex → Status
finish_lock t x = if same_ptr x.mutex_owner (some t) then e_ok else e_timed_out

-- The priority of the task that waits with an item.
abbrev pub waiter_priority : Kernel → ℕ → ℕ
waiter_priority k i = (k.tcb (k.links.item i).owner).priority

-- One round of the scan, on the best item and the second-best priority so far.
unfoldable pub better : (ℕ → ℕ) → ℕ → ℕ × ℕ → ℕ × ℕ
better f i (best, second) =
    if ltb (f best) (f i)
    then (i, if ltb second (f best) then f best else second)
    else (best, if ltb second (f i) then f i else second)

-- The scan of mutex_unlock. The list has no more items than `fuel`.
unfoldable pub scan : ℕ → Option ℕ → ℕ × ℕ → Kernel → Option (ℕ × ℕ)
unfolding better
scan fuel none r k = some r
scan zero (some i) r k = none
scan (suc fuel) (some i) r k = scan fuel (k.links.item i).next (better (waiter_priority k) i r) k

-- A holder without mutexes goes back to its own priority.
unfoldable pub demote : ℕ → Kernel → Kernel
demote h k =
    let task = k.tcb h in
    if (task.mutexes_held == 0) && not (task.priority == task.base_priority)
    then change_task_priority h task.base_priority k
    else k

-- `mutexes_held--`, and what follows it.
unfoldable pub restore : Mutex → Option ℕ → Kernel → Kernel
unfolding demote
restore x none k = k
restore x (some h) k =
    if inherits x
    then demote h (
        set_tcb h
          (record (k.tcb h) { mutexes_held = ((k.tcb h).mutexes_held + 4294967295) % 2 ^ 32 }) k)
    else k

-- The new owner, boosted if a waiter has a higher priority, becomes ready.
unfoldable pub transfer : Mutex → ℕ → Kernel → Kernel
transfer x n k =
    let k1 = hold x n k in
    let k2 : Kernel =
      if inherits x && ltb (k1.tcb n).priority x.inherited_priority
      then change_task_priority n x.inherited_priority k1
      else k1 in
    (add_to_ready_list (some n) (remove_from_blocked_list (some n) k2).1).1

unfoldable pub hand_on : Mutex → Option (ℕ × ℕ) → Kernel → Run (Mutex × Kernel)
unfolding restore transfer
hand_on x none k = spin
hand_on x (some (best, second)) k =
    let n = (k.links.item best).owner in
    let x1 : Mutex = record x { mutex_owner = some n; inherited_priority = second } in
    let k1 = set_links (unlink best x.mutex_blocked_list k.links) k in
    done (x1, transfer x1 n (restore x x.mutex_owner k1))

unfoldable pub unlock_waiting : Mutex → Option ℕ → Kernel → Run (Mutex × Kernel)
unfolding hand_on scan
unlock_waiting x none k = fault
unlock_waiting x (some h) k =
    hand_on x
      (scan (k.links.list x.mutex_blocked_list).num_items (k.links.item h).next
        (h, task_priority_idle) k)
      k

unfoldable pub unlock : Mutex → Kernel → Run (Mutex × Kernel)
unfolding unlock_waiting restore
unlock x k =
    let l = k.links.list x.mutex_blocked_list in
    if not (is_locked x.state)
    then done (x, k)
    else if l.num_items == 0
    then done (
      record x { state = unlocked; mutex_owner = none; inherited_priority = task_priority_idle },
      restore x x.mutex_owner k,
    )
    else unlock_waiting x l.head k

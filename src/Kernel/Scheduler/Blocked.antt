-- ===== src/Kernel/Scheduler/Blocked.antt =====
-- The blocked list of source/kernel/scheduler/scheduler.c, sorted by wake-up time.
pub mod Insert
pub mod Walk
pub mod Valid
use rpitos.Prelude.{ℕ, zero, suc, Option, none, some, leb, if◌then◌else◌}
use rpitos.Status.{Status, e_ok, e_invalid_args, Run, done, spin, ◌>>=◌}
use rpitos.Kernel.Links.{
  in_list, Links, state_item, set_item, set_next, set_prev, set_head, set_list_end, set_num_items,
  inc16, unlink,
}
use rpitos.Kernel.State.{max_cores, Kernel, blocked_task_list, set_links, set_tcb}

-- The walk of scheduler_add_to_blocked_list. The list has no more items than `fuel`.
unfoldable pub walk : ℕ → ℕ → ℕ → Kernel → Option ℕ
walk zero iter wakeup k = none
walk (suc fuel) iter wakeup k = elim ((k.links.item iter).next) [
  | none ↦ some iter
  | some n ↦
      if leb (k.tcb (k.links.item n).owner).wakeup_time wakeup
      then walk fuel n wakeup k
      else some iter
]

-- The three places at which scheduler_add_to_blocked_list links an item in: into an empty list,
-- before the head, and behind `iter`.
unfoldable pub insert_only : ℕ → ℕ → Links → Links
insert_only i l m = set_list_end l (some i) (set_head l (some i) m)

unfoldable pub insert_first : ℕ → ℕ → ℕ → Links → Links
insert_first i l head m = set_head l (some i) (set_prev head (some i) (set_next i (some head) m))

unfoldable pub insert_behind : ℕ → ℕ → ℕ → Links → Links
insert_behind i l iter m =
    let m1 = set_prev i (some iter) (set_next i (m.item iter).next m) in
    let m2 : Links = elim ((m1.item iter).next) [
      | none ↦ set_list_end l (some i) m1
      | some n ↦ set_prev n (some i) m1
    ] in
    set_next iter (some i) m2

abbrev pub count_item : ℕ → Links → Links
count_item l m = set_num_items l (inc16 (m.list l).num_items) m

-- The task's wake-up time, and its item before it is linked in.
abbrev pub prepare_blocked : ℕ → ℕ → Kernel → Kernel
prepare_blocked t wakeup k =
    set_links
      (set_item (state_item t)
        (record {
          next = none;
          prev = none;
          owner = t;
          container = some (blocked_task_list (k.tcb t).core_id);
        })
        k.links)
      (set_tcb t (record (k.tcb t) { wakeup_time = wakeup }) k)

-- Behind the item that the walk stops at. A walk that goes on for ever does not return.
unfoldable pub insert_at : ℕ → ℕ → Kernel → Option ℕ → Run Kernel
unfolding insert_behind
insert_at t l k none = spin
insert_at t l k (some iter) =
    done (set_links (count_item l (insert_behind (state_item t) l iter k.links)) k)

-- The three cases, by the head of the list.
unfoldable pub insert_by_head : ℕ → ℕ → ℕ → Kernel → Option ℕ → Run Kernel
unfolding walk insert_only insert_first insert_at
insert_by_head t wakeup l k none =
    done (set_links (count_item l (insert_only (state_item t) l k.links)) k)
insert_by_head t wakeup l k (some h) =
    if leb wakeup (k.tcb (k.links.item h).owner).wakeup_time
    then done (set_links (count_item l (insert_first (state_item t) l h k.links)) k)
    else insert_at t l k (walk (k.links.list l).num_items h wakeup k)

unfoldable pub insert_blocked : ℕ → ℕ → ℕ → Kernel → Run Kernel
unfolding insert_by_head
insert_blocked t wakeup l k = insert_by_head t wakeup l k (k.links.list l).head

unfoldable pub add_to_blocked_list : Option ℕ → ℕ → Kernel → Run (Status × Kernel)
unfolding insert_blocked
add_to_blocked_list none wakeup k = done (e_invalid_args, k)
add_to_blocked_list (some t) wakeup k =
    if leb max_cores (k.tcb t).core_id
    then done (e_invalid_args, k)
    else insert_blocked t wakeup (blocked_task_list (k.tcb t).core_id) (prepare_blocked t wakeup k)
      >>= λ k1. done (e_ok, k1)

unfoldable pub remove_from_blocked_list : Option ℕ → Kernel → Status × Kernel
remove_from_blocked_list none k = (e_invalid_args, k)
remove_from_blocked_list (some t) k =
    let i = state_item t in
    let l = blocked_task_list (k.tcb t).core_id in
    if leb max_cores (k.tcb t).core_id
    then (e_invalid_args, k)
    else if in_list (k.links.item i).container l
    then (e_ok, set_links (unlink i l k.links) k)
    else (e_ok, k)

-- ===== src/Kernel/Scheduler/Ready/Priority.antt =====
-- scheduler_change_task_priority, by the fields and lists that it leaves alone.
use rpitos.Prelude.{
  ℕ, ◌<◌, ◌≤◌, ◌≡◌, ◌∙◌, false, none, some, arith, update, if◌then◌else◌, ◌==◌, Bool-cases,
  Option-cases, inl, inr,
}
use rpitos.Kernel.Links.{
  Links, state_item, unlink, unlink_ready, push_back_ready, bypass_prev, bypass_next, advance_index,
  clear_item, join_end,
}
use rpitos.Kernel.Links.PushBack.{list-push_back_ready_ne}
use rpitos.Kernel.State.{Kernel, set_state, ready, in_ready}
use rpitos.Kernel.Scheduler.Ready.{
  out_of_range, own_ready_list, enqueue, add_to_ready_list, leave_list, set_priority,
  change_task_priority,
}

-- State items are in lists of the scheduler only.
abbrev pub IsApart : Links → Type 0
IsApart m = (t c : ℕ) → (m.item (state_item t)).container ≡ some c → c < 28

container-bypass_prev :
    (i l a : ℕ) (m : Links) → ((bypass_prev i l m).item a).container ≡ (m.item a).container
unfolding bypass_prev
container-bypass_prev i l a m = ground arith

container-bypass_next :
    (i l a : ℕ) (m : Links) → ((bypass_next i l m).item a).container ≡ (m.item a).container
unfolding bypass_next
container-bypass_next i l a m = ground arith

container-unlink_ready :
    (i l a : ℕ) (m : Links)
    → ((unlink_ready i l m).item a).container ≡ (if a == i then none else (m.item a).container)
unfolding unlink_ready advance_index clear_item
container-unlink_ready i l a m =
    ground (arith, container-bypass_next i l a (bypass_prev i l m), container-bypass_prev i l a m)

pub container-unlink :
    (i l a : ℕ) (m : Links)
    → ((unlink i l m).item a).container ≡ (if a == i then none else (m.item a).container)
unfolding unlink clear_item
container-unlink i l a m =
    ground (arith, container-bypass_next i l a (bypass_prev i l m), container-bypass_prev i l a m)

container-push_back_ready :
    (i t l a : ℕ) (m : Links)
    → ((push_back_ready i t l m).item a).container
      ≡ (if a == i then some l else (m.item a).container)
unfolding push_back_ready join_end
container-push_back_ready i t l a m = ground arith

tcb-leave_list : (t a : ℕ) (k : Kernel) → (leave_list t k).tcb a ≡ k.tcb a
tcb-leave_list t a k = elim (Option-cases ((k.links.item (state_item t)).container)) [
  | inl e ↦ rw (e, leave_list)
  | inr (l, e) ↦ rw (e, leave_list)
]

pub tcb-add_to_ready_list :
    (t a : ℕ) (k : Kernel)
    → (add_to_ready_list (some t) k).1.tcb a ≡ (
        if out_of_range (k.tcb t)
        then k.tcb a
        else update k.tcb t (record (k.tcb t) { current_state = ready }) a)
unfolding add_to_ready_list enqueue
tcb-add_to_ready_list t a k = elim (Bool-cases (out_of_range (k.tcb t))) [
  | inl e ↦ rw e
  | inr e ↦ rw e
]

-- The task moves to the ready list of its new priority.
abbrev moved : ℕ → ℕ → Kernel → Kernel
moved t p k = (add_to_ready_list (some t) (set_priority t p (leave_list t k))).1

tcb-moved :
    (t p a : ℕ) (k : Kernel)
    → (set_state t (k.tcb t).current_state (moved t p k)).tcb a
      ≡ update k.tcb t (record (k.tcb t) { priority = p }) a
tcb-moved t p a k =
    let k1 = set_priority t p (leave_list t k) in
    ground (
      arith,
      tcb-add_to_ready_list t a k1,
      tcb-add_to_ready_list t t k1,
      tcb-leave_list t a k,
      tcb-leave_list t t k,
    )

-- Only the priority of the task changes.
pub tcb-change_task_priority :
    (t p a : ℕ) (k : Kernel)
    → (change_task_priority t p k).tcb a ≡ update k.tcb t (record (k.tcb t) { priority = p }) a
unfolding change_task_priority
tcb-change_task_priority t p a k = elim (Bool-cases (in_ready (k.tcb t).current_state)) [
  | inl e ↦ rw e (tcb-moved t p a k)
  | inr e ↦ rw e
]

list-unlink_ready_other :
    (i c d : ℕ) (m : Links) → (d == c) ≡ false → (unlink_ready i c m).list d ≡ m.list d
unfolding unlink_ready
list-unlink_ready_other i c d m h = ground arith

-- The lists of mutexes and semaphores stay as they were, and apart.
list-leave_list :
    (t d : ℕ) (k : Kernel)
    → 28 ≤ d
    → IsApart k.links
    → (leave_list t k).links.list d ≡ k.links.list d
list-leave_list t d k h apart = elim (Option-cases ((k.links.item (state_item t)).container)) [
  | inl e ↦ rw (e, leave_list)
  | inr (l, e) ↦
      rw (e, leave_list)
        (ground (arith, list-unlink_ready_other (state_item t) l d k.links, apart t l e))
]

IsApart-leave_list : (t : ℕ) (k : Kernel) → IsApart k.links → IsApart (leave_list t k).links
IsApart-leave_list t k apart u c = elim (Option-cases ((k.links.item (state_item t)).container)) [
  | inl e ↦ rw (e, leave_list) (apart u c)
  | inr (l, e) ↦
      rw (e, leave_list)
        (λ h.
          ground
            (arith, h, container-unlink_ready (state_item t) l (state_item u) k.links, apart u c))
]

pub list-add_to_ready_list :
    (t d : ℕ) (k : Kernel) → 28 ≤ d → (add_to_ready_list (some t) k).1.links.list d ≡ k.links.list d
unfolding add_to_ready_list enqueue
list-add_to_ready_list t d k h =
    ground (arith, list-push_back_ready_ne (state_item t) t (own_ready_list (k.tcb t)) k.links d)

IsApart-add_to_ready_list :
    (t : ℕ) (k : Kernel) → IsApart k.links → IsApart (add_to_ready_list (some t) k).1.links
unfolding add_to_ready_list enqueue
IsApart-add_to_ready_list t k apart u c h = ground (
  arith,
  h,
  container-push_back_ready (state_item t) t (own_ready_list (k.tcb t)) (state_item u) k.links,
  apart u c,
)

pub list-change_task_priority :
    (t p d : ℕ) (k : Kernel)
    → 28 ≤ d
    → IsApart k.links
    → (change_task_priority t p k).links.list d ≡ k.links.list d
unfolding change_task_priority
list-change_task_priority t p d k h apart = elim (Bool-cases (in_ready (k.tcb t).current_state)) [
  | inl e ↦ rw e (
      list-add_to_ready_list t d (set_priority t p (leave_list t k)) h
      ∙ list-leave_list t d k h apart)
  | inr e ↦ rw e
]

pub IsApart-change_task_priority :
    (t p : ℕ) (k : Kernel) → IsApart k.links → IsApart (change_task_priority t p k).links
unfolding change_task_priority
IsApart-change_task_priority t p k apart = elim (Bool-cases (in_ready (k.tcb t).current_state)) [
  | inl e ↦ rw e (
      IsApart-add_to_ready_list t (set_priority t p (leave_list t k))
        (IsApart-leave_list t k apart))
  | inr e ↦ rw e apart
]

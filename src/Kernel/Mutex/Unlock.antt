-- ===== src/Kernel/Mutex/Unlock.antt =====
-- What mutex_unlock does to the mutex, to its waiters and to the tasks' priorities.
use rpitos.Prelude.{
  ℕ, ◌+◌, ◌%◌, ◌^◌, ◌<◌, ◌≤◌, ◌≡◌, ap, ◌∙◌, true, false, ◌&&◌, none, some, List, arith, head_or,
  last_or, length, ltb, if◌then◌else◌, Bool-cases, inl, inr,
}
use rpitos.Kernel.State.{Kernel, ready}
use rpitos.Kernel.Scheduler.Ready.{out_of_range, add_to_ready_list, change_task_priority}
use rpitos.Kernel.Scheduler.Blocked.{remove_from_blocked_list}
use rpitos.Kernel.Scheduler.Ready.Priority.{
  tcb-add_to_ready_list, tcb-change_task_priority, list-add_to_ready_list,
}
use rpitos.Kernel.Semaphore.Count.{list-remove_from_blocked_list}
use rpitos.Kernel.Mutex.{Mutex, inherits, hold, transfer}
use rpitos.Kernel.Mutex.Frame.{
  InRange, IsSound, Keeps, Keeps-change_task_priority, Keeps-set_held, Keeps-trans, Keeps-refl,
}

-- The boost of the new owner.
abbrev pub raise : Mutex → ℕ → Kernel → Kernel
raise x n k =
    if inherits x && ltb (k.tcb n).priority x.inherited_priority
    then change_task_priority n x.inherited_priority k
    else k

-- The new owner is ready, at the priority of the others that wait or a higher one, and the wait list
-- holds the items `rest`.
pub record IsOwner (x : Mutex) (rest : List ℕ) (n : ℕ) (k : Kernel) : Type 0 where
  pub state : (k.tcb n).current_state ≡ ready
  pub boosted : inherits x ≡ true → x.inherited_priority ≤ (k.tcb n).priority
  pub head : (k.links.list x.mutex_blocked_list).head ≡ head_or none rest
  pub list_end : (k.links.list x.mutex_blocked_list).list_end ≡ last_or none rest
  pub count : (k.links.list x.mutex_blocked_list).num_items ≡ length rest

hold-Keeps : (x : Mutex) (n l : ℕ) (k : Kernel) → IsSound k → Keeps l k (hold x n k)
hold-Keeps x n l k v = elim (Bool-cases (inherits x)) [
  | inl e ↦ rw (e, hold) (Keeps-set_held n (((k.tcb n).mutexes_held + 1) % 2 ^ 32) l k v)
  | inr e ↦ rw (e, hold) (Keeps-refl l k v)
]

raise-Keeps :
    (x : Mutex) (n l : ℕ) (k : Kernel)
    → 28 ≤ l
    → x.inherited_priority < 6
    → IsSound k
    → Keeps l k (raise x n k)
raise-Keeps x n l k away b v =
    elim (Bool-cases (inherits x && ltb (k.tcb n).priority x.inherited_priority)) [
      | inl e ↦ rw (e, raise) (Keeps-change_task_priority n x.inherited_priority l k away b v)
      | inr e ↦ rw (e, raise) (Keeps-refl l k v)
    ]

raise-boosted :
    (x : Mutex) (n : ℕ) (k : Kernel)
    → inherits x ≡ true
    → x.inherited_priority ≤ ((raise x n k).tcb n).priority
raise-boosted x n k on = elim (Bool-cases (ltb (k.tcb n).priority x.inherited_priority)) [
  | inl e ↦
      rw (on, e, raise) (rw (tcb-change_task_priority n x.inherited_priority n k) (ground arith))
  | inr e ↦ rw (on, e, raise) (ground (arith, e))
]

pub tcb-remove_from_blocked_list :
    (t a : ℕ) (k : Kernel) → (remove_from_blocked_list (some t) k).1.tcb a ≡ k.tcb a
unfolding remove_from_blocked_list
tcb-remove_from_blocked_list t a k = ground arith

-- A task in range leaves the blocked list and becomes ready.
abbrev pub made_ready : ℕ → Kernel → Kernel
made_ready n k = (add_to_ready_list (some n) (remove_from_blocked_list (some n) k).1).1

tcb-made_ready :
    (n : ℕ) (k : Kernel)
    → InRange (k.tcb n)
    → (made_ready n k).tcb n ≡ record (k.tcb n) { current_state = ready }
tcb-made_ready n k r =
    let k3 = (remove_from_blocked_list (some n) k).1 in
    let e3 = tcb-remove_from_blocked_list n n k in
    let inside : out_of_range (k.tcb n) ≡ false = ground (arith, r.priority, r.core) in
    tcb-add_to_ready_list n n k3 ∙ rw (e3, inside) (ground arith)

list-made_ready : (n l : ℕ) (k : Kernel) → 28 ≤ l → (made_ready n k).links.list l ≡ k.links.list l
list-made_ready n l k away =
    list-add_to_ready_list n l (remove_from_blocked_list (some n) k).1 away
    ∙ list-remove_from_blocked_list n l k away

pub transfer-IsOwner :
    (x : Mutex) (n : ℕ) (rest : List ℕ) (k : Kernel)
    → 28 ≤ x.mutex_blocked_list
    → x.inherited_priority < 6
    → IsSound k
    → (k.links.list x.mutex_blocked_list).head ≡ head_or none rest
    → (k.links.list x.mutex_blocked_list).list_end ≡ last_or none rest
    → (k.links.list x.mutex_blocked_list).num_items ≡ length rest
    → IsOwner x rest n (transfer x n k)
unfolding transfer
transfer-IsOwner x n rest k away b v h1 h2 h3 =
    let c = x.mutex_blocked_list in
    let k2 = raise x n (hold x n k) in
    let held = hold-Keeps x n c k v in
    let keep =
      Keeps-trans c k (hold x n k) k2 held (raise-Keeps x n c (hold x n k) away b held.sound) in
    let same = list-made_ready n c k2 away ∙ keep.same in
    let task = tcb-made_ready n k2 (keep.sound.ranges n) in
    record {
      state = ap (λ t. t.current_state) task;
      boosted = λ on. rw task (raise-boosted x n (hold x n k) on);
      head = ap (λ t. t.head) same ∙ h1;
      list_end = ap (λ t. t.list_end) same ∙ h2;
      count = ap (λ t. t.num_items) same ∙ h3;
    }

-- ===== src/Kernel/Semaphore/Count.antt =====
-- What semaphore_give does to the count and to the wait list.
use rpitos.Prelude.{
  ℕ, ◌+◌, ◌<◌, ◌≤◌, ◌≡◌, none, some, List, [], ◌∷◌, arith, head_or, last_or, length,
}
use rpitos.Status.{Status, e_ok, e_resource_exhausted, Run, done}
use rpitos.Kernel.State.{Kernel, resource_acquired, ready, blocked_task_list}
use rpitos.Kernel.Semaphore.{Semaphore}
use rpitos.Kernel.Links.{Links, state_item}
use rpitos.Kernel.Links.Unlink.{list-unlink_other}
use rpitos.Kernel.Scheduler.Blocked.{remove_from_blocked_list}

-- The waiter `t` was given the resource: it is READY with the reason for it, and the wait list
-- `l` goes on with the items `rest`.
pub record IsHanded (l : ℕ) (rest : List ℕ) (t : ℕ) (k : Kernel) : Type 0 where
  pub reason : (k.tcb t).wakeup_reason ≡ resource_acquired
  pub state : (k.tcb t).current_state ≡ ready
  pub head : (k.links.list l).head ≡ head_or none rest
  pub list_end : (k.links.list l).list_end ≡ last_or none rest
  pub count : (k.links.list l).num_items ≡ length rest

-- What semaphore_give does, by the items `xs` that wait.
pub data Gives (p : Semaphore) (k : Kernel) (xs : List ℕ)
    : Run (Status × Semaphore × Kernel) → Type 0 where
  to_waiter :
      (h : ℕ) (rest : List ℕ) (k' : Kernel)
      → xs ≡ h ∷ rest
      → IsHanded p.semaphore_blocked_list rest (k.links.item h).owner k'
      → Gives p k xs (done (e_ok, p, k'))
  counts :
      xs ≡ []
      → p.count < p.max_count
      → Gives p k xs (done (e_ok, record p { count = p.count + 1 }, k))
  full : xs ≡ [] → p.max_count ≤ p.count → Gives p k xs (done (e_resource_exhausted, p, k))

pub list-remove_from_blocked_list :
    (t l : ℕ) (k : Kernel)
    → 28 ≤ l
    → (remove_from_blocked_list (some t) k).1.links.list l ≡ k.links.list l
unfolding remove_from_blocked_list
list-remove_from_blocked_list t l k h =
    ground (arith, list-unlink_other (state_item t) (blocked_task_list (k.tcb t).core_id) l k.links)

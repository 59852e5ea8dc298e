-- ===== src/Kernel/Mutex/Frame.antt =====
-- What the steps of mutex_unlock leave as it is: the wait list, and the ranges of the tasks.
use rpitos.Prelude.{
  ℕ, ◌+◌, ◌%◌, ◌^◌, ◌<◌, ◌≤◌, ◌≡◌, refl, ◌∙◌, not, ◌&&◌, Option, none, some, arith, ◌==◌,
  Bool-cases, inl, inr,
}
use rpitos.Kernel.State.{Kernel, Tcb, set_tcb}
use rpitos.Kernel.Scheduler.Ready.{change_task_priority}
use rpitos.Kernel.Scheduler.Ready.Priority.{
  IsApart, tcb-change_task_priority, list-change_task_priority, IsApart-change_task_priority,
}
use rpitos.Kernel.Mutex.{Mutex, inherits, demote, restore}

-- Priorities and core of a task that task_create made.
pub record InRange (v : Tcb) : Type 0 where
  pub priority : v.priority < 6
  pub base : v.base_priority < 6
  pub core : v.core_id < 4

-- A kernel in which every task is in range and every state item apart from the wait lists.
pub record IsSound (k : Kernel) : Type 0 where
  pub ranges : (t : ℕ) → InRange (k.tcb t)
  pub apart : IsApart k.links

IsSound-change_task_priority :
    (t p : ℕ) (k : Kernel) → p < 6 → IsSound k → IsSound (change_task_priority t p k)
IsSound-change_task_priority t p k b v = record {
  ranges = λ a.
      let r = v.ranges a in
      let r' = v.ranges t in
      rw (tcb-change_task_priority t p a k) (record {
        priority = ground (arith, r.priority);
        base = ground (arith, r.base, r'.base);
        core = ground (arith, r.core, r'.core);
      });
  apart = IsApart-change_task_priority t p k v.apart;
}

-- A step that keeps the kernel sound and list `l` as it is.
pub record Keeps (l : ℕ) (k k' : Kernel) : Type 0 where
  pub sound : IsSound k'
  pub same : k'.links.list l ≡ k.links.list l

pub Keeps-change_task_priority :
    (t p l : ℕ) (k : Kernel) → 28 ≤ l → p < 6 → IsSound k → Keeps l k (change_task_priority t p k)
Keeps-change_task_priority t p l k away b v = record {
  sound = IsSound-change_task_priority t p k b v;
  same = list-change_task_priority t p l k away v.apart;
}

abbrev pub set_held : ℕ → ℕ → Kernel → Kernel
set_held t n k = set_tcb t (record (k.tcb t) { mutexes_held = n }) k

pub Keeps-set_held : (t n l : ℕ) (k : Kernel) → IsSound k → Keeps l k (set_held t n k)
Keeps-set_held t n l k v = record {
  sound = record {
    ranges = λ a.
        let r = v.ranges a in
        let r' = v.ranges t in
        record {
          priority = ground (arith, r.priority, r'.priority);
          base = ground (arith, r.base, r'.base);
          core = ground (arith, r.core, r'.core);
        };
    apart = v.apart;
  };
  same = refl;
}

pub Keeps-trans : (l : ℕ) (k k1 k2 : Kernel) → Keeps l k k1 → Keeps l k1 k2 → Keeps l k k2
Keeps-trans l k k1 k2 a b = record { sound = b.sound; same = b.same ∙ a.same }

pub Keeps-refl : (l : ℕ) (k : Kernel) → IsSound k → Keeps l k k
Keeps-refl l k v = record { sound = v; same = refl }

demote-Keeps : (h l : ℕ) (k : Kernel) → 28 ≤ l → IsSound k → Keeps l k (demote h k)
unfolding demote
demote-Keeps h l k away v =
    elim (Bool-cases
      (((k.tcb h).mutexes_held == 0) && not ((k.tcb h).priority == (k.tcb h).base_priority))) [
        | inl e ↦
            rw e (Keeps-change_task_priority h (k.tcb h).base_priority l k away (v.ranges h).base v)
        | inr e ↦ rw e (Keeps-refl l k v)
      ]

pub restore-Keeps :
    (x : Mutex) (o : Option ℕ) (l : ℕ) (k : Kernel) → 28 ≤ l → IsSound k → Keeps l k (restore x o k)
unfolding restore
restore-Keeps x none l k away v = Keeps-refl l k v
restore-Keeps x (some h) l k away v =
    let held = ((k.tcb h).mutexes_held + 4294967295) % 2 ^ 32 in
    let keep = Keeps-set_held h held l k v in
    elim (Bool-cases (inherits x)) [
      | inl e ↦ rw e (
          Keeps-trans l k (set_held h held k) _ keep
            (demote-Keeps h l (set_held h held k) away keep.sound))
      | inr e ↦ rw e (Keeps-refl l k v)
    ]

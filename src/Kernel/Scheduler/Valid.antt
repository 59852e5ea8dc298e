-- ===== src/Kernel/Scheduler/Valid.antt =====
-- The well-formedness of the scheduler's state.
use rpitos.Prelude.{
  ℕ, ◌+◌, ◌/◌, ◌<◌, ◌^◌, ◌≤◌, ◌≡◌, ◌≢◌, true, some, List, [], ◌∷◌, arith, ◌==◌, false, update,
  length, length-le_of_below,
}
use rpitos.Kernel.Links.{Links, state_item}
use rpitos.Kernel.Links.Contents.{Holds, has-container}
use rpitos.Kernel.Links.Index.{IsTurn}
use rpitos.Kernel.State.{
  running, in_ready, num_task_priorities, max_cores, Tcb, Kernel, ready_list, blocked_task_list,
}

-- All task control blocks lie below this address, and their list items below twice that.
abbrev pub tcb_end : ℕ
tcb_end = 68

abbrev pub item_end : ℕ
item_end = 136

-- The task that a state item lies in.
abbrev pub task_of : ℕ → ℕ
task_of i = i / 2

-- Each wake-up time is at most the next one's.
abbrev pub IsSorted : (ℕ → Tcb) → List ℕ → Type 0
IsSorted f [] = Unit
IsSorted f (x ∷ []) = Unit
IsSorted f (x ∷ y ∷ xs) =
    ((f (task_of x)).wakeup_time ≤ (f (task_of y)).wakeup_time) × IsSorted f (y ∷ xs)

-- `c` is no ready list.
abbrev pub NotReady : ℕ → Type 0
NotReady c = (core p : ℕ) → core < max_cores → p < num_task_priorities → c ≢ ready_list core p

-- List `c` holds the items `s c`; the lists of the cores hold state items; the index of each
-- ready list is a turn.
pub record IsPlaced (m : Links) (s : ℕ → List ℕ) : Type 0 where
  pub holds : Holds m s
  pub bounded : (a c : ℕ) → (m.item a).container ≡ some c → a < item_end
  pub states : (a c : ℕ) → c < 28 → (m.item a).container ≡ some c → a ≡ state_item (task_of a)
  pub turns :
      (core p : ℕ)
      → core < max_cores
      → p < num_task_priorities
      → IsTurn (s (ready_list core p)) (m.list (ready_list core p)).index

-- What a task in a ready list is like.
pub record IsListed (t : Tcb) (core p : ℕ) : Type 0 where
  pub core_id : t.core_id ≡ core
  pub priority : t.priority ≡ p
  pub state : in_ready t.current_state ≡ true

-- The lists are placed; the tasks in the ready list of a core and priority have these and are
-- READY or RUNNING; those in a core's blocked list are of this core, by wake-up time; a RUNNING
-- task is the current one of its core.
pub record IsValid (k : Kernel) (s : ℕ → List ℕ) : Type 0 where
  pub placed : IsPlaced k.links s
  pub listed :
      (t core p : ℕ)
      → core < max_cores
      → p < num_task_priorities
      → (k.links.item (state_item t)).container ≡ some (ready_list core p)
      → IsListed (k.tcb t) core p
  pub blocked :
      (t core : ℕ)
      → core < max_cores
      → (k.links.item (state_item t)).container ≡ some (blocked_task_list core)
      → (k.tcb t).core_id ≡ core
  pub sorted : (core : ℕ) → core < max_cores → IsSorted k.tcb (s (blocked_task_list core))
  pub current :
      (t : ℕ)
      → (k.tcb t).current_state ≡ running
      → (k.current (k.tcb t).core_id ≡ some t) × ((k.tcb t).priority < num_task_priorities)

-- Every list has room for one more item.
pub room : {m : Links} {s : ℕ → List ℕ} → IsPlaced m s → (c : ℕ) → length (s c) + 1 < 2 ^ 16
room {s} v c = omega (
  arith,
  length-le_of_below item_end (s c) (v.holds.lists c).distinct
      (λ a h. v.bounded a c (has-container v.holds a c h)),
)

-- A change of tasks that keeps the wake-up times keeps a list sorted.
pub IsSorted-map :
    (f g : ℕ → Tcb) (xs : List ℕ)
    → ((t : ℕ) → (g t).wakeup_time ≡ (f t).wakeup_time)
    → IsSorted f xs
    → IsSorted g xs
IsSorted-map f g [] same h = tt
IsSorted-map f g (x ∷ []) same h = tt
IsSorted-map f g (x ∷ y ∷ xs) same h =
    (rw (same (task_of x), same (task_of y)) h.0, IsSorted-map f g (y ∷ xs) same h.1)

-- A change to a list that is not a core's blocked list, and to tasks but not their wake-up times.
pub IsSorted-elsewhere :
    {k : Kernel} {s : ℕ → List ℕ} (v : IsValid k s) (f : ℕ → Tcb) (l : ℕ) (xs : List ℕ) (core : ℕ)
    → core < max_cores
    → (blocked_task_list core == l) ≡ false
    → ((t : ℕ) → (f t).wakeup_time ≡ (k.tcb t).wakeup_time)
    → IsSorted f (update s l xs (blocked_task_list core))
IsSorted-elsewhere {k} {s} v f l xs core cb ne same =
    rw ne (IsSorted-map k.tcb f (s (blocked_task_list core)) same (v.sorted core cb))

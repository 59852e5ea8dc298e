-- ===== src/Kernel/Mutex/Release.antt =====
-- mutex_unlock as a whole.
use rpitos.Prelude.{ℕ, ◌≡◌, true, false, none, some, List, [], erase}
use rpitos.Status.{Run, done}
use rpitos.Kernel.State.{Kernel}
use rpitos.Kernel.Mutex.{Mutex, unlocked, is_locked, inherits, waiter_priority}
use rpitos.Kernel.Mutex.Scan.{IsBest}
use rpitos.Kernel.Mutex.Unlock.{IsOwner}
use rpitos.Kernel.Mutex.Holders.{GivesUp, Passes}

-- A holder gives up a mutex with inheritance.
abbrev pub IsRestored : Mutex → Kernel → Kernel → Type 0
IsRestored x k k' =
    (h : ℕ) → x.mutex_owner ≡ some h → inherits x ≡ true → GivesUp (k.tcb h) (k'.tcb h)

-- What mutex_unlock does, by the items `xs` that wait.
pub data Unlocks (x : Mutex) (k : Kernel) (xs : List ℕ) : Run (Mutex × Kernel) → Type 0 where
  unowned : is_locked x.state ≡ false → Unlocks x k xs (done (x, k))
  freed :
      (k' : Kernel)
      → is_locked x.state ≡ true
      → xs ≡ []
      → IsRestored x k k'
      → Unlocks x k xs
          (done (record x { state = unlocked; mutex_owner = none; inherited_priority = 0 }, k'))
  handed :
      (best second : ℕ) (k' : Kernel)
      → is_locked x.state ≡ true
      → IsBest (waiter_priority k) xs best second
      → IsOwner
          (record x { inherited_priority = second })
          (erase best xs)
          (k.links.item best).owner
          k'
      → Passes x (k.links.item best).owner k k'
      → Unlocks x k xs (
          done (
            record x { mutex_owner = some (k.links.item best).owner; inherited_priority = second },
            k',
          ))

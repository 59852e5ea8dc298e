-- ===== src/Kernel/Mutex/Holders.antt =====
-- The counters of held mutexes and the priorities of the old and the new holder in mutex_unlock.
use rpitos.Prelude.{
  ℕ, ◌+◌, ◌%◌, ◌^◌, ◌≡◌, ◌≢◌, refl, sym, ap, ◌∙◌, true, not, ◌&&◌, some, arith, ltb, ◌==◌,
  if◌then◌else◌, Bool-cases, inl, inr,
}
use mathlib.Core.Path.{subst}
use rpitos.Kernel.State.{Kernel, Tcb}
use rpitos.Kernel.Scheduler.Ready.{out_of_range, change_task_priority}
use rpitos.Kernel.Scheduler.Blocked.{remove_from_blocked_list}
use rpitos.Kernel.Scheduler.Ready.Priority.{tcb-add_to_ready_list, tcb-change_task_priority}
use rpitos.Kernel.Mutex.{Mutex, inherits, hold, demote, restore, transfer}
use rpitos.Kernel.Mutex.Frame.{set_held}
use rpitos.Kernel.Mutex.Unlock.{raise, made_ready, tcb-remove_from_blocked_list}

-- A task before and after it gives up a mutex with inheritance.
pub record GivesUp (v v' : Tcb) : Type 0 where
  pub held : v'.mutexes_held ≡ (v.mutexes_held + 4294967295) % 2 ^ 32
  pub priority :
      v'.priority ≡ (if v.mutexes_held % 2 ^ 32 == 1 then v.base_priority else v.priority)

-- The old holder, where it is another task than the new one, and the new one.
pub record Passes (x : Mutex) (n : ℕ) (k k' : Kernel) : Type 0 where
  pub old :
      (h : ℕ) → x.mutex_owner ≡ some h → inherits x ≡ true → h ≢ n → GivesUp (k.tcb h) (k'.tcb h)
  pub new :
      (h : ℕ)
      → x.mutex_owner ≡ some h
      → inherits x ≡ true
      → h ≢ n
      → (k'.tcb n).mutexes_held ≡ ((k.tcb n).mutexes_held + 1) % 2 ^ 32

change_other : (t p a : ℕ) (k : Kernel) → a ≢ t → (change_task_priority t p k).tcb a ≡ k.tcb a
change_other t p a k d = rw (tcb-change_task_priority t p a k) (ground (arith, d))

demote_other : (h a : ℕ) (k : Kernel) → a ≢ h → (demote h k).tcb a ≡ k.tcb a
unfolding demote
demote_other h a k d =
    elim (Bool-cases
      (((k.tcb h).mutexes_held == 0) && not ((k.tcb h).priority == (k.tcb h).base_priority))) [
        | inl e ↦ rw e (change_other h (k.tcb h).base_priority a k d)
        | inr e ↦ rw e refl
      ]

restore_other : (x : Mutex) (h a : ℕ) (k : Kernel) → a ≢ h → (restore x (some h) k).tcb a ≡ k.tcb a
unfolding restore
restore_other x h a k d =
    let n = ((k.tcb h).mutexes_held + 4294967295) % 2 ^ 32 in
    elim (Bool-cases (inherits x)) [
      | inl e ↦ rw e (demote_other h a (set_held h n k) d ∙ ground (arith, d))
      | inr e ↦ rw e refl
    ]

hold_other : (x : Mutex) (n a : ℕ) (k : Kernel) → a ≢ n → (hold x n k).tcb a ≡ k.tcb a
hold_other x n a k d = elim (Bool-cases (inherits x)) [
  | inl e ↦ rw (e, hold) (ground (arith, d))
  | inr e ↦ rw (e, hold) refl
]

raise_other : (x : Mutex) (n a : ℕ) (k : Kernel) → a ≢ n → (raise x n k).tcb a ≡ k.tcb a
raise_other x n a k d =
    elim (Bool-cases (inherits x && ltb (k.tcb n).priority x.inherited_priority)) [
      | inl e ↦ rw (e, raise) (change_other n x.inherited_priority a k d)
      | inr e ↦ rw (e, raise) refl
    ]

made_ready_other : (n a : ℕ) (k : Kernel) → a ≢ n → (made_ready n k).tcb a ≡ k.tcb a
made_ready_other n a k d =
    let k3 = (remove_from_blocked_list (some n) k).1 in
    let e3 = tcb-remove_from_blocked_list n a k in
    elim (Bool-cases (out_of_range (k3.tcb n))) [
      | inl e ↦ tcb-add_to_ready_list n a k3 ∙ rw e e3
      | inr e ↦ tcb-add_to_ready_list n a k3 ∙ rw e (ground (arith, d) ∙ e3)
    ]

transfer_other : (x : Mutex) (n a : ℕ) (k : Kernel) → a ≢ n → (transfer x n k).tcb a ≡ k.tcb a
unfolding transfer
transfer_other x n a k d =
    made_ready_other n a (raise x n (hold x n k)) d
    ∙ raise_other x n a (hold x n k) d
    ∙ hold_other x n a k d

made_ready_held :
    (n : ℕ) (k : Kernel) → ((made_ready n k).tcb n).mutexes_held ≡ (k.tcb n).mutexes_held
made_ready_held n k =
    let k3 = (remove_from_blocked_list (some n) k).1 in
    let e3 = ap (λ v. v.mutexes_held) (tcb-remove_from_blocked_list n n k) in
    let made = ap (λ v. v.mutexes_held) (tcb-add_to_ready_list n n k3) in
    elim (Bool-cases (out_of_range (k3.tcb n))) [
      | inl e ↦ made ∙ rw e e3
      | inr e ↦ made ∙ rw e (ground arith ∙ e3)
    ]

raise_held :
    (x : Mutex) (n : ℕ) (k : Kernel) → ((raise x n k).tcb n).mutexes_held ≡ (k.tcb n).mutexes_held
raise_held x n k = elim (Bool-cases (inherits x && ltb (k.tcb n).priority x.inherited_priority)) [
  | inl e ↦ rw (e, raise) (rw (tcb-change_task_priority n x.inherited_priority n k) (ground arith))
  | inr e ↦ rw (e, raise) refl
]

transfer_held :
    (x : Mutex) (n : ℕ) (k : Kernel)
    → inherits x ≡ true
    → ((transfer x n k).tcb n).mutexes_held ≡ ((k.tcb n).mutexes_held + 1) % 2 ^ 32
unfolding transfer
transfer_held x n k on =
    made_ready_held n (raise x n (hold x n k))
    ∙ raise_held x n (hold x n k)
    ∙ rw (on, hold) (ground arith)

demote_held : (h : ℕ) (k : Kernel) → ((demote h k).tcb h).mutexes_held ≡ (k.tcb h).mutexes_held
unfolding demote
demote_held h k =
    elim (Bool-cases
      (((k.tcb h).mutexes_held == 0) && not ((k.tcb h).priority == (k.tcb h).base_priority))) [
        | inl e ↦ rw e (rw (tcb-change_task_priority h (k.tcb h).base_priority h k) (ground arith))
        | inr e ↦ rw e refl
      ]

demote_priority :
    (h : ℕ) (k : Kernel)
    → ((demote h k).tcb h).priority
      ≡ (if (k.tcb h).mutexes_held == 0 then (k.tcb h).base_priority else (k.tcb h).priority)
unfolding demote
demote_priority h k = elim (Bool-cases ((k.tcb h).mutexes_held == 0)) [
  | inr z ↦ rw z refl
  | inl z ↦ elim (Bool-cases ((k.tcb h).priority == (k.tcb h).base_priority)) [
    | inl e ↦ rw (z, e) (ground (arith, e))
    | inr e ↦ rw (z, e) (rw (tcb-change_task_priority h (k.tcb h).base_priority h k) (ground arith))
  ]
]

last_one : (n : ℕ) → ((n + 4294967295) % 2 ^ 32 == 0) ≡ (n % 2 ^ 32 == 1)
last_one n = ground arith

pub restore-GivesUp :
    (x : Mutex) (h : ℕ) (k : Kernel)
    → inherits x ≡ true
    → GivesUp (k.tcb h) ((restore x (some h) k).tcb h)
unfolding restore
restore-GivesUp x h k on =
    let n = ((k.tcb h).mutexes_held + 4294967295) % 2 ^ 32 in
    rw on (record {
      held = demote_held h (set_held h n k) ∙ ground arith;
      priority =
          demote_priority h (set_held h n k)
          ∙ (let e : (h == h) ≡ true = ground arith in
              rw (e, last_one (k.tcb h).mutexes_held) refl);
    })

pub transfer-Passes :
    (x x1 : Mutex) (n : ℕ) (k : Kernel)
    → inherits x1 ≡ inherits x
    → Passes x n k (transfer x1 n (restore x x.mutex_owner k))
transfer-Passes x x1 n k same = record {
  old = λ h own on d.
      subst (λ o. GivesUp (k.tcb h) ((transfer x1 n (restore x o k)).tcb h)) (sym own)
        (subst (GivesUp (k.tcb h)) (sym (transfer_other x1 n h (restore x (some h) k) d))
          (restore-GivesUp x h k on));
  new = λ h own on d.
      ap (λ o. ((transfer x1 n (restore x o k)).tcb n).mutexes_held) own
      ∙ transfer_held x1 n (restore x (some h) k) (same ∙ on)
      ∙ ap (λ v. (v.mutexes_held + 1) % 2 ^ 32) (restore_other x h n k (λ e. d (sym e)));
}

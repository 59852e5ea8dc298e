-- ===== src/Kernel/Timers.antt =====
-- The software timers of source/kernel/software_timer/software_timer.c: two singly linked lists, of the
-- timers that count down and of those that have expired. A timer is known by its address. `fuel`
-- bounds the rounds of a loop over a list. A callback is code of the application, so
-- the service task is cut at its calls: `take_expired` is before a call and `rearm` after it.
pub mod Insert
pub mod Arm
mod Tests
use rpitos.Prelude.{
  ℕ, zero, suc, ◌+◌, ◌^◌, Bool, true, false, Option, none, some, ltb, leb, if◌then◌else◌, ◌==◌,
  update, same_ptr, is_some,
}
use rpitos.Status.{Status, e_ok, e_invalid_args, Run, done, spin, ◌>>=◌}
use rpitos.Kernel.State.{Kernel, add64}
use rpitos.Kernel.Scheduler.Delay.{get_current_task, get_tick_count}
use rpitos.Kernel.Semaphore
use rpitos.Kernel.Semaphore.{Semaphore, give}

pub data TimerMode : Type 0 where
  one_shot periodic : TimerMode

pub data TimerListId : Type 0 where
  in_none in_blocked in_active : TimerListId

-- `callback` is the address of the code, if there is one.
pub record Timer : Type 0 where
  pub expiry_tick : ℕ
  pub period : ℕ
  pub timer_mode : TimerMode
  pub callback : Option ℕ
  pub list_id : TimerListId
  pub next : Option ℕ

pub record Timers : Type 0 where
  pub timer : ℕ → Timer
  pub blocked_list_head : Option ℕ
  pub active_list_head : Option ℕ
  pub software_timer_semaphore : Semaphore

abbrev pub set_timer : ℕ → Timer → Timers → Timers
set_timer t v s = record s { timer = update s.timer t v }

abbrev pub link : ℕ → Option ℕ → Timers → Timers
link t n s = set_timer t (record (s.timer t) { next = n }) s

-- `while (iter != NULL && iter->next != timer) iter = iter->next;`
unfoldable pub find_before : ℕ → Option ℕ → ℕ → Timers → Run (Option ℕ)
find_before fuel none t s = done none
find_before zero (some i) t s = spin
find_before (suc fuel) (some i) t s =
    let rest = find_before fuel (s.timer i).next t s in
    if same_ptr (s.timer i).next (some t) then done (some i) else rest

-- Whether the timer was in the list from `head` on, the list's new head, and the timers.
unfoldable pub unlink : ℕ → Option ℕ → ℕ → Timers → Run (Bool × Option ℕ × Timers)
unfolding find_before
unlink fuel head t s =
    if same_ptr head (some t)
    then done (true, (s.timer t).next, link t none s)
    else find_before fuel head t s >>= λ r. elim r [
      | none ↦ done (false, head, s)
      | some i ↦ done (true, head, link t none (link i (s.timer t).next s))
    ]

-- `while (iter->next != NULL && iter->next->expiry_tick <= expiry_tick) iter = iter->next;`
unfoldable pub find_place : ℕ → ℕ → ℕ → Timers → Run ℕ
find_place zero i expiry s = spin
find_place (suc fuel) i expiry s = elim ((s.timer i).next) [
  | none ↦ done i
  | some n ↦
      let rest = find_place fuel n expiry s in
      if leb (s.timer n).expiry_tick expiry then rest else done i
]

-- Before the head.
abbrev pub put_first : ℕ → Timers → Timers
put_first t s = record (link t s.blocked_list_head s) { blocked_list_head = some t }

-- Behind the timer `i`.
abbrev pub put_behind : ℕ → ℕ → Timers → Timers
put_behind t i s = link i (some t) (link t (s.timer i).next s)

unfoldable pub insert_from : ℕ → ℕ → Option ℕ → Timers → Run Timers
unfolding find_place
insert_from fuel t none s = done (put_first t s)
insert_from fuel t (some h) s =
    let expiry = (s.timer t).expiry_tick in
    if ltb expiry (s.timer h).expiry_tick
    then done (put_first t s)
    else find_place fuel h expiry s >>= λ i. done (put_behind t i s)

unfoldable pub add_to_blocked_list : ℕ → ℕ → Timers → Run Timers
unfolding insert_from
add_to_blocked_list fuel t s =
    insert_from fuel t s.blocked_list_head
      (set_timer t (record (s.timer t) { list_id = in_blocked; next = none }) s)

unfoldable pub pop_to_active : ℕ → ℕ → Timers → Run Timers
unfolding unlink
pop_to_active fuel t s = unlink fuel s.blocked_list_head t s >>= λ (found, head, s1).
    if found
    then done (
        set_timer t (record (s1.timer t) { next = s1.active_list_head; list_id = in_active })
          (record s1 { blocked_list_head = head; active_list_head = some t }))
    else done s1

-- What the service task does once it has taken the semaphore: the expired timer, if any.
unfoldable pub take_expired : Timers → Option ℕ × Timers
take_expired s = elim (s.active_list_head) [
  | none ↦ (none, s)
  | some t ↦ (
    some t,
    set_timer t (record (s.timer t) { next = none; list_id = in_none })
        (record s { active_list_head = (s.timer t).next }),
  )
]

abbrev pub set_expiry : ℕ → ℕ → Timers → Timers
set_expiry t e s = set_timer t (record (s.timer t) { expiry_tick = e }) s

-- What it does after the callback.
unfoldable pub rearm : ℕ → ℕ → Timers → Run Timers
unfolding add_to_blocked_list
rearm fuel t s = elim ((s.timer t).timer_mode) [
  | one_shot ↦ done s
  | periodic ↦
      add_to_blocked_list fuel t (set_expiry t (add64 (s.timer t).expiry_tick (s.timer t).period) s)
]

-- `l` is the address of the semaphore's wait list.
unfoldable pub init : ℕ → Timers → Kernel → Status × Timers × Kernel
unfolding Semaphore.init
init l s k =
    let (semaphore, k1) = Semaphore.init l 4294967295 0 k in
    (
      e_ok,
      record s {
        blocked_list_head = none;
        active_list_head = none;
        software_timer_semaphore = semaphore;
      },
      k1,
    )

abbrev pub is_zero : ℕ → Bool
is_zero n = n == 0

-- A timer that is created by a task is armed at once.
unfoldable pub create :
    (fuel core : ℕ) (t : Option ℕ) (period : ℕ)
    → Option ℕ
    → TimerMode
    → Timers
    → Kernel
    → Run (Status × Timers)
unfolding get_current_task add_to_blocked_list
create fuel core none period callback mode s k = done (e_invalid_args, s)
create fuel core (some t) period callback mode s k =
    let s1 =
      set_timer t
        (record {
          expiry_tick = 0;
          period = period;
          timer_mode = mode;
          callback = callback;
          list_id = in_none;
          next = none;
        })
        s in
    if is_zero period
    then done (e_invalid_args, s)
    else if is_some (get_current_task core k)
    then (add_to_blocked_list fuel t (set_expiry t (add64 (get_tick_count core k) period) s1)
        >>= λ s2. done (e_ok, s2))
    else done (e_ok, s1)

-- Out of the list that it is in.
unfoldable pub leave : ℕ → ℕ → TimerListId → Timers → Run Timers
unfolding unlink
leave fuel t in_none s = done s
leave fuel t in_blocked s = unlink fuel s.blocked_list_head t s >>= λ (found, head, s1).
    done (record s1 { blocked_list_head = head })
leave fuel t in_active s = unlink fuel s.active_list_head t s >>= λ (found, head, s1).
    done (record s1 { active_list_head = head })

unfoldable pub stop : ℕ → Option ℕ → Timers → Run (Status × Timers)
unfolding leave
stop fuel none s = done (e_invalid_args, s)
stop fuel (some t) s = leave fuel t (s.timer t).list_id s >>= λ s1.
    done (e_ok, set_timer t (record (s1.timer t) { list_id = in_none }) s1)

unfoldable pub reset : (fuel core : ℕ) → Option ℕ → Timers → Kernel → Run (Status × Timers)
unfolding leave add_to_blocked_list
reset fuel core none s k = done (e_invalid_args, s)
reset fuel core (some t) s k = leave fuel t (s.timer t).list_id s >>= λ s1.
    add_to_blocked_list fuel t (set_expiry t (add64 (get_tick_count core k) (s1.timer t).period) s1)
    >>= λ s2. done (e_ok, s2)

unfoldable pub expire : ℕ → ℕ → Timers → Kernel → Run (Timers × Kernel)
unfolding pop_to_active
expire fuel t s k = pop_to_active fuel t s >>= λ s1. give s1.software_timer_semaphore k >>= λ r.
    done (record s1 { software_timer_semaphore = r.1 }, r.2)

-- The loop of software_timer_tick, of `rounds` at most.
unfoldable pub tick : (rounds fuel now_tick : ℕ) → Timers → Kernel → Run (Timers × Kernel)
unfolding expire
tick zero fuel now_tick s k = elim (s.blocked_list_head) [
  | none ↦ done (s, k)
  | some h ↦ if leb (s.timer h).expiry_tick now_tick then spin else done (s, k)
]
tick (suc rounds) fuel now_tick s k = elim (s.blocked_list_head) [
  | none ↦ done (s, k)
  | some h ↦
      let rest = expire fuel h s k >>= λ r. tick rounds fuel now_tick r.0 r.1 in
      if leb (s.timer h).expiry_tick now_tick then rest else done (s, k)
]

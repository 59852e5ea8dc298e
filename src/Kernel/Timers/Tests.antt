-- ===== src/Kernel/Timers/Tests.antt =====
-- The theorem at a list of two timers.
use rpitos.Prelude.{refl, none, some, [], ◌∷◌, arith, if◌then◌else◌, ◌==◌}
use rpitos.Kernel.Timers.{Timers, one_shot, in_none, add_to_blocked_list}
use rpitos.Kernel.Timers.Arm.{IsArmed, IsCountdown, add_to_blocked_list-IsArmed}

-- Timer 1 is before timer 2; timer 3 expires with timer 1.
abbrev two_timers : Timers
two_timers = record {
  timer = λ a. record {
    expiry_tick = if a == 2 then 20 else 10;
    period = 5;
    timer_mode = one_shot;
    callback = none;
    list_id = in_none;
    next = if a == 1 then some 2 else none;
  };
  blocked_list_head = some 1;
  active_list_head = none;
  software_timer_semaphore = record { max_count = 9; count = 0; semaphore_blocked_list = 28 };
}

two_timers-IsCountdown : IsCountdown two_timers (1 ∷ 2 ∷ [])
two_timers-IsCountdown = record {
  head = refl;
  chain = (refl, (refl, tt));
  distinct = (refl, (refl, tt));
  ascending = (omega arith, tt);
}

add_to_blocked_list-IsArmed_example :
    IsArmed two_timers 3 (1 ∷ 2 ∷ []) (add_to_blocked_list 2 3 two_timers)
add_to_blocked_list-IsArmed_example =
    add_to_blocked_list-IsArmed two_timers 3 2 (1 ∷ 2 ∷ []) two_timers-IsCountdown refl
      (omega arith)

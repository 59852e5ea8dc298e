-- ===== src/Watchdog.antt =====
-- The report of each core to the watchdog, watchdog_core_kick of source/drivers/watchdog/watchdog.c, in the
-- build for several cores. `kicks` counts the writes of watchdog_kick to the register. A report is one step:
-- the reports are taken one after the other, although watchdog_core_kick takes no lock.
pub mod Rounds
mod Tests
use rpitos.Prelude.{
  ℕ, zero, suc, ◌+◌, ◌/◌, ◌%◌, ◌^◌, Bool, true, false, not, ◌==◌, ◌&&◌, ◌||◌, ltb, if◌then◌else◌,
  update,
}
use rpitos.Status.{Status, e_ok, e_not_initialized}

abbrev pub core_count : ℕ
core_count = 4

-- The CompanionCoreContext that the reports use, and the register.
pub record Gate : Type 0 where
  pub expected_mask : ℕ
  pub core_kicked : ℕ → ℕ
  pub kicks : ℕ

-- The configuration: whether there is one, multicore_mode, and whether it has a context.
pub record Config : Type 0 where
  pub is_set : Bool
  pub multicore_mode : Bool
  pub has_context : Bool

abbrev pub kick : Gate → Gate
kick g = record g { kicks = g.kicks + 1 }

-- `(mask & (1U << i)) != 0U`.
abbrev pub is_expected : ℕ → ℕ → Bool
is_expected mask i = mask / 2 ^ i % 2 == 1

-- The loop over `n` cores from `i` on: whether one that is expected has not reported.
unfoldable pub is_missing : ℕ → (ℕ → ℕ) → ℕ → ℕ → Bool
is_missing mask kicked zero i = false
is_missing mask kicked (suc n) i =
    (is_expected mask i && (kicked i == 0)) || is_missing mask kicked n (i + 1)

-- A report in multicore mode.
unfoldable pub report : ℕ → Gate → Gate
report core g =
    let k = update g.core_kicked core 1 in
    if is_missing g.expected_mask k core_count 0
    then record g { core_kicked = k }
    else kick (record g { core_kicked = λ i. if ltb i core_count then 0 else k i })

unfoldable pub core_kick : Config → ℕ → Gate → Status × Gate
core_kick c core g =
    if c.is_set
    then (if not c.multicore_mode || not c.has_context
        then (e_ok, kick g)
        else (e_ok, report core g))
    else (e_not_initialized, g)

-- ===== src/Kernel/Scheduler.antt =====
-- The scheduler of source/kernel/scheduler/scheduler.c, for a build without telemetry. A function
-- that takes `TaskControlBlock **tcb` gets `*tcb` here, and `none` stands for NULL at either
-- level. `core` is what companion_core_id() returns. Each function runs under the core's
-- scheduler lock, as the source demands, so it is one step.
pub mod Valid
pub mod Placed
pub mod Ready
pub mod Init
pub mod Switch
pub mod Blocked
pub mod Delay
pub mod Tick
mod Tests

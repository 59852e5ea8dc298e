-- ===== src/Kernel.antt =====
-- The kernel of source/kernel.
pub mod Links
pub mod State
pub mod Scheduler
pub mod Heap
pub mod Semaphore
pub mod Queue
pub mod Mutex
pub mod Spinlock
pub mod Task
pub mod Timers
mod Samples

-- ===== src/Kernel/Semaphore/Tests.antt =====
-- The semaphore's theorem at a semaphore with one waiter.
use rpitos.Kernel.Samples.{empty_kernel}
use rpitos.Kernel.State.{Kernel}
use rpitos.Kernel.Semaphore.{Semaphore, add_to_wait_list}

abbrev taken : Semaphore
taken = record { max_count = 1; count = 0; semaphore_blocked_list = 28 }

-- Task 3 waits.
abbrev one_waits : Kernel
one_waits = add_to_wait_list taken 3 empty_kernel

-- ===== src/Kernel/Task/Tests.antt =====
-- The theorem at the first task of core 0.
use rpitos.Prelude.{ℕ, arith}
use rpitos.Kernel.Samples.{empty_kernel}
use rpitos.Kernel.Task.{create}
use rpitos.Kernel.Task.Stack.{Creates, create-Creates}

abbrev no_tasks : ℕ → ℕ
no_tasks core = 0

create-Creates_example :
    Creates 0 64 3 no_tasks 0 empty_kernel (create 0 4096 8192 64 3 7 no_tasks 0 empty_kernel)
create-Creates_example =
    create-Creates 0 4096 8192 64 3 7 no_tasks 0 empty_kernel (omega arith) (omega arith)

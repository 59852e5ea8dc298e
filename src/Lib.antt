-- ===== src/Lib.antt =====
-- rpitos: a model of the kernel and the boot chain of a bare-metal real-time operating system for the Raspberry Pi
-- CM4, with the theorems that make its parts correct.
--
-- Parts, by the files that model them (paths of the code are from the repository's root):
--   Status           source/libraries/status/status.h, and runs that may fault or never return.
--   Kernel.Links     the intrusive doubly linked lists (struct List, struct ListItem) of
--                    source/kernel/task_types, as a memory of items and lists at addresses, with
--                    the pointer writes that scheduler.c, mutex.c and semaphore.c share. Chain
--                    says which sequence of items a list stands for; Cut, Splice, Unlink and
--                    PushBack show what the writes do to it; Contents does so for the whole memory, Index
--                    for the round-robin pointer.
--   Kernel.State     task control blocks, cores, and where lists and blocks lie.
--   Kernel.Scheduler source/kernel/scheduler/scheduler.c: Init, Ready, Blocked, Switch, Delay and
--                    Tick hold the functions, one for each of the source; Valid is the well-formedness
--                    of the state, and the modules below Ready and Switch the proofs.
--   Kernel.Heap      source/kernel/heap/heap.c, the bump allocator.
--   Kernel.Task      source/kernel/task/task.c: task_create; Stack is about what it returns.
--   Kernel.Timers    source/kernel/software_timer/software_timer.c: the service task is cut at its
--                    callback; Insert and Arm are about the list that counts down.
--   Kernel.Spinlock  source/kernel/spinlock/spinlock.c: the steps of the bakery lock; Order is about
--                    the tests that its waits repeat, Cores interleaves four cores on it, Bakery and
--                    Exclusion are about what holds after any interleaving.
--   Kernel.Mutex     source/kernel/mutex/mutex.c: mutex_lock is cut at its busy wait into begin_lock
--                    and finish_lock; Scan, Frame, Unlock, Holders and Release are about mutex_unlock.
--   Kernel.Semaphore source/kernel/semaphore/semaphore.c: semaphore_take is cut at its busy wait
--                    into attempt and resume; Count is about semaphore_give.
--   Crc              source/drivers/crc/crc.c, with the CPU's crc32 instructions as arguments.
--   Kernel.Queue     source/kernel/queue/queue.c: the critical sections are put and take, send and
--                    recv go on to semaphore_give; Slots and Fifo relate the ring to a list of items.
--   Boot.Disk        the sector map of source/drivers/emmc/emmc.h, and the transfers and the crc32
--                    instructions as the parameters Machine; IsWorking is what a device without faults
--                    promises, for counts below 65536, which is
--                    what the controller can count, and Boot.Tests has an instance.
--   Boot.Meta        the boot metadata of source/drivers/watchdog/watchdog.c; Store is about what is read
--                    after a write.
--   Boot.Flags, Boot.App  source/boot/boot_flags and source/boot/boot: the flags, and the validation
--                    and loading of an image; Image is about the bytes that are validated.
--   Boot.Loader      bootloader_init of source/samples/boot/bootloader/main.c; Steps and Trial are
--                    about a slot on trial over several boots.
--   Boot.Trigger     source/boot/dfu_trigger: the matcher of the key that asks for an update.
--   Boot.Dfu         source/boot/dfu_receive: Packet receives one packet (Fuel and Framing are about
--                    it), Dfu has the commands on the state of a session, Loop the wait for the
--                    trigger and the loop, Ends and Finish what it comes to. Data and Receive are about the bytes on their way to the
--                    disk, Commit and Transfer about CMD_FINISH, Whole about a whole session.
--   Watchdog         watchdog_core_kick of source/drivers/watchdog/watchdog.c; Rounds is about the
--                    reports of the cores in any order.
--   Emmc             source/drivers/emmc/emmc.c: its waits, commands and clock on a controller that is a
--                    parameter. Adma has the descriptor table, Walk and Table what the controller does with it;
--                    Transfer the reads and writes, Setup emmc_init. Spy writes down the commands; Commands,
--                    Kept, Sectors, Quiet and Once are about which ones there are.
--   Telemetry        source/telemetry/telemetry_frame.c: the framing; Stream is about what a receiver makes of it.
--                    Reports and Rings have source/telemetry/telemetry.c; Fifo is about the rings.
--   Uart             the transmit ring of source/drivers/uart/uart.c; Drain is about how the transmit task
--                    empties it. Print has format_uint and uart_vprintf, Digits, Chunks and Pieces are about them;
--                    Fault has uart_fault_report.
--
-- How the state corresponds: a pointer is an address or, where it may be NULL, an Option; the
-- item at 2 * t is state_list_item of task t, that at 2 * t + 1 its event_list_item; core c has
-- its six ready lists from address 7 * c on and its blocked list behind them; lists from 28 on
-- are those of mutexes and semaphores. companion_core_id() is an argument. uint16_t, uint32_t and
-- uint64_t sums wrap as in C, but for the sector numbers and the count of hashed bytes of an update, which
-- would wrap only after about 2^41 bytes. `s` in a statement gives the items of each list, in order.
--
-- Steps: each function that the source runs under a lock with interrupts masked is one step. A
-- busy wait on the task's own state is not a step: what comes before it and what comes after it
-- are functions of their own. Loops over a list take its num_items as fuel; a valid list has as
-- many items, so the fuel suffices, and running out of it is the outcome `spin`. A loop over timers
-- takes its fuel as an argument, which the number of timers in the list bounds. The loop over a packet
-- takes as many turns as the line brings events, and one; that over an image one for each sector.
-- The serial line is a list of events, a byte or a silence longer than the time out.
--
-- Boot: a pointer to a buffer of bytes is a function from indices; a status that the source only prints
-- is dropped; what the stack or a static holds before a call is an argument.
--
-- Not modelled: the I2C and PWM drivers, what else the UART driver does, the kernel's calls of telemetry
-- (it is that of a build without RTOS_TELEMETRY), the recovery window of the bootloader, assembly, and devices
-- other than through what a read or write of their registers gives.
-- Memory is sequentially consistent between the steps.
pub mod Prelude
pub mod Status
pub mod Kernel
pub mod Boot
pub mod Crc
pub mod Emmc
pub mod Telemetry
pub mod Uart
pub mod Watchdog

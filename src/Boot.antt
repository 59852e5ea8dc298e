-- ===== src/Boot.antt =====
-- The boot chain: source/boot, source/samples/boot, and the metadata of source/drivers/watchdog.
pub mod Disk
pub mod Trigger
pub mod Meta
pub mod Flags
pub mod App
pub mod Loader
pub mod Dfu
mod Tests

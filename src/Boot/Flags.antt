-- ===== src/Boot/Flags.antt =====
-- The flags of source/boot/boot_flags, which outlive a warm reset. `boot_flags` is an argument and a result.
use rpitos.Prelude.{ℕ, Bool, ◌==◌, if◌then◌else◌}

abbrev pub boot_flags_magic : ℕ
boot_flags_magic = 0xB007F1A6

abbrev pub dfu_request : ℕ
dfu_request = 0xB007AB1E

abbrev pub reset_reason_cold : ℕ
reset_reason_cold = 0

abbrev pub reset_reason_software : ℕ
reset_reason_software = 2

pub record BootFlags : Type 0 where
  pub magic : ℕ
  pub reset_reason : ℕ
  pub dfu_requested : ℕ
  pub fw_crc_ok : ℕ

abbrev pub flags_valid : BootFlags → Bool
flags_valid f = f.magic == boot_flags_magic

abbrev pub cold_flags : BootFlags
cold_flags = record {
  magic = boot_flags_magic;
  reset_reason = reset_reason_cold;
  dfu_requested = 0;
  fw_crc_ok = 0;
}

unfoldable pub flags_init : BootFlags → BootFlags
flags_init f = if flags_valid f then f else cold_flags

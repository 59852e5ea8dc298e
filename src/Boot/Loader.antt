-- ===== src/Boot/Loader.antt =====
-- The bootloader of source/samples/boot/bootloader/main.c: what bootloader_init decides from the metadata and
-- the flags. Its prints, and the state of the uart, jtag and eMMC devices it starts, are left out.
pub mod Steps
pub mod Trial
use rpitos.Prelude.{ℕ, ◌+◌, ◌%◌, ◌^◌, Bool, true, false, ◌==◌, ◌&&◌, ◌||◌, ltb, leb, if◌then◌else◌}
use rpitos.Status.{Status, is_ok}
use rpitos.Boot.Disk.{Disk, Machine, slot_to_sector, slot_other}
use rpitos.Boot.Flags.{BootFlags, flags_init, dfu_request, reset_reason_cold, reset_reason_software}
use rpitos.Boot.Meta.{WdtMeta, read, write}
use rpitos.Boot.App.{validate_app}

abbrev pub app_slot_trial_max_attempts : ℕ
app_slot_trial_max_attempts = 3

abbrev pub policy_force_update : ℕ
policy_force_update = 0

abbrev pub policy_rollback : ℕ
policy_rollback = 2

abbrev pub roll_back : WdtMeta → WdtMeta
roll_back m = record m {
  active_app_slot = slot_other m.active_app_slot;
  app_slot_trial = 0;
  trial_boot_count = 0;
}

-- The metadata after the trial of the active slot is judged, and whether it was rolled back.
unfoldable pub resolve_trial : WdtMeta → WdtMeta × Bool
resolve_trial m =
    let n = (m.trial_boot_count + 1) % 2 ^ 32 in
    let m1 = record m { trial_boot_count = n } in
    if m.app_slot_trial == 0
    then (m, false)
    else (if leb app_slot_trial_max_attempts n then (roll_back m1, true) else (m1, false))

abbrev pub count_reset : WdtMeta → WdtMeta
count_reset m = record m { wdt_reset_count = (m.wdt_reset_count + 1) % 2 ^ 32 }

-- A word as an `int32_t` is not negative.
abbrev pub nonnegative : ℕ → Bool
nonnegative n = ltb n (2 ^ 31)

abbrev pub tolerance_exceeded : WdtMeta → Bool
tolerance_exceeded m =
    nonnegative m.wdt_reset_tolerance
    && nonnegative m.wdt_reset_count
    && ltb m.wdt_reset_tolerance m.wdt_reset_count

-- The policy for too many resets: the metadata, the flags, and whether the slot is to be validated.
unfoldable pub apply_tolerance : WdtMeta → BootFlags → WdtMeta × BootFlags × Bool
apply_tolerance m f =
    let cleared = record m { wdt_reset_count = 0 } in
    let update = record f { dfu_requested = dfu_request; reset_reason = reset_reason_software } in
    if tolerance_exceeded m
    then (if m.wdt_reset_policy == policy_force_update
        then (cleared, update, false)
        else (if m.wdt_reset_policy == policy_rollback
            then (roll_back cleared, f, true)
            else (m, f, false)))
    else (m, f, false)

module _ (h : Machine) where
  -- The flags after the active slot is validated.
  unfoldable pub revalidate : WdtMeta → BootFlags → Disk → BootFlags
  revalidate m f d = record f {
    fw_crc_ok = if is_ok (validate_app h (slot_to_sector m.active_app_slot) d) then 1 else 0;
  }

  -- The new metadata and flags, from the metadata that was read.
  unfoldable pub judge : WdtMeta → BootFlags → Disk → WdtMeta × BootFlags
  judge m f d =
      let t = resolve_trial m in
      let p = apply_tolerance (count_reset t.0) f in
      let r = (f.reset_reason == reset_reason_cold) || t.1 || p.2 in
      (p.0, if r then revalidate p.0 p.1 d else p.1)

  unfoldable pub bootloader_init : WdtMeta → BootFlags → Disk → WdtMeta × BootFlags × Disk
  bootloader_init m f d =
      let j = judge (read h m d).1 (flags_init f) d in let w = write h j.0 d in (w.1, j.1, w.2)

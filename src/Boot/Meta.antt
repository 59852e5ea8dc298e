-- ===== src/Boot/Meta.antt =====
-- The boot metadata of source/drivers/watchdog/watchdog.c, which the watchdog, the bootloader and the update
-- share: one sector with a magic number and a checksum. `wdt_meta` is an argument and a result.
pub mod Store
use rpitos.Prelude.{ℕ, ◌+◌, ◌^◌, ◌-◌, Bool, ◌==◌, ◌&&◌, List, [], ◌∷◌, byte_at, if◌then◌else◌}
use rpitos.Status.{Status, e_ok}
use rpitos.Crc.{hw_update, start, finish}
use rpitos.Boot.Disk.{
  Disk, Machine, read_block, emmc_sector_metadata, word_at, word_bytes, app_slot_a,
}

abbrev pub wdt_meta_magic : ℕ
wdt_meta_magic = 0xB007DA7A

-- -1, as a word.
abbrev pub watchdog_reset_tolerance_infinite : ℕ
watchdog_reset_tolerance_infinite = 0xFFFFFFFF

pub record WdtMeta : Type 0 where
  pub magic : ℕ
  pub wdt_reset_count : ℕ
  pub wdt_reset_tolerance : ℕ
  pub wdt_reset_policy : ℕ
  pub wdt_reset_reason : ℕ
  pub active_app_slot : ℕ
  pub app_slot_trial : ℕ
  pub trial_boot_count : ℕ
  pub crc : ℕ

abbrev pub defaults : WdtMeta
defaults = record {
  magic = wdt_meta_magic;
  wdt_reset_count = 0;
  wdt_reset_tolerance = watchdog_reset_tolerance_infinite;
  wdt_reset_policy = 0;
  wdt_reset_reason = 0;
  active_app_slot = app_slot_a;
  app_slot_trial = 0;
  trial_boot_count = 0;
  crc = 0;
}

-- The fields in a sector, and the fields as bytes: all but `crc`, then `crc`.
abbrev pub meta_at : (ℕ → ℕ) → WdtMeta
meta_at f = record {
  magic = word_at f 0;
  wdt_reset_count = word_at f 4;
  wdt_reset_tolerance = word_at f 8;
  wdt_reset_policy = word_at f 12;
  wdt_reset_reason = word_at f 16;
  active_app_slot = word_at f 20;
  app_slot_trial = word_at f 24;
  trial_boot_count = word_at f 28;
  crc = word_at f 32;
}

abbrev pub meta_bytes : WdtMeta → List ℕ → List ℕ
meta_bytes m rest = word_bytes m.magic (
    word_bytes m.wdt_reset_count (
      word_bytes m.wdt_reset_tolerance (
        word_bytes m.wdt_reset_policy (
          word_bytes m.wdt_reset_reason (
            word_bytes m.active_app_slot
              (word_bytes m.app_slot_trial (word_bytes m.trial_boot_count rest)))))))

-- The sector that wdt_meta_write fills.
abbrev pub sector_of : WdtMeta → ℕ → ℕ
sector_of m = byte_at (meta_bytes m (word_bytes m.crc []))

abbrev pub confirmed : WdtMeta → WdtMeta
confirmed m = record m { app_slot_trial = 0; trial_boot_count = 0; wdt_reset_count = 0 }

module _ (h : Machine) where
  unfoldable pub compute_crc : WdtMeta → ℕ
  compute_crc m = finish (hw_update h.crc32b h.crc32h h.crc32w start (meta_bytes m []))

  -- Taken as it is, or replaced by the defaults.
  unfoldable pub accept : WdtMeta → WdtMeta
  accept m = if (m.magic == wdt_meta_magic) && (m.crc == compute_crc m) then m else defaults

  unfoldable pub loaded : Status → (ℕ → ℕ) → WdtMeta → Status × WdtMeta
  loaded e_ok f m = (e_ok, accept (meta_at f))
  loaded e f m = (e, m)

  abbrev pub read : WdtMeta → Disk → Status × WdtMeta
  read m d = let r = read_block h emmc_sector_metadata d in loaded r.0 r.1 m

  -- The metadata with its magic number and checksum.
  unfoldable pub seal : WdtMeta → WdtMeta
  seal m = let m1 = record m { magic = wdt_meta_magic } in record m1 { crc = compute_crc m1 }

  unfoldable pub write : WdtMeta → Disk → Status × WdtMeta × Disk
  write m d =
      let m1 = seal m in
      let r = h.write_block emmc_sector_metadata (sector_of m1) d in (r.0, m1, r.1)

  unfoldable pub confirm_read : Status → WdtMeta → Disk → Status × WdtMeta × Disk
  confirm_read e_ok m d = write (confirmed m) d
  confirm_read e m d = (e, m, d)

  abbrev pub confirm_slot : WdtMeta → Disk → Status × WdtMeta × Disk
  confirm_slot m d = let r = read m d in confirm_read r.0 r.1 d

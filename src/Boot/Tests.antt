-- ===== src/Boot/Tests.antt =====
-- The theorems on the boot chain at concrete inputs, on a device without faults and with a toy checksum.
use rpitos.Prelude.{
  ℕ, ◌+◌, ◌*◌, ◌/◌, ◌%◌, ◌<◌, ◌≤◌, ◌≡◌, ◌≢◌, refl, ap, ◌∙◌, ltb, if◌then◌else◌, ◌==◌, arith, List,
  [], ◌∷◌, ◌++◌, byte_at, bytes_of, true, false, inr,
}
use rpitos.Status.{e_ok, e_corrupted, e_invalid_args}
use rpitos.Crc.{hw_update, start, finish}
use rpitos.Boot.Disk.{Disk, Machine, IsWorking, emmc_firmware_floor, slot_other, app_slot_a}
use rpitos.Boot.Trigger.{feed, feed_all}
use rpitos.Boot.Trigger.Window.{feed-window}
use rpitos.Boot.Flags.{cold_flags}
use rpitos.Boot.Meta.{WdtMeta, defaults, read, write, wdt_meta_magic, compute_crc, confirm_slot}
use rpitos.Boot.Meta.Store.{IsWords, Holds, read-write, write-Holds}
use rpitos.Boot.App.{start_packet_at, validate_app, load_app, check_image, hash_sectors}
use rpitos.Boot.App.Image.{validate_app_lem, is_intact, load_app-validate_app}
use rpitos.Boot.Loader.{bootloader_init, policy_rollback}
use rpitos.Boot.Loader.Trial.{bootloader_init-rolls_back, confirm_slot-bootloader_init, boot_times}

cell : (d : Disk) (a b i j : ℕ) → a ≡ b → i ≡ j → d a i ≡ d b j
cell d a b i j e1 e2 = ap (λ x. d x i) e1 ∙ ap (d b) e2

abbrev pub bench : Machine
bench = record {
  read_blocks = λ s n d. (e_ok, λ j. d (s + j / 512) (j % 512));
  write_block = λ s b d.
      if ltb s emmc_firmware_floor
      then (e_invalid_args, d)
      else (e_ok, λ a j. if a == s then b j else d a j);
  crc32b = λ c a. a;
  crc32h = λ c a. a;
  crc32w = λ c a. a;
}

bench-above : (s : ℕ) → emmc_firmware_floor ≤ s → ltb s emmc_firmware_floor ≡ false
bench-above s p = ground arith

bench-below : (s : ℕ) → s < emmc_firmware_floor → ltb s emmc_firmware_floor ≡ true
bench-below s p = ground arith

pub bench-IsWorking : IsWorking bench
bench-IsWorking = record {
  reads = λ s n d l. refl;
  buffers = λ s n d i j l p q.
      cell d (s + (i * 512 + j) / 512) (s + i) ((i * 512 + j) % 512) j (omega arith) (omega arith);
  writes = λ s b d p. rw (bench-above s p) refl;
  sector = λ s b d a j p q. rw (bench-above s p) refl;
  floor = λ s b d p. rw (bench-below s p) refl;
}

feed-window_example : (feed 0 (feed_all ((1 ∷ 2 ∷ []) ++ 0xDF ∷ 0 ∷ 0xDF ∷ []) 7)).0 ≡ true
feed-window_example =
    feed-window 7 (1 ∷ 2 ∷ []) 0xDF 0 0xDF 0 (omega arith) (omega arith) (omega arith) (omega arith)

-- Slot A on trial, before its first boot.
abbrev on_trial : WdtMeta
on_trial = record defaults {
  app_slot_trial = 1;
  wdt_reset_tolerance = 3;
  wdt_reset_policy = policy_rollback;
}

on_trial-IsWords : IsWords on_trial
on_trial-IsWords = record {
  count = omega arith;
  tolerance = omega arith;
  policy = omega arith;
  reason = omega arith;
  slot = omega arith;
  trial = omega arith;
  boots = omega arith;
}

abbrev pub blank : Disk
blank a j = 0

abbrev trial_disk : Disk
trial_disk = (write bench on_trial blank).2

trial_disk-Holds : Holds bench trial_disk on_trial
trial_disk-Holds = write-Holds bench on_trial blank bench-IsWorking

read-write_example :
    ((write bench on_trial blank).0 ≡ e_ok)
    × ((write bench on_trial blank).1 ≡ record on_trial {
      magic = wdt_meta_magic;
      crc = compute_crc bench (record on_trial { magic = wdt_meta_magic });
    })
    × (read bench defaults (write bench on_trial blank).2 ≡ (e_ok, (write bench on_trial blank).1))
read-write_example = read-write bench on_trial defaults blank bench-IsWorking on_trial-IsWords

one_ne_zero : on_trial.app_slot_trial ≢ 0
one_ne_zero = omega arith

bootloader_init-rolls_back_example :
    let b1 = bootloader_init bench defaults cold_flags trial_disk in
    let b2 = bootloader_init bench defaults cold_flags b1.2 in
    let b3 = bootloader_init bench defaults cold_flags b2.2 in
    (b1.0.active_app_slot ≡ on_trial.active_app_slot)
    × (b1.0.app_slot_trial ≢ 0)
    × (b2.0.active_app_slot ≡ on_trial.active_app_slot)
    × (b2.0.app_slot_trial ≢ 0)
    × (b3.0.active_app_slot ≡ slot_other on_trial.active_app_slot)
    × (b3.0.app_slot_trial ≡ 0)
bootloader_init-rolls_back_example =
    bootloader_init-rolls_back bench bench-IsWorking on_trial defaults cold_flags cold_flags
      cold_flags trial_disk (inr (inr (omega arith))) on_trial-IsWords trial_disk-Holds one_ne_zero
      refl

confirm_slot-bootloader_init_example :
    (boot_times bench bench-IsWorking 2 defaults
      (λ i. cold_flags)
      (confirm_slot bench defaults trial_disk).2).active_app_slot
    ≡ app_slot_a
confirm_slot-bootloader_init_example =
    confirm_slot-bootloader_init bench bench-IsWorking 2 on_trial defaults defaults
      (λ i. cold_flags) trial_disk (inr (inr (omega arith))) on_trial-IsWords trial_disk-Holds

-- An image of one word in sector 6, with its header in sector 5.
abbrev header : List ℕ
header = 1 ∷ 0 ∷ 0 ∷ 0 ∷ 4 ∷ 0 ∷ 0 ∷ 0 ∷ 0xFE ∷ 0xFF ∷ 0xFF ∷ 0xFF ∷ []

abbrev image_disk : Disk
image_disk a j = if a == 5 then byte_at header j else (if a == 6 then byte_at (1 ∷ []) j else 0)

validate_app_lem_example :
    validate_app bench 5 image_disk
    ≡ (if is_intact bench bench-IsWorking 5 image_disk then e_ok else e_corrupted)
validate_app_lem_example = validate_app_lem bench bench-IsWorking 5 image_disk

image_disk-valid : validate_app bench 5 image_disk ≡ e_ok
unfolding check_image hash_sectors hw_update
image_disk-valid = refl

load_app-validate_app_example :
    ((load_app bench 5 image_disk).0 ≡ e_ok)
    × (finish (
          hw_update bench.crc32b bench.crc32h bench.crc32w start
            (bytes_of (load_app bench 5 image_disk).1 0 (start_packet_at (image_disk 5)).fw_length))
        ≡ (start_packet_at (image_disk 5)).crc)
load_app-validate_app_example =
    load_app-validate_app bench bench-IsWorking 5 image_disk image_disk-valid (omega arith)

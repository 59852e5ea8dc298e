-- ===== src/Boot/Meta/Store.antt =====
-- What is written to the metadata sector is what is read from it.
use rpitos.Prelude.{ℕ, ◌+◌, ◌*◌, ◌/◌, ◌%◌, ◌^◌, ◌<◌, ◌≡◌, refl, ◌∙◌, arith}
use rpitos.Status.{e_ok}
use rpitos.Boot.Disk.{
  Disk, Machine, IsWorking, read_block, buffer, emmc_sector_metadata, word_at-cong,
}
use rpitos.Boot.Meta.{
  WdtMeta, meta_at, loaded, sector_of, read, write, seal, accept, compute_crc, wdt_meta_magic,
}

-- Every field but the checksum fits in a word.
pub record IsWords (m : WdtMeta) : Type 0 where
  pub count : m.wdt_reset_count < 2 ^ 32
  pub tolerance : m.wdt_reset_tolerance < 2 ^ 32
  pub policy : m.wdt_reset_policy < 2 ^ 32
  pub reason : m.wdt_reset_reason < 2 ^ 32
  pub slot : m.active_app_slot < 2 ^ 32
  pub trial : m.app_slot_trial < 2 ^ 32
  pub boots : m.trial_boot_count < 2 ^ 32

bytes-word :
    (n : ℕ)
    → n < 2 ^ 32
    → n % 256 + n / 256 % 256 * 256 + n / 65536 % 256 * 65536 + n / 16777216 % 256 * 16777216 ≡ n
bytes-word n p = omega arith

meta_at-cong : (f g : ℕ → ℕ) → ((j : ℕ) → j < 512 → f j ≡ g j) → meta_at f ≡ meta_at g
meta_at-cong f g e =
    rw
      (
        word_at-cong f g 0 (omega arith) e,
        word_at-cong f g 4 (omega arith) e,
        word_at-cong f g 8 (omega arith) e,
        word_at-cong f g 12 (omega arith) e,
        word_at-cong f g 16 (omega arith) e,
        word_at-cong f g 20 (omega arith) e,
        word_at-cong f g 24 (omega arith) e,
        word_at-cong f g 28 (omega arith) e,
        word_at-cong f g 32 (omega arith) e,
      )
      refl

module _ (h : Machine) where
  crc-bound : (m : WdtMeta) → compute_crc h m < 2 ^ 32
  unfolding compute_crc
  crc-bound m = omega arith

  meta_at-sector : (m : WdtMeta) → IsWords m → meta_at (sector_of (seal h m)) ≡ seal h m
  unfolding seal
  meta_at-sector m w =
      let m1 = record m { magic = wdt_meta_magic } in
      rw
        (
          bytes-word m.wdt_reset_count w.count,
          bytes-word m.wdt_reset_tolerance w.tolerance,
          bytes-word m.wdt_reset_policy w.policy,
          bytes-word m.wdt_reset_reason w.reason,
          bytes-word m.active_app_slot w.slot,
          bytes-word m.app_slot_trial w.trial,
          bytes-word m.trial_boot_count w.boots,
          bytes-word (compute_crc h m1) (crc-bound m1),
        )
        refl

  accept-seal : (m : WdtMeta) → accept h (seal h m) ≡ seal h m
  unfolding seal accept compute_crc
  accept-seal m = ground arith

  -- The metadata sector of the disk holds this metadata.
  abbrev pub Holds : Disk → WdtMeta → Type 0
  Holds d m = (j : ℕ) → j < 512 → d emmc_sector_metadata j ≡ sector_of (seal h m) j

  pub read-written :
      (m m2 : WdtMeta) (d : Disk)
      → IsWorking h
      → IsWords m
      → Holds d m
      → read h m2 d ≡ (e_ok, seal h m)
  unfolding loaded
  read-written m m2 d w v e =
      let f = (read_block h emmc_sector_metadata d).1 in
      let same =
        meta_at-cong f (sector_of (seal h m))
          (λ j p. buffer h w emmc_sector_metadata d j p ∙ e j p) in
      rw (w.reads emmc_sector_metadata 1 d (omega arith), same, meta_at-sector m v, accept-seal m)
        refl

  pub write-Holds : (m : WdtMeta) (d : Disk) → IsWorking h → Holds (write h m d).2 m
  unfolding write
  write-Holds m d w j p =
      w.sector emmc_sector_metadata (sector_of (seal h m)) d emmc_sector_metadata j (omega arith) p

  -- On a device without faults and for fields that fit in their words: wdt_meta_write succeeds and sets only
  -- the magic number and the checksum of wdt_meta, and wdt_meta_read on the disk it leaves gives this metadata
  -- back, whatever wdt_meta was before.
  pub read-write :
      (m m2 : WdtMeta) (d : Disk)
      → IsWorking h
      → IsWords m
      → ((write h m d).0 ≡ e_ok)
        × ((write h m d).1 ≡ record m {
          magic = wdt_meta_magic;
          crc = compute_crc h (record m { magic = wdt_meta_magic });
        })
        × (read h m2 (write h m d).2 ≡ (e_ok, (write h m d).1))
  unfolding write seal
  read-write m m2 d w v = (
    w.writes emmc_sector_metadata (sector_of (seal h m)) d (omega arith),
    refl,
    read-written m m2 (write h m d).2 w v (write-Holds m d w),
  )

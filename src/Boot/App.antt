-- ===== src/Boot/App.antt =====
-- Images in the slots: boot_validate_app and boot_load_app of source/boot/boot/boot.c.
pub mod Image
use rpitos.Prelude.{
  ℕ, zero, suc, ◌+◌, ◌-◌, ◌%◌, ◌/◌, ◌^◌, Bool, ◌==◌, ◌&&◌, ltb, not, if◌then◌else◌, bytes_of,
}
use rpitos.Status.{Status, e_ok, e_corrupted}
use rpitos.Crc.{hw_update, start, finish}
use rpitos.Boot.Disk.{Disk, Machine, read_block, word_at, sector_size, bytes_to_sectors}

-- The header of an image, the StartPacket of source/boot/dfu_receive/dfu_receive.h.
pub record StartPacket : Type 0 where
  pub version_num : ℕ
  pub fw_length : ℕ
  pub crc : ℕ

abbrev pub start_packet_at : (ℕ → ℕ) → StartPacket
start_packet_at f = record { version_num = word_at f 0; fw_length = word_at f 4; crc = word_at f 8 }

module _ (h : Machine) where
  -- The loop `while (remaining > 0)`; the first argument is the fuel, one for each sector.
  unfoldable pub hash_sectors : ℕ → ℕ → ℕ → Disk → ℕ → ℕ
  hash_sectors zero remaining sector d crc = crc
  hash_sectors (suc n) remaining sector d crc =
      let chunk = if ltb remaining sector_size then remaining else sector_size in
      let crc2 =
        hw_update h.crc32b h.crc32h h.crc32w crc (bytes_of (read_block h sector d).1 0 chunk) in
      let rest = hash_sectors n (remaining - chunk) (sector + 1) d crc2 in
      if remaining == 0 then crc else rest

  unfoldable pub check_image : StartPacket → ℕ → Disk → Status
  check_image p sector d =
      let crc = hash_sectors (bytes_to_sectors p.fw_length) p.fw_length (sector + 1) d start in
      if (p.version_num == 1) && not (p.fw_length == 0)
      then (if finish crc == p.crc then e_ok else e_corrupted)
      else e_corrupted

  abbrev pub validate_app : ℕ → Disk → Status
  validate_app sector d = check_image (start_packet_at (read_block h sector d).1) sector d

  -- BYTES_TO_SECTORS, with the wrap of the sum; the memory from the load address on.
  unfoldable pub load_app : ℕ → Disk → Status × (ℕ → ℕ)
  load_app sector d =
      let n = (start_packet_at (read_block h sector d).1).fw_length in
      let sectors = (n + sector_size - 1) % 2 ^ 32 / sector_size in
      (e_ok, (h.read_blocks (sector + 1) sectors d).1)

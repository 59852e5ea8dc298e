-- ===== src/Boot/Disk.antt =====
-- The eMMC as the boot chain uses it: the sector map of source/drivers/emmc/emmc.h, and the calls of
-- emmc_read_blocks and emmc_write_blocks on one sector. A sector is an array of bytes.
use rpitos.Prelude.{
  ℕ, ◌+◌, ◌-◌, ◌*◌, ◌/◌, ◌%◌, ◌<◌, ◌≤◌, ◌≡◌, refl, sym, ap, ◌∙◌, List, ◌∷◌, if◌then◌else◌, ◌==◌,
  arith,
}
use rpitos.Status.{Status, e_ok, e_invalid_args}

abbrev pub sector_size : ℕ
sector_size = 512

abbrev pub bytes_to_sectors : ℕ → ℕ
bytes_to_sectors n = (n + sector_size - 1) / sector_size

abbrev pub emmc_sector_bootloader : ℕ
emmc_sector_bootloader = 1064960

abbrev pub emmc_firmware_floor : ℕ
emmc_firmware_floor = emmc_sector_bootloader

abbrev pub emmc_sector_metadata : ℕ
emmc_sector_metadata = 1064960 + 1024

abbrev pub emmc_sector_app_a : ℕ
emmc_sector_app_a = 1064960 + 2048

abbrev pub emmc_sector_app_b : ℕ
emmc_sector_app_b = 1064960 + 18432

abbrev pub emmc_sector_size_app : ℕ
emmc_sector_size_app = 16384

abbrev pub app_slot_a : ℕ
app_slot_a = 0xAAAAAAAA

abbrev pub app_slot_b : ℕ
app_slot_b = 0xBBBBBBBB

abbrev pub slot_to_sector : ℕ → ℕ
slot_to_sector slot = if slot == app_slot_b then emmc_sector_app_b else emmc_sector_app_a

abbrev pub slot_other : ℕ → ℕ
slot_other slot = if slot == app_slot_b then app_slot_a else app_slot_b

-- The sectors, each with its bytes.
abbrev pub Disk : Type 0
Disk = ℕ → ℕ → ℕ

-- What the boot chain needs of the hardware: emmc_read_blocks of a number of sectors, emmc_write_blocks of
-- one, and the crc32 instructions. A read gives the status and the buffer, a write the status and the disk.
pub record Machine : Type 0 where
  pub read_blocks : ℕ → ℕ → Disk → Status × (ℕ → ℕ)
  pub write_block : ℕ → (ℕ → ℕ) → Disk → Status × Disk
  pub crc32b : ℕ → ℕ → ℕ
  pub crc32h : ℕ → ℕ → ℕ
  pub crc32w : ℕ → ℕ → ℕ

abbrev pub read_block : Machine → ℕ → Disk → Status × (ℕ → ℕ)
read_block h s d = h.read_blocks s 1 d

-- A device without faults: a read gives the sectors, as many as the block count register of the controller can
-- count, a write from the floor on changes that sector only, and one below it nothing.
pub record IsWorking (h : Machine) : Type 0 where
  pub reads : (s n : ℕ) (d : Disk) → n < 65536 → (h.read_blocks s n d).0 ≡ e_ok
  pub buffers :
      (s n : ℕ) (d : Disk) (i j : ℕ)
      → n < 65536
      → i < n
      → j < 512
      → (h.read_blocks s n d).1 (i * 512 + j) ≡ d (s + i) j
  pub writes :
      (s : ℕ) (b : ℕ → ℕ) (d : Disk) → emmc_firmware_floor ≤ s → (h.write_block s b d).0 ≡ e_ok
  pub sector :
      (s : ℕ) (b : ℕ → ℕ) (d : Disk) (a j : ℕ)
      → emmc_firmware_floor ≤ s
      → j < 512
      → (h.write_block s b d).1 a j ≡ (if a == s then b j else d a j)
  pub floor :
      (s : ℕ) (b : ℕ → ℕ) (d : Disk)
      → s < emmc_firmware_floor
      → h.write_block s b d ≡ (e_invalid_args, d)

-- A little-endian word at a byte offset.
abbrev pub word_at : (ℕ → ℕ) → ℕ → ℕ
word_at f i = f i + f (i + 1) * 256 + f (i + 2) * 65536 + f (i + 3) * 16777216

-- The bytes of a word, the lowest first.
abbrev pub word_bytes : ℕ → List ℕ → List ℕ
word_bytes n rest = n % 256 ∷ n / 256 % 256 ∷ n / 65536 % 256 ∷ n / 16777216 % 256 ∷ rest

pub buffer :
    (h : Machine)
    → IsWorking h
    → (s : ℕ) (d : Disk) (j : ℕ) → j < 512
    → (read_block h s d).1 j ≡ d s j
buffer h w s d j p =
    let j0 : 0 + j ≡ j = omega arith in
    let s0 : s + 0 ≡ s = omega arith in
    ap (read_block h s d).1 (sym j0)
    ∙ w.buffers s 1 d 0 j (omega arith) (omega arith) p
    ∙ ap (λ a. d a j) s0

pub word_at-cong :
    (f g : ℕ → ℕ) (i : ℕ)
    → i + 3 < 512
    → ((j : ℕ) → j < 512 → f j ≡ g j)
    → word_at f i ≡ word_at g i
word_at-cong f g i p e =
    rw (e i (omega arith), e (i + 1) (omega arith), e (i + 2) (omega arith), e (i + 3) p) refl

-- ===== src/Emmc/Adma.antt =====
-- The ADMA2 descriptor table of source/drivers/emmc/emmc.c: emmc_build_adma2_table. The table is static, so what
-- an earlier transfer left in it is an argument.
pub mod Walk
pub mod Table
use rpitos.Prelude.{
  ℕ, zero, suc, ◌+◌, ◌-◌, ◌*◌, ◌/◌, ◌%◌, ◌^◌, Bool, ◌==◌, ltb, if◌then◌else◌, update,
}
use rpitos.Status.{Run, done, fault}
use rpitos.Boot.Disk.{sector_size, emmc_sector_size_app}

abbrev pub adma2_max_chunk : ℕ
adma2_max_chunk = 65536

abbrev pub adma2_max_xfer_bytes : ℕ
adma2_max_xfer_bytes = emmc_sector_size_app * sector_size

abbrev pub adma2_max_descriptors : ℕ
adma2_max_descriptors = adma2_max_xfer_bytes / adma2_max_chunk + 2

pub record Adma2Desc : Type 0 where
  pub attr_len : ℕ
  pub address : ℕ

abbrev pub chunk_of : ℕ → ℕ
chunk_of remaining = if ltb adma2_max_chunk remaining then adma2_max_chunk else remaining

-- A line: its length in the upper half, ADMA2_DESC_VALID (1) and ADMA2_DESC_ACT_TRAN (2 << 4) in the lower.
abbrev pub line : ℕ → ℕ → Adma2Desc
line addr chunk =
    let len16 = if chunk == adma2_max_chunk then 0 else chunk in
    record { attr_len = len16 * 65536 + 33; address = addr }

-- ADMA2_DESC_END (2) and ADMA2_DESC_INT (4), in a line that has neither.
abbrev pub end_line : Adma2Desc → Adma2Desc
end_line d = record d { attr_len = d.attr_len + 6 }

-- How the loop ends: `return 0`, or with the number of lines.
pub data Filled : Type 0 where
  too_large : (ℕ → Adma2Desc) → Filled
  filled : ℕ → (ℕ → Adma2Desc) → Filled

-- The loop, with room for so many lines from line `n` on.
unfoldable pub fill : ℕ → ℕ → ℕ → ℕ → (ℕ → Adma2Desc) → Filled
fill zero addr remaining n t = if remaining == 0 then filled n t else too_large t
fill (suc room) addr remaining n t =
    let chunk = chunk_of remaining in
    let rest =
      fill room ((addr + chunk) % 2 ^ 32) (remaining - chunk) (n + 1)
        (update t n (line addr chunk)) in
    if remaining == 0 then filled n t else rest

abbrev pub end_at : (ℕ → Adma2Desc) → ℕ → ℕ → Adma2Desc
end_at t n = update t n (end_line (t n))

-- The last line is marked; with no line at all this writes in front of the table.
unfoldable pub mark_last : Filled → Run (ℕ × (ℕ → Adma2Desc))
mark_last (too_large t) = done (0, t)
mark_last (filled zero t) = fault
mark_last (filled (suc n) t) = done (suc n, end_at t n)

unfoldable pub build_adma2_table : ℕ → ℕ → (ℕ → Adma2Desc) → Run (ℕ × (ℕ → Adma2Desc))
build_adma2_table buf total_bytes t = mark_last (fill adma2_max_descriptors buf total_bytes 0 t)

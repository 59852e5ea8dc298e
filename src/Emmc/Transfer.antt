-- ===== src/Emmc/Transfer.antt =====
-- emmc_read_blocks and emmc_write_blocks in source/drivers/emmc/emmc.c, with the transfer by ADMA2 and the way back
-- to one word at a time. A buffer is its address.
pub mod Kept
pub mod Sectors
use rpitos.Prelude.{
  ℕ, zero, suc, ◌+◌, ◌*◌, ◌%◌, ◌^◌, Bool, true, false, ◌&&◌, ◌||◌, ◌==◌, ltb, if◌then◌else◌,
}
use rpitos.Status.{Status, e_ok, e_invalid_args, e_cmd, e_timed_out, is_ok, Run, done, fault, spin}
use rpitos.Boot.Disk.{sector_size, emmc_firmware_floor}
use rpitos.Emmc.Adma.{Adma2Desc, build_adma2_table}
use rpitos.Emmc.{
  Host, Seen, status, control0, control1, blksizecnt, data_port, adma_address, set_bit, clear_bit,
  bit, then_or, on_ok, poll, look_clear, dat_active, int_data_done, int_write_rdy, int_read_rdy,
  wait_interrupt, wait_status, send_command, modify,
}

-- The static variables that the transfers read.
pub record Driver : Type 0 where
  pub is_high_capacity : Bool
  pub adma2_supported : Bool
  pub table_address : ℕ

abbrev pub cmd17 : ℕ
cmd17 = 17 * 2 ^ 24 + 2 * 2 ^ 16 + 2 ^ 19 + 2 ^ 20 + 2 ^ 21 + 2 ^ 4

abbrev pub cmd18 : ℕ
cmd18 = 18 * 2 ^ 24 + 2 * 2 ^ 16 + 2 ^ 19 + 2 ^ 20 + 2 ^ 21 + 2 ^ 4 + 2 ^ 5 + 2 ^ 1 + 2 ^ 2

abbrev pub cmd24 : ℕ
cmd24 = 24 * 2 ^ 24 + 2 * 2 ^ 16 + 2 ^ 19 + 2 ^ 20 + 2 ^ 21

abbrev pub cmd25 : ℕ
cmd25 = 25 * 2 ^ 24 + 2 * 2 ^ 16 + 2 ^ 19 + 2 ^ 20 + 2 ^ 21 + 2 ^ 5 + 2 ^ 1 + 2 ^ 2

-- `cmd | TM_DMA_EN`, for a command without it.
abbrev pub by_dma : ℕ → ℕ
by_dma cmd = cmd + 1

abbrev pub card_address : Driver → ℕ → ℕ
card_address d sector = if d.is_high_capacity then sector else sector * sector_size % 2 ^ 32

-- `(count << 16) | SECTOR_SIZE`.
abbrev pub blocks : ℕ → ℕ
blocks count = count * 65536 % 2 ^ 32 + sector_size

-- CTRL0_DMA_SELECT_ADMA2 in place of CTRL0_DMA_SELECT_MASK.
abbrev pub select_adma2 : ℕ → ℕ
select_adma2 x = set_bit 4 (clear_bit 4 (clear_bit 3 x))

module _ {S : Type 0} (h : Host S) where
  -- What follows emmc_build_adma2_table.
  unfoldable pub with_table : (S → Status × S) → S → Run (ℕ × (ℕ → Adma2Desc)) → Run (Status × S)
  with_table go s (done (zero, t)) = done (e_invalid_args, h.set_table t s)
  with_table go s (done (suc n, t)) = done (go (h.set_table t s))
  with_table go s fault = fault
  with_table go s spin = spin

  unfoldable pub start_adma2 : Driver → ℕ → S → S
  start_adma2 d count s =
      h.write blksizecnt (blocks count)
        (h.write adma_address d.table_address (modify h control0 select_adma2 s))

  unfoldable pub run_adma2 : Driver → ℕ → ℕ → ℕ → Bool → S → Status × S
  run_adma2 d cmd sector count is_write s =
      then_or (send_command h (by_dma cmd) (card_address d sector) (start_adma2 d count s))
        (λ e. e_cmd)
        (λ t.
          then_or (wait_interrupt h int_data_done ((2000 + count * 2) % 2 ^ 32) t) (λ e. e)
            (λ u.
              if is_write
              then then_or (wait_status h (dat_active h) 5000 u) (λ e. e_timed_out) (λ v. (e_ok, v))
              else (e_ok, u)))

  unfoldable pub xfer_adma2 : Driver → ℕ → ℕ → ℕ → ℕ → Bool → S → Run (Status × S)
  xfer_adma2 d cmd sector buf count is_write s =
      with_table (run_adma2 d cmd sector count is_write) s
        (build_adma2_table buf (count * sector_size % 2 ^ 32) (h.table s))

  unfoldable pub reset_cmd_data : S → S
  reset_cmd_data s =
      (poll h (look_clear h control1 (λ x. bit 25 x || bit 26 x)) 9999
        (modify h control1 (λ x. set_bit 26 (set_bit 25 x)) s)).1

  -- A transfer by ADMA2 that fails is made again without it.
  unfoldable pub or_pio : (S → Status × S) → Run (Status × S) → Run (Status × S)
  or_pio pio (done r) = done (if is_ok r.0 then r else pio (reset_cmd_data r.1))
  or_pio pio fault = fault
  or_pio pio spin = spin

  unfoldable pub read_words : ℕ → ℕ → S → S
  read_words zero a s = s
  read_words (suc k) a s = let (x, s1) = h.read data_port s in read_words k (a + 4) (h.store a x s1)

  unfoldable pub read_each : ℕ → ℕ → S → Status × S
  read_each zero a s = (e_ok, s)
  read_each (suc k) a s =
      then_or (wait_interrupt h int_read_rdy 2000 s) (λ e. e_timed_out)
        (λ t. read_each k (a + sector_size) (read_words 128 a t))

  -- One block and several differ in the command; the loop over the blocks has one turn for each.
  unfoldable pub read_pio : Driver → ℕ → ℕ → ℕ → S → Status × S
  read_pio d sector buf count s =
      let cmd = if count == 1 then cmd17 else cmd18 in
      then_or (send_command h cmd (card_address d sector) (h.write blksizecnt (blocks count) s))
        (λ e. e_cmd)
        (λ t.
          then_or (read_each count buf t) (λ e. e)
            (λ u.
              then_or (wait_interrupt h int_data_done 2000 u) (λ e. e_timed_out) (λ v. (e_ok, v))))

  unfoldable pub read_blocks : Driver → ℕ → ℕ → ℕ → S → Run (Status × S)
  read_blocks d sector buf count s =
      if count == 0
      then done (e_ok, s)
      else (if d.adma2_supported && ltb 1 count
          then or_pio (read_pio d sector buf count) (xfer_adma2 d cmd18 sector buf count false s)
          else done (read_pio d sector buf count s))

  unfoldable pub write_words : ℕ → ℕ → S → S
  write_words zero a s = s
  write_words (suc k) a s = write_words k (a + 4) (h.write data_port (h.load a s) s)

  unfoldable pub write_each : ℕ → ℕ → S → Status × S
  write_each zero a s = (e_ok, s)
  write_each (suc k) a s =
      then_or (wait_interrupt h int_write_rdy 2000 s) (λ e. e_timed_out)
        (λ t. write_each k (a + sector_size) (write_words 128 a t))

  unfoldable pub write_pio : Driver → ℕ → ℕ → ℕ → S → Status × S
  write_pio d sector buf count s =
      let cmd = if count == 1 then cmd24 else cmd25 in
      then_or (send_command h cmd (card_address d sector) (h.write blksizecnt (blocks count) s))
        (λ e. e_cmd)
        (λ t.
          then_or (write_each count buf t) (λ e. e)
            (λ u.
              then_or (wait_interrupt h int_data_done 5000 u) (λ e. e_timed_out)
                (λ v.
                  then_or (wait_status h (dat_active h) 5000 v) (λ e. e_timed_out)
                    (λ w. (e_ok, w)))))

  unfoldable pub write_blocks : Driver → ℕ → ℕ → ℕ → S → Run (Status × S)
  write_blocks d sector buf count s =
      if count == 0
      then done (e_ok, s)
      else (if ltb sector emmc_firmware_floor
          then done (e_invalid_args, s)
          else (if d.adma2_supported && ltb 1 count
              then or_pio (write_pio d sector buf count)
                  (xfer_adma2 d cmd25 sector buf count true s)
              else done (write_pio d sector buf count s)))

-- ===== src/Emmc/Setup.antt =====
-- emmc_init and its steps in source/drivers/emmc/emmc.c. The static variables stand beside the controller; the two
-- static buffers for EXT_CSD are at the addresses that are given.
pub mod Quiet
pub mod Once
use rpitos.Prelude.{
  ℕ, zero, suc, ◌+◌, ◌-◌, ◌*◌, ◌/◌, ◌%◌, ◌^◌, Bool, true, false, not, ◌&&◌, ◌||◌, ◌==◌,
  if◌then◌else◌,
}
use rpitos.Status.{Status, e_ok, e_cmd, e_timed_out, is_ok}
use rpitos.Boot.Disk.{sector_size}
use rpitos.Emmc.{
  Host, Register, then_or, on_ok, poll, look_clear, bit, set_bit, clear_bit, control0, control1,
  blksizecnt, resp0, irpt_mask, irpt_en, capabilities0, int_read_rdy, int_data_done, all_bits,
  wait_interrupt, send_command, set_clock, modify,
}
use rpitos.Emmc.Transfer.{read_words}

pub record Device (S : Type 0) : Type 0 where
  pub host : S
  pub initialized : Bool
  pub is_high_capacity : Bool
  pub adma2_supported : Bool
  pub device_type : ℕ
  pub sec_count : ℕ

abbrev pub cmd0 : ℕ
cmd0 = 0

abbrev pub cmd1 : ℕ
cmd1 = 1 * 2 ^ 24 + 2 * 2 ^ 16

abbrev pub cmd2 : ℕ
cmd2 = 2 * 2 ^ 24 + 1 * 2 ^ 16 + 2 ^ 19

abbrev pub cmd3 : ℕ
cmd3 = 3 * 2 ^ 24 + 2 * 2 ^ 16 + 2 ^ 19 + 2 ^ 20

abbrev pub cmd6_switch : ℕ
cmd6_switch = 6 * 2 ^ 24 + 3 * 2 ^ 16 + 2 ^ 19 + 2 ^ 20

abbrev pub cmd7 : ℕ
cmd7 = 7 * 2 ^ 24 + 3 * 2 ^ 16 + 2 ^ 19 + 2 ^ 20

abbrev pub cmd8 : ℕ
cmd8 = 8 * 2 ^ 24 + 2 * 2 ^ 16 + 2 ^ 19 + 2 ^ 20 + 2 ^ 21 + 2 ^ 4

abbrev pub switch_arg : ℕ → ℕ → ℕ
switch_arg index value = 3 * 2 ^ 24 + index * 2 ^ 16 + value * 2 ^ 8

-- EXT_CSD_BUS_WIDTH and EXT_CSD_HS_TIMING.
abbrev pub ext_csd_bus_width : ℕ
ext_csd_bus_width = 183

abbrev pub ext_csd_hs_timing : ℕ
ext_csd_hs_timing = 185

-- `rca << 16`, with rca 1.
abbrev pub rca_arg : ℕ
rca_arg = 65536

module _ {S : Type 0} (h : Host S) where
  abbrev pub on_host : (S → Status × S) → Device S → Status × Device S
  on_host f d = ((f d.host).0, record d { host = (f d.host).1 })

  abbrev pub change : (S → S) → Device S → Device S
  change f d = record d { host = f d.host }

  unfoldable pub already_running : S → Bool × S
  already_running s = let (x, s1) = h.read control1 s in (bit 2 x && bit 1 x, s1)

  unfoldable pub host_reset : S → Status × S
  host_reset s =
      let resetting =
        modify h control1 (λ x. set_bit 26 (set_bit 25 (set_bit 24 x)))
          (h.write control1 0 (h.write control0 0 s)) in
      then_or
        (poll h (look_clear h control1 (λ x. bit 24 x || bit 25 x || bit 26 x)) 9999 resetting)
        (λ e. e_timed_out)
        (λ t.
          let u = modify h control1 (λ x. x / 2 ^ 20 * 2 ^ 20 + 14 * 65536 + x % 65536) t in
          (e_ok, h.write irpt_en 0 (h.write irpt_mask all_bits u)))

  unfoldable pub power_on : S → Status × S
  power_on s =
      then_or (set_clock h 400000 s) (λ e. e_timed_out)
        (λ t. (
          e_ok,
          h.delay_us 10000
              (modify h control0 (λ x. set_bit 8 (set_bit 9 (set_bit 10 (set_bit 11 x)))) t),
        ))

  -- The do loop around CMD1, with at most `k + 1` turns, and the mode of addresses that the card answers with.
  unfoldable pub operating_conditions : ℕ → Device S → Status × Device S
  operating_conditions zero d =
      then_or (on_host (send_command h cmd1 0x40FF8080) d) (λ e. e_cmd)
        (λ t. (e_timed_out, change (λ s. (h.read resp0 s).1) t))
  operating_conditions (suc k) d =
      then_or (on_host (send_command h cmd1 0x40FF8080) d) (λ e. e_cmd)
        (λ t.
          let (ocr, s) = h.read resp0 t.host in
          let u = record t { host = h.delay_us 1000 s } in
          if bit 31 ocr
          then (e_ok, record u { is_high_capacity = bit 30 ocr })
          else operating_conditions k u)

  -- What follows the loop.
  unfoldable pub select_card : S → Status × S
  select_card s =
      then_or (send_command h cmd2 0 s) (λ e. e_cmd)
        (λ t.
          then_or (send_command h cmd3 rca_arg t) (λ e. e_cmd)
            (λ u. then_or (send_command h cmd7 rca_arg u) (λ e. e_cmd) (λ v. (e_ok, v))))

  unfoldable pub card_identify : Device S → Status × Device S
  card_identify d =
      let idle = change (h.delay_us 2000) (on_host (send_command h cmd0 0) d).1 in
      then_or (operating_conditions 999 idle) (λ e. e) (on_host select_card)

  unfoldable pub bus_baseline : S → Status × S
  bus_baseline s =
      then_or (send_command h cmd6_switch (switch_arg ext_csd_bus_width 1) s) (λ e. e_cmd)
        (λ t.
          then_or (set_clock h 25000000 (modify h control0 (set_bit 1) t)) (λ e. e_timed_out)
            (λ u. (e_ok, u)))

  unfoldable pub read_ext_csd : ℕ → S → Status × S
  read_ext_csd buf s =
      then_or (send_command h cmd8 0 (h.write blksizecnt (65536 + sector_size) s)) (λ e. e_cmd)
        (λ t.
          then_or (wait_interrupt h int_read_rdy 2000 t) (λ e. e_timed_out)
            (λ u. wait_interrupt h int_data_done 2000 (read_words h 128 buf u)))

  -- A byte of a buffer of words, and the four of EXT_CSD_SEC_COUNT.
  abbrev pub byte_at : ℕ → S → ℕ
  byte_at a s = h.load (a / 4 * 4) s / 256 ^ (a % 4) % 256

  abbrev pub sectors_at : ℕ → S → ℕ
  sectors_at buf s =
      byte_at (buf + 212) s
      + byte_at (buf + 213) s * 256
      + byte_at (buf + 214) s * 65536
      + byte_at (buf + 215) s * 16777216

  -- What EXT_CSD says, where it was read.
  unfoldable pub described : ℕ → Status × Device S → Device S
  described csd r =
      if is_ok r.0
      then record r.1 {
        device_type = byte_at (csd + 196) r.1.host;
        sec_count = sectors_at csd r.1.host;
      }
      else r.1

  unfoldable pub probe_capabilities : ℕ → Device S → Device S
  probe_capabilities csd d =
      let (cap0, s) = h.read capabilities0 d.host in
      described csd
        (on_host (read_ext_csd csd) (record d { host = s; adma2_supported = bit 19 cap0 }))

  unfoldable pub bus_ok : ℕ → Device S → Bool × Device S
  bus_ok tmp d =
      let r = on_host (read_ext_csd tmp) d in
      (is_ok r.0 && not (d.sec_count == 0) && (sectors_at tmp r.1.host == d.sec_count), r.1)

  -- Where a step was not verified, the way back.
  unfoldable pub or_revert : (Device S → Device S) → Bool × Device S → Device S
  or_revert revert r = if r.0 then r.1 else revert r.1

  unfoldable pub slow_down : Device S → Device S
  slow_down d =
      let slow = change (modify h control0 (clear_bit 2)) (on_host (set_clock h 25000000) d).1 in
      (on_host (send_command h cmd6_switch (switch_arg ext_csd_hs_timing 0)) slow).1

  unfoldable pub fast_ok : ℕ → Status × Device S → Bool × Device S
  fast_ok tmp r = if is_ok r.0 then bus_ok tmp r.1 else (false, r.1)

  unfoldable pub high_speed : ℕ → Device S → Device S
  high_speed tmp d =
      let r = on_host (send_command h cmd6_switch (switch_arg ext_csd_hs_timing 1)) d in
      let fast = on_host (set_clock h 50000000) (change (modify h control0 (set_bit 2)) r.1) in
      if bit 1 d.device_type
      then (if is_ok r.0 then or_revert slow_down (fast_ok tmp fast) else r.1)
      else d

  unfoldable pub four_bits : Device S → Device S
  four_bits d =
      let four = change (modify h control0 (λ x. set_bit 1 (clear_bit 5 x))) d in
      (on_host (send_command h cmd6_switch (switch_arg ext_csd_bus_width 1)) four).1

  unfoldable pub eight_bits : ℕ → Device S → Device S
  eight_bits tmp d =
      let r = on_host (send_command h cmd6_switch (switch_arg ext_csd_bus_width 2)) d in
      let eight = change (modify h control0 (λ x. set_bit 5 (clear_bit 1 x))) r.1 in
      if is_ok r.0 then or_revert four_bits (bus_ok tmp eight) else r.1

  unfoldable pub negotiate_speed : ℕ → Device S → Device S
  negotiate_speed tmp d = eight_bits tmp (high_speed tmp d)

  abbrev pub set_up : Device S → Status × Device S
  set_up d = (e_ok, record d { initialized = true })

  -- The steps of a cold start.
  unfoldable pub cold_init : ℕ → ℕ → Device S → Status × Device S
  cold_init csd tmp d =
      then_or (on_host host_reset d) (λ e. e)
        (λ d1.
          then_or (on_host power_on d1) (λ e. e)
            (λ d2.
              then_or (card_identify d2) (λ e. e)
                (λ d3.
                  then_or (on_host bus_baseline d3) (λ e. e)
                    (λ d4. set_up (negotiate_speed tmp (probe_capabilities csd d4))))))

  unfoldable pub init : ℕ → ℕ → Device S → Status × Device S
  init csd tmp d =
      let (running, s) = already_running d.host in
      let d1 = record d { host = s } in
      if d.initialized
      then (e_ok, d)
      else (if running then set_up (probe_capabilities csd d1) else cold_init csd tmp d1)

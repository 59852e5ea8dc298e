-- ===== src/Emmc.antt =====
-- The waits and commands of source/drivers/emmc/emmc.c. The controller is a parameter: what a read of a register
-- gives, and what reads, writes and time do to it; so is the memory, with the words of the buffers and the
-- descriptor table. A mask of a single bit is the number of the bit. The texts
-- that are printed, and the registers that are read for them, are left out.
pub mod Adma
pub mod Transfer
pub mod Setup
pub mod Commands
pub mod Spy
mod Tests
use rpitos.Prelude.{
  ℕ, zero, suc, ◌+◌, ◌-◌, ◌*◌, ◌/◌, ◌%◌, ◌^◌, Bool, true, false, ◌||◌, ◌==◌, ltb, if◌then◌else◌,
}
use rpitos.Emmc.Adma.{Adma2Desc}
use rpitos.Status.{Status, e_ok, e_cmd, e_timed_out, is_ok}

pub data Register : Type 0 where
  blksizecnt arg1 cmdtm resp0 data_port status control0 control1 interrupt : Register
  irpt_mask irpt_en capabilities0 adma_address : Register

pub record Host (S : Type 0) : Type 0 where
  pub read : Register → S → ℕ × S
  pub write : Register → ℕ → S → S
  pub delay_us : ℕ → S → S
  pub table : S → ℕ → Adma2Desc
  pub set_table : (ℕ → Adma2Desc) → S → S
  pub load : ℕ → S → ℕ
  pub store : ℕ → ℕ → S → S

abbrev pub bit : ℕ → ℕ → Bool
bit k x = x / 2 ^ k % 2 == 1

abbrev pub set_bit : ℕ → ℕ → ℕ
set_bit k x = if bit k x then x else x + 2 ^ k

abbrev pub clear_bit : ℕ → ℕ → ℕ
clear_bit k x = if bit k x then x - 2 ^ k else x

abbrev pub int_cmd_done : ℕ
int_cmd_done = 0

abbrev pub int_data_done : ℕ
int_data_done = 1

abbrev pub int_write_rdy : ℕ
int_write_rdy = 4

abbrev pub int_read_rdy : ℕ
int_read_rdy = 5

abbrev pub int_error_mask : ℕ → Bool
int_error_mask x =
    bit 15 x
    || bit 16 x
    || bit 17 x
    || bit 18 x
    || bit 19 x
    || bit 20 x
    || bit 21 x
    || bit 22 x
    || bit 24 x
    || bit 25 x

abbrev pub all_bits : ℕ
all_bits = 0xFFFFFFFF

-- CMD_RESP_NONE is 0, CMD_RESP_48B is 3.
abbrev pub response : ℕ → ℕ
response cmd = cmd / 65536 % 4

-- What one turn of a wait finds.
pub data Seen : Type 0 where
  ready failed waiting : Seen

-- `if (r != E_OK) return f(r)`, and otherwise what follows.
unfoldable pub on_ok :
    {S : Type 0} → Bool → (Status → Status) → (S → Status × S) → Status × S → Status × S
on_ok true f next r = next r.1
on_ok false f next r = (f r.0, r.1)

abbrev pub then_or : {S : Type 0} → Status × S → (Status → Status) → (S → Status × S) → Status × S
then_or r f next = on_ok (is_ok r.0) f next r

unfoldable pub seen : {S : Type 0} → (S → Status × S) → Seen × S → Status × S
seen again (ready, s) = (e_ok, s)
seen again (failed, s) = (e_cmd, s)
seen again (waiting, s) = again s

module _ {S : Type 0} (h : Host S) where
  -- A wait of at most `k + 1` turns with a microsecond between them.
  unfoldable pub poll : (S → Seen × S) → ℕ → S → Status × S
  poll test zero s = seen (λ t. (e_timed_out, t)) (test s)
  poll test (suc k) s = seen (λ t. poll test k (h.delay_us 1 t)) (test s)

  -- `count = timeout_ms * 1000`, less one.
  abbrev pub turns : ℕ → ℕ
  turns timeout_ms = (timeout_ms * 1000 + 2 ^ 32 - 1) % 2 ^ 32

  -- Bits of the interrupt register: an error, or the bit that is waited for.
  unfoldable pub look : ℕ → S → Seen × S
  look mask s =
      let (x, s1) = h.read interrupt s in
      let (y, s2) = h.read interrupt s1 in
      if int_error_mask y
      then (failed, h.write interrupt all_bits s2)
      else (if bit mask x then (ready, h.write interrupt (2 ^ mask) s2) else (waiting, s2))

  unfoldable pub wait_interrupt : ℕ → ℕ → S → Status × S
  wait_interrupt mask timeout_ms s = poll (look mask) (turns timeout_ms) s

  -- The bits of a register that are to clear.
  unfoldable pub look_clear : Register → (ℕ → Bool) → S → Seen × S
  look_clear r busy s = let (x, s1) = h.read r s in if busy x then (waiting, s1) else (ready, s1)

  unfoldable pub wait_status : (ℕ → Bool) → ℕ → S → Status × S
  wait_status busy timeout_ms s = poll (look_clear status busy) (turns timeout_ms) s

  abbrev pub cmd_inhibit : ℕ → Bool
  cmd_inhibit x = bit 0 x

  abbrev pub dat_inhibit : ℕ → Bool
  dat_inhibit x = bit 1 x

  abbrev pub dat_active : ℕ → Bool
  dat_active x = bit 2 x

  unfoldable pub issue : ℕ → ℕ → S → S
  issue cmd arg s = h.write cmdtm cmd (h.write arg1 arg (h.write interrupt all_bits s))

  -- What follows the write of the command.
  unfoldable pub finish_command : ℕ → S → Status × S
  finish_command cmd s =
      if response cmd == 0
      then wait_status cmd_inhibit 100 (h.write interrupt all_bits (h.delay_us 200 s))
      else then_or (wait_interrupt int_cmd_done 2000 s) (λ e. e)
          (λ t.
            if response cmd == 3
            then then_or (wait_status dat_active 5000 (h.delay_us 100 t)) (λ e. e_timed_out)
                (λ u. (e_ok, u))
            else (e_ok, t))

  unfoldable pub send_command : ℕ → ℕ → S → Status × S
  send_command cmd arg s =
      then_or (wait_status cmd_inhibit 2000 s) (λ e. e_timed_out)
        (λ t.
          if response cmd == 3
          then then_or (wait_status dat_inhibit 2000 t) (λ e. e_timed_out)
              (λ u. finish_command cmd (issue cmd arg u))
          else finish_command cmd (issue cmd arg t))

  -- EMMC2_BASE_CLOCK / (2 * hz), in the ten bits of the divider.
  abbrev pub divider : ℕ → ℕ
  divider hz =
      let div = 200000000 / (2 * hz) in
      let at_least = if ltb div 1 then 1 else div in if ltb 0x3FF at_least then 0x3FF else at_least

  -- CONTROL1 with bits 5 to 15 from the divider and CTRL1_CLK_INTLEN set.
  abbrev pub clock_bits : ℕ → ℕ → ℕ
  clock_bits div x = set_bit 0 (x / 65536 * 65536 + x % 32 + div % 256 * 256 + div / 256 % 4 * 64)

  unfoldable pub look_stable : S → Seen × S
  look_stable s = let (x, s1) = h.read control1 s in if bit 1 x then (ready, s1) else (waiting, s1)

  -- Read, change and write back a register.
  unfoldable pub modify : Register → (ℕ → ℕ) → S → S
  modify r f s = let (x, s1) = h.read r s in h.write r (f x) s1

  unfoldable pub set_clock : ℕ → S → Status × S
  set_clock hz s =
      then_or (wait_status (λ x. cmd_inhibit x || dat_inhibit x) 2000 s) (λ e. e_timed_out)
        (λ t.
          let off = h.delay_us 10 (modify control1 (clear_bit 2) t) in
          let tuned = h.delay_us 20 (modify control1 (clock_bits (divider hz)) off) in
          then_or (poll look_stable 9999 tuned) (λ e. e_timed_out)
            (λ u. (e_ok, h.delay_us 20 (modify control1 (set_bit 2) u))))

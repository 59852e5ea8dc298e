-- ===== src/Emmc/Tests.antt =====
-- The driver on a controller that is always ready.
use rpitos.Prelude.{ℕ, false, ◌+◌, ◌*◌, ◌<◌, ◌≤◌, ◌≡◌, ◌⊎◌, true, arith, refl, some, inl}
use rpitos.Status.{Status, is_ok, e_ok, done, fault}
use rpitos.Emmc.{
  Host, interrupt, poll, seen, look, look_clear, on_ok, wait_interrupt, wait_status, send_command,
  finish_command, issue, modify,
}
use rpitos.Emmc.Spy.{spy, fresh, Traced, IsAll}
use rpitos.Emmc.Adma.{Adma2Desc, adma2_max_descriptors, build_adma2_table, fill, mark_last}
use rpitos.Emmc.Adma.Walk.{walk, bytes}
use rpitos.Emmc.Adma.Table.{build_adma2_table_lem}
use rpitos.Emmc.Transfer.{
  Driver, write_blocks, read_blocks, xfer_adma2, with_table, run_adma2, start_adma2, or_pio,
}
use rpitos.Emmc.Setup.{Device, init}
use rpitos.Emmc.Setup.Quiet.{IsSetup}
use rpitos.Emmc.Setup.Once.{watched, init_lem}
use rpitos.Emmc.Transfer.Sectors.{Issues, IsRead, IsWrite, transfers-Issues}

abbrev no_lines : ℕ → Adma2Desc
no_lines i = record { attr_len = 0; address = 0 }

build_adma2_table_lem_example :
    ((0 < 70000)
      × (70000 ≤ 130 * 65536)
      × (n : ℕ) × (u : ℕ → Adma2Desc) × (build_adma2_table 4096 70000 no_lines ≡ done (n, u))
      × (0 < n)
      × (n ≤ adma2_max_descriptors)
      × (walk n u 0 ≡ some (bytes 4096 70000)))
    ⊎ ((130 * 65536 < 70000)
        × (u : ℕ → Adma2Desc) × (build_adma2_table 4096 70000 no_lines ≡ done (0, u)))
    ⊎ ((◌≡◌ {A = ℕ} 70000 0) × (build_adma2_table 4096 70000 no_lines ≡ fault))
build_adma2_table_lem_example = build_adma2_table_lem 4096 70000 no_lines (omega arith)

-- Its interrupt register has the bits of every wait, its others are 0.
abbrev always_ready : Host ℕ
always_ready = record {
  read = λ r s. (elim r [ interrupt ↦ 51 | _ ↦ 0 ], s);
  write = λ r v s. s + 1;
  delay_us = λ us s. s;
  table = λ s. no_lines;
  set_table = λ t s. s;
  load = λ a s. 0;
  store = λ a x s. s;
}

abbrev driver : Driver
driver = record { is_high_capacity = true; adma2_supported = true; table_address = 8192 }

transfers-Issues_example :
    Issues (IsRead driver 1067008) (read_blocks (spy always_ready) driver 1067008 4096 2 (fresh 0))
    × Issues
        (IsWrite driver 1067008)
        (write_blocks (spy always_ready) driver 1067008 4096 2 (fresh 0))
transfers-Issues_example =
    transfers-Issues always_ready driver 1067008 4096 2 0 (omega arith) (inl refl)

-- Two sectors are written by ADMA2.
write_two : write_blocks always_ready driver 1067008 4096 2 0 ≡ done (e_ok, 8)
unfolding write_blocks xfer_adma2 with_table run_adma2 start_adma2 or_pio build_adma2_table fill
    mark_last poll seen look look_clear on_ok wait_interrupt wait_status send_command finish_command
    issue modify
write_two = refl

abbrev cold : Device ℕ
cold = record {
  host = 0;
  initialized = false;
  is_high_capacity = true;
  adma2_supported = false;
  device_type = 0;
  sec_count = 0;
}

abbrev started : Status × Device (Traced ℕ)
started = init (spy always_ready) 16384 20480 (watched cold)

init_lem_example :
    IsAll IsSetup started.1.host.commands
    × ((is_ok started.0 ≡ false) × (started.1.initialized ≡ false)
        ⊎ (is_ok started.0 ≡ true)
          × (init (spy always_ready) 16384 20480 started.1 ≡ (e_ok, started.1)))
init_lem_example = init_lem always_ready 16384 20480 cold

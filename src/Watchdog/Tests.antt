-- ===== src/Watchdog/Tests.antt =====
-- The reports of the cores at concrete inputs.
use rpitos.Watchdog.{Gate}

-- Cores 0 and 2 are expected.
abbrev gate : Gate
gate = record { expected_mask = 5; core_kicked = λ i. 0; kicks = 7 }

-- ===== src/Telemetry/Tests.antt =====
-- Packets and rings at concrete inputs, with instructions that sum up the bytes.
use rpitos.Prelude.{ℕ, ◌+◌, ◌/◌, ◌%◌, ◌≡◌, List, [], ◌∷◌, some, update, arith, refl}
use rpitos.Status.{done}
use rpitos.Telemetry.Stream.{receive, sends, numbered, receive-sends}
use rpitos.Telemetry.Rings.{TickRecord, TickRing, report_tick_state, drain_ring}
use rpitos.Telemetry.Rings.Fifo.{IsRing, Reported, payloads, contents, tick_ring_lem}
use rpitos.Telemetry.Reports.{task_unblocked, sync_created}

abbrev sum_byte : ℕ → ℕ → ℕ
sum_byte crc a = crc + a

abbrev sum_half : ℕ → ℕ → ℕ
sum_half crc n = crc + n % 256 + n / 256

abbrev sum_word : ℕ → ℕ → ℕ
sum_word crc n = crc + n % 256 + n / 256 % 256 + n / 65536 % 256 + n / 16777216

-- Two packets of type 4 around one of type 9.
abbrev packets : List (ℕ × List ℕ)
packets =
    (4, task_unblocked 258 1)
    ∷ (9, sync_created (record { kind = 2; sync_id = 7; parent_sync_id = 65535; name = 113 ∷ [] }))
    ∷ (4, task_unblocked 3 0)
    ∷ []

receive-sends_example :
    receive sum_byte sum_half sum_word 3
      (sends sum_byte sum_half sum_word packets (record { seq_counters = λ t. 0; sent = [] })).sent
    ≡ some (numbered (λ t. 0) packets)
receive-sends_example =
    receive-sends sum_byte sum_half sum_word (λ crc a b h k. omega (arith, h, k))
      (λ crc a b c d h1 h2 h3 h4. omega (arith, h1, h2, h3, h4)) packets (λ t. 0) (λ t. omega arith)
      (
        omega arith,
        (omega arith, (omega arith, (omega arith, tt))),
        omega arith,
        (
          omega arith,
          (
            omega arith,
            (omega arith, (omega arith, (omega arith, (omega arith, (omega arith, tt))))),
          ),
          omega arith,
          (omega arith, (omega arith, (omega arith, (omega arith, tt))), omega arith, tt),
        ),
      )

abbrev tick : ℕ → TickRecord
tick n = record { core_id = 1; task_id = n; state = 2 }

-- Two records, the first in the last slot.
abbrev round : TickRing
round = record {
  records = update (update (λ i. tick 0) 7 (tick 5)) 0 (tick 6);
  head = 1;
  tail = 7;
  count = 2;
  overflow_count = 3;
}

tick_ring_lem_example :
    IsRing (report_tick_state (tick 9) round)
    × Reported (tick 9) round
    × ((u : TickRing) × (drain_ring 9 round ≡ done (payloads 3 (contents round), u))
        × (u.count ≡ 0)
        × IsRing u)
tick_ring_lem_example =
    tick_ring_lem (tick 9) round 9
      (record { room = omega arith; tail_in = omega arith; ends = refl }) (omega arith)

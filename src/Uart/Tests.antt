-- ===== src/Uart/Tests.antt =====
-- The transmit ring at concrete inputs.
use rpitos.Prelude.{◌<◌, ◌≡◌, ◌⊎◌, arith, [], ◌∷◌, ◌++◌}
use rpitos.Uart.{TxRing, channel_tx, drain_pio, drain_dma}
use rpitos.Uart.Drain.{IsRing, count, pending, drain_dma-drain_pio, channel_tx-pending}

-- Three entries to be sent, across the end of the buffer.
abbrev ring : TxRing
ring = record { buf = λ j. j; left = 2053; right = 0 }

ring-IsRing : IsRing ring
ring-IsRing = record { left = omega arith; right = omega arith }

drain_dma-drain_pio_example :
    (drain_dma 3 ring ≡ (2054 ∷ 2055 ∷ 0 ∷ [], record ring { left = 0 }))
    × (drain_pio 3 ring ≡ drain_dma 3 ring)
drain_dma-drain_pio_example = drain_dma-drain_pio ring 3 ring-IsRing (omega arith)

channel_tx-pending_example :
    ((count ring ≡ 2055) × (channel_tx 9 ring ≡ ring))
    ⊎ ((count ring < 2055)
        × (pending (channel_tx 9 ring).buf (channel_tx 9 ring).left (count (channel_tx 9 ring))
            ≡ pending ring.buf ring.left (count ring) ++ 9 ∷ []))
channel_tx-pending_example = channel_tx-pending 9 ring ring-IsRing

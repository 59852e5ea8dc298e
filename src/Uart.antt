-- ===== src/Uart.antt =====
-- The transmit ring of source/drivers/uart/uart.c: uart_channel_tx on a buffered channel, and the two ways in
-- which uart_tx_task drains it. What is sent is a list of the buffer's entries.
pub mod Drain
pub mod Print
mod Tests
use rpitos.Prelude.{
  ℕ, zero, suc, ◌+◌, ◌-◌, ◌%◌, ◌^◌, ◌==◌, ltb, if◌then◌else◌, update, bytes_of, List, [], ◌∷◌, ◌++◌,
}

abbrev pub uart_buffer_size : ℕ
uart_buffer_size = 2056

-- uart_buf, p_uart_buf_left and p_uart_buf_right: the entries after `left` up to `right` are to be sent.
pub record TxRing : Type 0 where
  pub buf : ℕ → ℕ
  pub left : ℕ
  pub right : ℕ

-- A byte is dropped where the ring is full.
unfoldable pub channel_tx : ℕ → TxRing → TxRing
channel_tx b r =
    let next = (r.right + 1) % uart_buffer_size in
    if next == r.left then r else record r { buf = update r.buf next b; right = next }

-- The drain by single bytes, on fuel.
unfoldable pub drain_pio : ℕ → TxRing → List ℕ × TxRing
drain_pio zero r = ([], r)
drain_pio (suc n) r =
    let l = (r.left + 1) % uart_buffer_size in
    let rest = drain_pio n (record r { left = l }) in
    if r.right == r.left then ([], r) else (r.buf l ∷ rest.0, rest.1)

-- The length of a run of the DMA: what is to be sent, up to the end of the buffer.
unfoldable pub dma_run : TxRing → ℕ
dma_run r =
    let at = (r.left + 1) % uart_buffer_size in
    let avail = (r.right + uart_buffer_size - r.left) % uart_buffer_size in
    if ltb uart_buffer_size (at + avail) then uart_buffer_size - at else avail

-- The drain by runs, on fuel.
unfoldable pub drain_dma : ℕ → TxRing → List ℕ × TxRing
drain_dma zero r = ([], r)
drain_dma (suc n) r =
    let run = dma_run r in
    let at = (r.left + 1) % uart_buffer_size in
    let rest = drain_dma n (record r { left = (r.left + run) % uart_buffer_size }) in
    if r.right == r.left then ([], r) else (bytes_of r.buf at run ++ rest.0, rest.1)

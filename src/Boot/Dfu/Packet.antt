-- ===== src/Boot/Dfu/Packet.antt =====
-- dfu_packet_receive of source/boot/dfu_receive/dfu_receive.c, a state machine over the serial line.
pub mod Framing
pub mod Fuel
use rpitos.Prelude.{
  ℕ, zero, suc, ◌+◌, ◌-◌, ◌*◌, Bool, ◌==◌, ◌&&◌, ltb, leb, if◌then◌else◌, update, List, [], ◌∷◌,
  length, Option, none, some,
}

-- What the line brings: a byte, or a silence longer than DFU_PACKET_TIMEOUT_MS.
pub data Event : Type 0 where
  byte : ℕ → Event
  quiet : Event

-- uart_rx waits, whatever the silence; it does not return where the line brings no byte any more.
abbrev pub rx : List Event → Option (ℕ × List Event)
rx [] = none
rx (byte b ∷ es) = some (b, es)
rx (quiet ∷ es) = rx es

-- uart_rx_timed gives up at a silence.
abbrev pub rx_timed : List Event → Option ℕ × List Event
rx_timed [] = (none, [])
rx_timed (byte b ∷ es) = (some b, es)
rx_timed (quiet ∷ es) = (none, es)

abbrev pub cmd_req : ℕ
cmd_req = 1

abbrev pub num_cmds : ℕ
num_cmds = 9

-- The size of DATA.
abbrev pub data_size : ℕ
data_size = 256

pub record DfuPacket : Type 0 where
  pub cmd : ℕ
  pub len : ℕ
  pub payload : ℕ → ℕ
  pub crc : ℕ

pub data PacketState : Type 0 where
  at_start at_cmd at_length at_payload at_crc at_end at_success at_error : PacketState

-- What one turn of the loop, or the loop, comes to. `overrun` is a write past the end of
-- DATA, `blocked` a byte that does not come.
pub data Turn : Type 0 where
  goes_on : PacketState → DfuPacket → List Event → Turn
  timed_out : List Event → Turn
  overrun : Turn
  blocked : Turn

pub data Outcome : Type 0 where
  received : DfuPacket → List Event → Outcome
  gave_up : List Event → Outcome
  overran : Outcome
  waits : Outcome
  out_of_fuel : Outcome

-- The loop over the payload, which has `n` bytes to come, the next at `i`.
unfoldable pub fill : ℕ → ℕ → DfuPacket → List Event → Turn
fill zero i p es = goes_on at_crc p es
fill (suc n) i p [] = timed_out []
fill (suc n) i p (quiet ∷ es) = timed_out es
fill (suc n) i p (byte b ∷ es) =
    let rest = fill n (i + 1) (record p { payload = update p.payload i b }) es in
    if ltb i data_size then rest else overrun

-- The lower byte of the length.
unfoldable pub length_lsb : ℕ → DfuPacket → Option ℕ × List Event → Turn
length_lsb msb p (none, es) = timed_out es
length_lsb msb p (some lsb, es) = goes_on at_payload (record p { len = msb * 256 + lsb }) es

-- The last byte of the checksum, of which `high` is read, and the one before.
unfoldable pub crc_b4 : ℕ → DfuPacket → Option ℕ × List Event → Turn
crc_b4 high p (none, es) = timed_out es
crc_b4 high p (some b4, es) = goes_on at_end (record p { crc = high * 256 + b4 }) es

unfoldable pub crc_b3 : ℕ → DfuPacket → Option ℕ × List Event → Turn
crc_b3 high p (none, es) = timed_out es
crc_b3 high p (some b3, es) = crc_b4 (high * 256 + b3) p (rx_timed es)

unfoldable pub crc_b2 : ℕ → DfuPacket → Option ℕ × List Event → Turn
crc_b2 high p (none, es) = timed_out es
crc_b2 high p (some b2, es) = crc_b3 (high * 256 + b2) p (rx_timed es)

-- One turn: the byte that uart_rx gave, in a state.
unfoldable pub packet_turn : PacketState → ℕ → DfuPacket → List Event → Turn
packet_turn at_start b p es = if b == 0xAA then goes_on at_cmd p es else goes_on at_start p es
packet_turn at_cmd b p es =
    if leb cmd_req b && ltb b num_cmds
    then goes_on at_length (record p { cmd = b }) es
    else goes_on at_error p es
packet_turn at_length b p es = length_lsb b p (rx_timed es)
packet_turn at_payload b p es =
    let p1 = record p { payload = update p.payload 0 b } in fill (p.len - 1) 1 p1 es
packet_turn at_crc b p es = crc_b2 b p (rx_timed es)
packet_turn at_end b p es = if b == 0xBB then goes_on at_success p es else goes_on at_end p es
packet_turn at_error b p es = goes_on at_start (record p { cmd = 0; crc = 0; len = 0 }) es
packet_turn at_success b p es = goes_on at_success p es

unfoldable pub next_turn : PacketState → DfuPacket → Option (ℕ × List Event) → Turn
next_turn s p none = blocked
next_turn s p (some (b, es)) = packet_turn s b p es

-- `while (state != PACKET_STATE_SUCCESS)` after a turn, with the rest of the loop.
unfoldable pub after_turn : (PacketState → DfuPacket → List Event → Outcome) → Turn → Outcome
after_turn loop (goes_on at_success p es) = received p es
after_turn loop (goes_on s p es) = loop s p es
after_turn loop (timed_out es) = gave_up es
after_turn loop overrun = overran
after_turn loop blocked = waits

unfoldable pub packet_loop : ℕ → PacketState → DfuPacket → List Event → Outcome
packet_loop zero s p es = out_of_fuel
packet_loop (suc n) s p es = after_turn (packet_loop n) (next_turn s p (rx es))

-- A turn takes a byte at least.
abbrev pub packet_receive : DfuPacket → List Event → Outcome
packet_receive p es = packet_loop (suc (length es)) at_start p es

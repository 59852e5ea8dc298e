-- ===== src/Boot/Dfu/Loop/Ends.antt =====
-- Each packet that dfu_receive handles takes at least one event off the line.
use rpitos.Prelude.{ℕ, zero, suc, ◌≤◌, ◌<◌, List, length, Option, none, some, arith}
use rpitos.Boot.Dfu.Packet.{
  Event, rx, DfuPacket, PacketState, at_start, at_cmd, at_length, at_payload, at_crc, at_end,
  at_success, at_error, Turn, goes_on, timed_out, overrun, blocked, Outcome, received, gave_up,
  overran, waits, out_of_fuel, packet_turn, next_turn, after_turn, packet_loop,
}
use rpitos.Boot.Dfu.Packet.Fuel.{Within, RxWithin, rx-Within, turn-Within}

-- What is left is shorter than `k`, after a turn and after a packet.
abbrev Shorter : ℕ → Turn → Type 0
Shorter k (goes_on s p es) = length es < k
Shorter k (timed_out es) = Unit
Shorter k overrun = Unit
Shorter k blocked = Unit

abbrev pub LeftShorter : ℕ → Outcome → Type 0
LeftShorter k (received p es) = length es < k
LeftShorter k (gave_up es) = Unit
LeftShorter k overran = Unit
LeftShorter k waits = Unit
LeftShorter k out_of_fuel = Unit

LeftShorter-le : (j k : ℕ) (o : Outcome) → j ≤ k → LeftShorter j o → LeftShorter k o
LeftShorter-le j k (received p es) e w = omega arith
LeftShorter-le j k (gave_up es) e w = tt
LeftShorter-le j k overran e w = tt
LeftShorter-le j k waits e w = tt
LeftShorter-le j k out_of_fuel e w = tt

Within-Shorter : (j k : ℕ) (t : Turn) → j < k → Within j t → Shorter k t
Within-Shorter j k (goes_on s p es) e w = omega arith
Within-Shorter j k (timed_out es) e w = tt
Within-Shorter j k overrun e w = tt
Within-Shorter j k blocked e w = tt

next-Shorter :
    (s : PacketState) (p : DfuPacket) (k : ℕ) (o : Option (ℕ × List Event))
    → RxWithin k o
    → Shorter k (next_turn s p o)
unfolding next_turn
next-Shorter s p k none w = tt
next-Shorter s p k (some (b, es)) w =
    Within-Shorter (length es) k (packet_turn s b p es) w (turn-Within s b p es)

after-LeftShorter :
    (k : ℕ) (f : PacketState → DfuPacket → List Event → Outcome) (t : Turn)
    → Shorter k t
    → ((s : PacketState) (p : DfuPacket) (es : List Event) → LeftShorter (length es) (f s p es))
    → LeftShorter k (after_turn f t)
unfolding after_turn
after-LeftShorter k f (goes_on at_success p es) w h = w
after-LeftShorter k f (goes_on at_start p es) w h =
    LeftShorter-le (length es) k (f at_start p es) (omega arith) (h at_start p es)
after-LeftShorter k f (goes_on at_cmd p es) w h =
    LeftShorter-le (length es) k (f at_cmd p es) (omega arith) (h at_cmd p es)
after-LeftShorter k f (goes_on at_length p es) w h =
    LeftShorter-le (length es) k (f at_length p es) (omega arith) (h at_length p es)
after-LeftShorter k f (goes_on at_payload p es) w h =
    LeftShorter-le (length es) k (f at_payload p es) (omega arith) (h at_payload p es)
after-LeftShorter k f (goes_on at_crc p es) w h =
    LeftShorter-le (length es) k (f at_crc p es) (omega arith) (h at_crc p es)
after-LeftShorter k f (goes_on at_end p es) w h =
    LeftShorter-le (length es) k (f at_end p es) (omega arith) (h at_end p es)
after-LeftShorter k f (goes_on at_error p es) w h =
    LeftShorter-le (length es) k (f at_error p es) (omega arith) (h at_error p es)
after-LeftShorter k f (timed_out es) w h = tt
after-LeftShorter k f overrun w h = tt
after-LeftShorter k f blocked w h = tt

pub loop-LeftShorter :
    (n : ℕ) (s : PacketState) (p : DfuPacket) (es : List Event)
    → LeftShorter (length es) (packet_loop n s p es)
unfolding packet_loop
loop-LeftShorter zero s p es = tt
loop-LeftShorter (suc n) s p es =
    after-LeftShorter (length es) (packet_loop n) (next_turn s p (rx es))
      (next-Shorter s p (length es) (rx es) (rx-Within es)) (loop-LeftShorter n)

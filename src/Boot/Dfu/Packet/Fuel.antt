-- ===== src/Boot/Dfu/Packet/Fuel.antt =====
-- The loop of dfu_packet_receive ends once the line falls silent.
use rpitos.Prelude.{
  ℕ, zero, suc, ◌+◌, ◌-◌, ◌*◌, ◌≤◌, ◌<◌, ◌≡◌, ◌≢◌, Bool, true, false, ◌==◌, ◌&&◌, ltb, leb,
  if◌then◌else◌, List, [], ◌∷◌, length, Option, none, some, arith, update, refl, sym,
}
use mathlib.Core.Path.{subst}
use rpitos.Boot.Dfu.Packet.{
  Event, byte, quiet, rx, rx_timed, cmd_req, num_cmds, data_size, DfuPacket, PacketState, at_start,
  at_cmd, at_length, at_payload, at_crc, at_end, at_success, at_error, Turn, goes_on, timed_out,
  overrun, blocked, Outcome, received, gave_up, overran, waits, out_of_fuel, fill, length_lsb,
  crc_b4, crc_b3, crc_b2, packet_turn, next_turn, after_turn, packet_loop, packet_receive,
}

-- What is left is no longer than `k`.
abbrev pub Within : ℕ → Turn → Type 0
Within k (goes_on s p es) = length es ≤ k
Within k (timed_out es) = Unit
Within k overrun = Unit
Within k blocked = Unit

abbrev pub RxWithin : ℕ → Option (ℕ × List Event) → Type 0
RxWithin k none = Unit
RxWithin k (some (b, es)) = length es < k

RxWithin-le : (j k : ℕ) (o : Option (ℕ × List Event)) → j ≤ k → RxWithin j o → RxWithin k o
RxWithin-le j k none e w = tt
RxWithin-le j k (some (b, es)) e w = omega arith

pub rx-Within : (es : List Event) → RxWithin (length es) (rx es)
rx-Within [] = tt
rx-Within (byte b ∷ es) = omega arith
rx-Within (quiet ∷ es) =
    RxWithin-le (length es) (suc (length es)) (rx es) (omega arith) (rx-Within es)

rx_timed-le : (es : List Event) → length (rx_timed es).1 ≤ length es
rx_timed-le [] = omega arith
rx_timed-le (byte b ∷ es) = omega arith
rx_timed-le (quiet ∷ es) = omega arith

Within-le : (j k : ℕ) (t : Turn) → j ≤ k → Within j t → Within k t
Within-le j k (goes_on s p es) e w = omega arith
Within-le j k (timed_out es) e w = tt
Within-le j k overrun e w = tt
Within-le j k blocked e w = tt

Within-if :
    (k : ℕ) (b : Bool) (t u : Turn) → Within k t → Within k u → Within k (if b then t else u)
Within-if k true t u v w = v
Within-if k false t u v w = w

fill-Within : (n i : ℕ) (p : DfuPacket) (es : List Event) → Within (length es) (fill n i p es)
unfolding fill
fill-Within zero i p es = omega arith
fill-Within (suc n) i p [] = tt
fill-Within (suc n) i p (quiet ∷ es) = tt
fill-Within (suc n) i p (byte b ∷ es) =
    let q = record p { payload = update p.payload i b } in
    Within-if (suc (length es)) (ltb i data_size) (fill n (i + 1) q es) overrun
      (Within-le (length es) (suc (length es)) (fill n (i + 1) q es) (omega arith)
        (fill-Within n (i + 1) q es))
      tt

length_lsb-Within :
    (k msb : ℕ) (p : DfuPacket) (r : Option ℕ × List Event)
    → length r.1 ≤ k
    → Within k (length_lsb msb p r)
unfolding length_lsb
length_lsb-Within k msb p (none, es) e = tt
length_lsb-Within k msb p (some b, es) e = e

crc_b4-Within :
    (k high : ℕ) (p : DfuPacket) (r : Option ℕ × List Event)
    → length r.1 ≤ k
    → Within k (crc_b4 high p r)
unfolding crc_b4
crc_b4-Within k high p (none, es) e = tt
crc_b4-Within k high p (some b, es) e = e

crc_b3-Within :
    (k high : ℕ) (p : DfuPacket) (r : Option ℕ × List Event)
    → length r.1 ≤ k
    → Within k (crc_b3 high p r)
unfolding crc_b3
crc_b3-Within k high p (none, es) e = tt
crc_b3-Within k high p (some b, es) e =
    crc_b4-Within k (high * 256 + b) p (rx_timed es) (omega (arith, rx_timed-le es))

crc_b2-Within :
    (k high : ℕ) (p : DfuPacket) (r : Option ℕ × List Event)
    → length r.1 ≤ k
    → Within k (crc_b2 high p r)
unfolding crc_b2
crc_b2-Within k high p (none, es) e = tt
crc_b2-Within k high p (some b, es) e =
    crc_b3-Within k (high * 256 + b) p (rx_timed es) (omega (arith, rx_timed-le es))

pub turn-Within :
    (s : PacketState) (b : ℕ) (p : DfuPacket) (es : List Event)
    → Within (length es) (packet_turn s b p es)
unfolding packet_turn
turn-Within at_start b p es =
    Within-if (length es) (b == 0xAA) (goes_on at_cmd p es) (goes_on at_start p es) (omega arith)
      (omega arith)
turn-Within at_cmd b p es =
    Within-if (length es) (leb cmd_req b && ltb b num_cmds)
      (goes_on at_length (record p { cmd = b }) es) (goes_on at_error p es) (omega arith)
      (omega arith)
turn-Within at_length b p es = length_lsb-Within (length es) b p (rx_timed es) (rx_timed-le es)
turn-Within at_payload b p es =
    fill-Within (p.len - 1) 1 (record p { payload = update p.payload 0 b }) es
turn-Within at_crc b p es = crc_b2-Within (length es) b p (rx_timed es) (rx_timed-le es)
turn-Within at_end b p es =
    Within-if (length es) (b == 0xBB) (goes_on at_success p es) (goes_on at_end p es) (omega arith)
      (omega arith)
turn-Within at_success b p es = omega arith
turn-Within at_error b p es = omega arith

abbrev pub Ends : Outcome → Type 0
Ends out_of_fuel = ⊥
Ends (received p es) = Unit
Ends (gave_up es) = Unit
Ends overran = Unit
Ends waits = Unit

next-Within :
    (s : PacketState) (p : DfuPacket) (k : ℕ) (o : Option (ℕ × List Event))
    → RxWithin (suc k) o
    → Within k (next_turn s p o)
unfolding next_turn
next-Within s p k none w = tt
next-Within s p k (some (b, es)) w =
    Within-le (length es) k (packet_turn s b p es) (omega arith) (turn-Within s b p es)

after-Ends :
    (k : ℕ) (f : PacketState → DfuPacket → List Event → Outcome) (t : Turn)
    → Within k t
    → ((s : PacketState) (p : DfuPacket) (es : List Event) → length es ≤ k → Ends (f s p es))
    → Ends (after_turn f t)
unfolding after_turn
after-Ends k f (goes_on at_success p es) w h = tt
after-Ends k f (goes_on at_start p es) w h = h at_start p es w
after-Ends k f (goes_on at_cmd p es) w h = h at_cmd p es w
after-Ends k f (goes_on at_length p es) w h = h at_length p es w
after-Ends k f (goes_on at_payload p es) w h = h at_payload p es w
after-Ends k f (goes_on at_crc p es) w h = h at_crc p es w
after-Ends k f (goes_on at_end p es) w h = h at_end p es w
after-Ends k f (goes_on at_error p es) w h = h at_error p es w
after-Ends k f (timed_out es) w h = tt
after-Ends k f overrun w h = tt
after-Ends k f blocked w h = tt

rx-nothing : (o : Option (ℕ × List Event)) → RxWithin 0 o → o ≡ none
rx-nothing none w = refl
rx-nothing (some (b, es)) w = absurd (omega (arith, w))

loop-Ends :
    (n : ℕ) (s : PacketState) (p : DfuPacket) (es : List Event)
    → length es < n
    → Ends (packet_loop n s p es)
unfolding packet_loop next_turn after_turn
loop-Ends zero s p es e = omega arith
loop-Ends (suc zero) s p es e =
    let none_left =
      rx-nothing (rx es) (RxWithin-le (length es) 0 (rx es) (omega arith) (rx-Within es)) in
    subst (λ o. Ends (after_turn (packet_loop 0) (next_turn s p o))) (sym none_left) tt
loop-Ends (suc (suc n)) s p es e =
    after-Ends n (packet_loop (suc n)) (next_turn s p (rx es))
      (next-Within s p n (rx es)
        (RxWithin-le (length es) (suc n) (rx es) (omega arith) (rx-Within es)))
      (λ s2 p2 es2 l. loop-Ends (suc n) s2 p2 es2 (omega arith))

-- The loop of dfu_packet_receive never takes more turns than the line brings bytes and silences, and one:
-- whatever these are and whatever the packet held, the call returns, gives up, overruns DATA, or waits for a
-- byte that does not come.
pub packet_receive-ends : (p : DfuPacket) (es : List Event) → packet_receive p es ≢ out_of_fuel
packet_receive-ends p es e = subst Ends e (loop-Ends (suc (length es)) at_start p es (omega arith))

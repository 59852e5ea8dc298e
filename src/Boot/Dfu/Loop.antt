-- ===== src/Boot/Dfu/Loop.antt =====
-- dfu_receive of source/boot/dfu_receive/dfu_receive.c: the wait for the trigger, and the loop over the packets.
pub mod Ends
pub mod Finish
use rpitos.Prelude.{
  ℕ, zero, suc, Bool, true, false, if◌then◌else◌, List, [], ◌∷◌, Option, none, some, length,
}
use rpitos.Status.{Status, e_ok, e_timed_out, e_aborted}
use rpitos.Boot.Disk.{Disk, Machine}
use rpitos.Boot.Flags.{BootFlags}
use rpitos.Boot.Meta.{WdtMeta}
use rpitos.Boot.Trigger.{feed, reset}
use rpitos.Boot.Dfu.{
  Session, DfuState, dfu_start, dfu_receive_data, dfu_done, dfu_abort, dfu_init, handle, ack,
}
use rpitos.Boot.Dfu.Packet.{
  Event, byte, quiet, DfuPacket, Outcome, received, gave_up, overran, waits, out_of_fuel,
  packet_receive,
}

-- What the call comes to: it returns a status, resets the device, waits for a byte that does not come, or
-- overruns DATA.
pub data Result : Type 0 where
  returns : Status → Session → List Event → Result
  resets : Session → Result
  stuck : Session → Result
  overruns : Session → Result
  starved : Result

-- What the bytes after the trigger are, where it comes.
unfoldable pub wait_trigger : ℕ → List Event → Option (List Event)
wait_trigger reg [] = none
wait_trigger reg (quiet ∷ es) = wait_trigger reg es
wait_trigger reg (byte b ∷ es) =
    let f = feed b reg in let rest = wait_trigger f.1 es in if f.0 then some es else rest

-- What follows a packet: the test of the while loop, with the rest of the loop.
unfoldable pub after_packet :
    (Session → List Event → Result) → Bool → DfuState → Session → List Event → Result
after_packet loop true state s es = resets s
after_packet loop false dfu_done s es = returns e_ok s es
after_packet loop false dfu_abort s es = returns e_aborted s es
after_packet loop false dfu_start s es = loop s es
after_packet loop false dfu_receive_data s es = loop s es

unfoldable pub on_packet : Machine → (Session → List Event → Result) → Session → Outcome → Result
on_packet h loop s (received p es) =
    let t = handle h p s in after_packet loop t.restarted t.state t es
on_packet h loop s (gave_up es) = returns e_timed_out s es
on_packet h loop s overran = overruns s
on_packet h loop s waits = stuck s
on_packet h loop s out_of_fuel = starved

-- The loop, on fuel; `raw` is what the packet on the stack holds.
unfoldable pub receive_loop : Machine → ℕ → DfuPacket → Session → List Event → Result
receive_loop h zero raw s es = starved
receive_loop h (suc n) raw s es = on_packet h (receive_loop h n raw) s (packet_receive raw es)

unfoldable pub triggered : Machine → DfuPacket → Session → Option (List Event) → Result
triggered h raw s none = stuck s
triggered h raw s (some es) = receive_loop h (suc (length es)) raw (ack s) es

abbrev pub dfu_receive :
    Machine → DfuPacket → ℕ → ℕ → (ℕ → ℕ) → Disk → WdtMeta → BootFlags → List Event → Result
dfu_receive h raw crc ctx buf d m f es =
    triggered h raw (dfu_init crc ctx buf d m f) (wait_trigger reset es)

-- ===== src/Boot/Dfu/Tests.antt =====
-- The theorems on the update at concrete inputs.
use rpitos.Prelude.{
  ℕ, zero, suc, ◌+◌, ◌≡◌, ◌⊎◌, refl, ap, arith, List, [], ◌∷◌, ◌++◌, byte_at, bytes_of,
}
use rpitos.Crc.{hw_update}
use rpitos.Boot.Disk.{slot_other}
use rpitos.Boot.Flags.{cold_flags}
use rpitos.Status.{e_ok}
use rpitos.Boot.Meta.{defaults, read}
use rpitos.Boot.App.{start_packet_at}
use rpitos.Boot.Tests.{bench, bench-IsWorking, blank}
use rpitos.Boot.Dfu.{Session, dfu_init, handle, dfu_done}
use rpitos.Boot.Dfu.Packet.{byte, quiet, DfuPacket, packet_receive, received, overran}
use rpitos.Boot.Dfu.Packet.Framing.{encode, packet_receive-encode, packet_receive-overruns}
use rpitos.Boot.Dfu.Receive.{IsReceiving, IsPiece, handle-IsReceiving}
use rpitos.Boot.Meta.Store.{IsWords}
use rpitos.Boot.Dfu.Commit.{IsKept, IsCommitted, handle-IsCommitted}
use rpitos.Boot.Dfu.Loop.{dfu_receive}
use rpitos.Boot.Dfu.Loop.Finish.{IsOutcome, dfu_receive-IsOutcome}
use rpitos.Boot.Dfu.Whole.{transfer-commits, start-IsReceiving, with_header, target}

abbrev nothing : ℕ → ℕ
nothing j = 0

abbrev raw : DfuPacket
raw = record { cmd = 0; len = 0; payload = nothing; crc = 0 }

abbrev zeros : ℕ → List ℕ
zeros zero = []
zeros (suc n) = 0 ∷ zeros n

packet_receive-encode_example :
    (q : DfuPacket) × (packet_receive raw
        ((byte 3 ∷ quiet ∷ []) ++ encode 4 (1 ∷ 2 ∷ 3 ∷ 4 ∷ []) 77 (byte 5 ∷ []))
      ≡ received q (byte 5 ∷ []))
    × (q.cmd ≡ 4)
    × (q.len ≡ 4)
    × (bytes_of q.payload 0 q.len ≡ 1 ∷ 2 ∷ 3 ∷ 4 ∷ [])
    × (q.crc ≡ 77)
packet_receive-encode_example =
    packet_receive-encode (byte 3 ∷ quiet ∷ []) 4 (1 ∷ 2 ∷ 3 ∷ 4 ∷ []) 77 raw (byte 5 ∷ [])
      (refl, tt) (omega arith) (omega arith) (omega arith) (omega arith) (omega arith)

packet_receive-overruns_example : packet_receive raw ([] ++ encode 4 (zeros 260) 77 []) ≡ overran
packet_receive-overruns_example =
    packet_receive-overruns [] 4 (zeros 260) 77 raw [] tt (omega arith) (omega arith) (omega arith)
      (omega arith)

-- An image of 36 bytes: the marker in its last word, and that word its checksum.
abbrev image : ℕ → ℕ
image = byte_at (zeros 32 ++ 0x21 ∷ 0x55 ∷ 0x46 ∷ 0x44 ∷ [])

-- Version 1, 36 bytes, and the checksum.
abbrev first : DfuPacket
first = record {
  cmd = 2;
  len = 12;
  payload = byte_at (1 ∷ 0 ∷ 0 ∷ 0 ∷ 36 ∷ 0 ∷ 0 ∷ 0 ∷ 0xDE ∷ 0xAA ∷ 0xB9 ∷ 0xBB ∷ []);
  crc = 0;
}

abbrev piece : DfuPacket
piece = record { cmd = 4; len = 36; payload = image; crc = 0 }

abbrev last : DfuPacket
last = record { cmd = 5; len = 0; payload = nothing; crc = 0 }

abbrev fresh : Session
fresh = dfu_init 0 0 nothing blank defaults cold_flags

piece-IsPiece : IsPiece image 0 piece
piece-IsPiece = record {
  cmd = refl;
  some = omega arith;
  most = omega arith;
  words = refl;
  bytes = λ j q. let e : j ≡ 0 + j = omega arith in ap image e;
}

handle-IsReceiving_example :
    IsReceiving bench
      (target bench bench-IsWorking 0 0 nothing blank defaults cold_flags image)
      image
      (with_header bench bench-IsWorking
        (target bench bench-IsWorking 0 0 nothing blank defaults cold_flags image)
        nothing
        first
        blank)
      36
      (start_packet_at first.payload).crc
      defaults
      36
      (handle bench piece (handle bench first fresh))
handle-IsReceiving_example =
    handle-IsReceiving bench bench-IsWorking
      (target bench bench-IsWorking 0 0 nothing blank defaults cold_flags image) (omega arith) image
      (with_header bench bench-IsWorking
        (target bench bench-IsWorking 0 0 nothing blank defaults cold_flags image) nothing first
        blank)
      36 (start_packet_at first.payload).crc defaults (omega arith) 0 piece
      (handle bench first fresh) piece-IsPiece
      (start-IsReceiving bench bench-IsWorking 0 0 nothing blank defaults cold_flags image first
        refl refl)

defaults-IsWords : IsWords defaults
defaults-IsWords = record {
  count = omega arith;
  tolerance = omega arith;
  policy = omega arith;
  reason = omega arith;
  slot = omega arith;
  trial = omega arith;
  boots = omega arith;
}

handle-IsCommitted_example :
    IsKept fresh (handle bench last fresh)
    ⊎ ((last.cmd ≡ 5)
        × IsCommitted bench bench-IsWorking
            (slot_other fresh.meta.active_app_slot)
            fresh
            (handle bench last fresh))
unfolding dfu_init
handle-IsCommitted_example =
    handle-IsCommitted bench bench-IsWorking last fresh defaults-IsWords (omega arith)

transfer-commits_example :
    let t = handle bench last (handle bench piece (handle bench first fresh)) in
    (t.state ≡ dfu_done)
    × (t.meta.active_app_slot ≡ slot_other defaults.active_app_slot)
    × (t.meta.app_slot_trial ≡ 1)
    × (t.meta.trial_boot_count ≡ 0)
    × (read bench defaults t.disk ≡ (e_ok, t.meta))
unfolding hw_update
transfer-commits_example =
    transfer-commits bench bench-IsWorking 0 0 nothing blank defaults cold_flags image first
      (piece ∷ []) last 36 (start_packet_at first.payload).crc defaults defaults-IsWords refl refl
      refl (omega arith) (omega arith) refl refl (piece-IsPiece, tt) (omega arith) (omega arith)
      refl

dfu_receive-IsOutcome_example : IsOutcome defaults (
    dfu_receive bench raw 0 0 nothing blank defaults cold_flags
      (byte 0xDF ∷ byte 0 ∷ byte 0xDF ∷ byte 0 ∷ quiet ∷ byte 0xAA ∷ byte 6 ∷ []))
dfu_receive-IsOutcome_example =
    dfu_receive-IsOutcome bench raw 0 0 nothing blank defaults cold_flags
      (byte 0xDF ∷ byte 0 ∷ byte 0xDF ∷ byte 0 ∷ quiet ∷ byte 0xAA ∷ byte 6 ∷ [])

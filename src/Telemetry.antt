-- ===== src/Telemetry.antt =====
-- The packets of source/telemetry: telemetry_send_framed, on a line that keeps every byte sent. A build with
-- RTOS_TELEMETRY. The instructions crc32b, crc32h and crc32w are arguments.
pub mod Reports
pub mod Rings
pub mod Stream
mod Tests
use rpitos.Prelude.{
  ℕ, zero, suc, ◌+◌, ◌*◌, ◌/◌, ◌%◌, ◌^◌, ◌==◌, leb, if◌then◌else◌, update, List, [], ◌∷◌, ◌++◌,
  length,
}
use rpitos.Crc.{hw_update, start, finish}

abbrev pub telemetry_magic : ℕ
telemetry_magic = 0xA5

abbrev pub telemetry_trailer : ℕ
telemetry_trailer = 0x5A

abbrev pub num_telemetry_packet_types : ℕ
num_telemetry_packet_types = 11

-- The next sequence number of each type, and the bytes on the line.
pub record Line : Type 0 where
  pub seq_counters : ℕ → ℕ
  pub sent : List ℕ

abbrev pub header : ℕ → ℕ → ℕ → List ℕ
header type seq len = telemetry_magic ∷ type ∷ seq ∷ 0 ∷ len ∷ []

-- The bytes of a word, the lowest first.
abbrev pub little_endian : ℕ → List ℕ
little_endian n = n % 256 ∷ n / 256 % 256 ∷ n / 65536 % 256 ∷ n / 16777216 % 256 ∷ []

module _ (crc32b crc32h crc32w : ℕ → ℕ → ℕ) where
  unfoldable pub checksum : List ℕ → List ℕ → ℕ
  checksum head payload =
      let update_crc = hw_update crc32b crc32h crc32w in
      let crc = update_crc start head in
      finish (if length payload == 0 then crc else update_crc crc payload)

  unfoldable pub frame : ℕ → ℕ → List ℕ → List ℕ
  frame type seq payload =
      let head = header type seq (length payload) in
      head ++ payload ++ little_endian (checksum head payload) ++ telemetry_trailer ∷ []

  unfoldable pub send_framed : ℕ → List ℕ → Line → Line
  send_framed type payload l = if leb num_telemetry_packet_types type then l else record {
    seq_counters = update l.seq_counters type ((l.seq_counters type + 1) % 256);
    sent = l.sent ++ frame type (l.seq_counters type) payload;
  }

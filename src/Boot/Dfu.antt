-- ===== src/Boot/Dfu.antt =====
-- dfu_receive of source/boot/dfu_receive/dfu_receive.c: the commands of an update over the serial line. The
-- prints and the reports to telemetry are left out; `tx` holds the answers, the last one first.
pub mod Packet
mod Tests
pub mod Data
pub mod Receive
pub mod Commit
pub mod Transfer
pub mod Whole
pub mod Loop
use rpitos.Prelude.{
  ℕ, zero, suc, ◌+◌, ◌-◌, ◌%◌, ◌^◌, ◌<◌, Bool, true, false, ◌==◌, ◌&&◌, not, ltb, leb,
  if◌then◌else◌, bytes_of, List, [], ◌∷◌, Option, none, some, length,
}
use rpitos.Status.{Status, e_ok, e_timed_out, e_aborted, is_ok}
use rpitos.Crc.{hw_update, start, finish}
use rpitos.Boot.Disk.{
  Disk, Machine, read_block, word_at, sector_size, slot_to_sector, slot_other,
  emmc_sector_bootloader,
}
use rpitos.Boot.Flags.{BootFlags}
use rpitos.Boot.Meta.{WdtMeta, write}
use rpitos.Boot.App.{StartPacket, start_packet_at, validate_app}
use rpitos.Boot.Trigger.{feed, reset}
use rpitos.Boot.Dfu.Packet.{
  Event, byte, quiet, DfuPacket, Outcome, received, gave_up, overran, waits, out_of_fuel,
  packet_receive, rx,
}

abbrev pub dfu_ack : ℕ
dfu_ack = 0x06

abbrev pub dfu_nack : ℕ
dfu_nack = 0x15

abbrev pub dfu_app_magic : ℕ
dfu_app_magic = 0x44465521

abbrev pub dfu_app_marker_offset : ℕ
dfu_app_marker_offset = 0x20

pub data DfuState : Type 0 where
  dfu_start dfu_receive_data dfu_done dfu_abort : DfuState

-- The statics and the locals of dfu_receive, and what it shares: the disk, wdt_meta, boot_flags.fw_crc_ok.
-- `restarted` says that it has reset the device.
pub record Session : Type 0 where
  pub sectors_written : ℕ
  pub current_sector : ℕ → ℕ
  pub current_sector_counter : ℕ
  pub unwritten_sector : Bool
  pub started : Bool
  pub is_self_update : Bool
  pub dfu_base_sector : ℕ
  pub state : DfuState
  pub img_expected_crc : ℕ
  pub img_length : ℕ
  pub bytes_hashed : ℕ
  pub crc_ctx : ℕ
  pub disk : Disk
  pub meta : WdtMeta
  pub flags : BootFlags
  pub tx : List ℕ
  pub restarted : Bool

-- dfu_init, and the locals: `crc` and `ctx` are what the stack holds.
unfoldable pub dfu_init : ℕ → ℕ → (ℕ → ℕ) → Disk → WdtMeta → BootFlags → Session
dfu_init crc ctx buf d m f = record {
  sectors_written = 0;
  current_sector = buf;
  current_sector_counter = 0;
  unwritten_sector = false;
  started = false;
  is_self_update = false;
  dfu_base_sector = 0;
  state = dfu_start;
  img_expected_crc = crc;
  img_length = 0;
  bytes_hashed = 0;
  crc_ctx = ctx;
  disk = d;
  meta = m;
  flags = f;
  tx = [];
  restarted = false;
}

abbrev pub ack : Session → Session
ack s = record s { tx = dfu_ack ∷ s.tx }

-- A refusal, which ends the session.
abbrev pub refuse : Session → Session
refuse s = record s { tx = dfu_nack ∷ s.tx; state = dfu_abort }

-- `n` bytes of a packet, from `k` on, copied into a sector at `i`.
abbrev pub copy_at : (ℕ → ℕ) → ℕ → ℕ → ℕ → (ℕ → ℕ) → ℕ → ℕ
copy_at f k i n buf j = if leb i j && ltb j (i + n) then f (k + (j - i)) else buf j

abbrev pub is_receiving : DfuState → Bool
is_receiving dfu_receive_data = true
is_receiving _ = false

module _ (h : Machine) where
  -- CMD_START and CMD_START_SELF_UPDATE, which write the header to `base`.
  unfoldable pub start_image : ℕ → Bool → DfuPacket → Session → Session
  start_image base self_update p s =
      let buf = copy_at p.payload 0 0 12 s.current_sector in
      let hdr = start_packet_at p.payload in
      let began = record s {
        state = dfu_receive_data;
        current_sector = buf;
        img_expected_crc = hdr.crc;
        img_length = hdr.fw_length;
        crc_ctx = start;
        dfu_base_sector = base;
        disk = (h.write_block base buf s.disk).1;
        sectors_written = 1;
        is_self_update = self_update;
        started = true;
      } in
      if s.started then refuse s else (if p.len == 12 then ack began else refuse s)

  -- The payload into the sector, which is written when it is full.
  unfoldable pub store_data : DfuPacket → Session → Session
  store_data p s =
      let c = s.current_sector_counter in
      let diff = c + p.len - sector_size in
      let full = copy_at p.payload 0 c (p.len - diff) s.current_sector in
      if leb sector_size (c + p.len)
      then record s {
        disk = (h.write_block (s.dfu_base_sector + s.sectors_written) full s.disk).1;
        current_sector = copy_at p.payload (p.len - diff) 0 diff full;
        sectors_written = s.sectors_written + 1;
        unwritten_sector = not (diff == 0);
        current_sector_counter = diff;
      }
      else record s {
        unwritten_sector = true;
        current_sector = copy_at p.payload 0 c p.len s.current_sector;
        current_sector_counter = c + p.len;
      }

  -- The payload into the checksum, up to the length of the image.
  unfoldable pub to_hash : DfuPacket → Session → ℕ
  to_hash p s =
      if ltb s.img_length ((s.bytes_hashed + p.len) % 2 ^ 32)
      then s.img_length - s.bytes_hashed
      else p.len

  unfoldable pub hash_data : DfuPacket → Session → Session
  hash_data p s =
      let n = to_hash p s in
      if ltb 0 n
      then record s {
        crc_ctx = hw_update h.crc32b h.crc32h h.crc32w s.crc_ctx (bytes_of p.payload 0 n);
        bytes_hashed = s.bytes_hashed + n;
      }
      else s

  unfoldable pub data_packet : DfuPacket → Session → Session
  data_packet p s =
      if p.len % 4 == 0
      then (if is_receiving s.state then ack (hash_data p (store_data p s)) else s)
      else refuse s

  -- The rest of the last sector.
  unfoldable pub pad_sector : Session → Session
  pad_sector s =
      let buf = λ (j : ℕ). if ltb j s.current_sector_counter then s.current_sector j else 0 in
      if s.unwritten_sector
      then record s {
        current_sector = buf;
        disk = (h.write_block (s.dfu_base_sector + s.sectors_written) buf s.disk).1;
      }
      else s

  -- The first sector of the image has the marker of the standard startup.
  unfoldable pub marker_ok : ℕ → Disk → Bool
  marker_ok slot d =
      let r = read_block h (slot_to_sector slot + 1) d in
      is_ok r.0 && (word_at r.1 dfu_app_marker_offset == dfu_app_magic)

  -- The new slot becomes active, on trial.
  unfoldable pub commit : ℕ → Session → Session
  commit slot s =
      let m = record s.meta { active_app_slot = slot; app_slot_trial = 1; trial_boot_count = 0 } in
      let w = write h m s.disk in
      ack (record s {
        meta = w.1;
        disk = w.2;
        flags = record s.flags { fw_crc_ok = 1 };
        state = dfu_done;
      })

  unfoldable pub finish_app : Session → Session
  finish_app s =
      let slot = slot_other s.meta.active_app_slot in
      if is_ok (validate_app h (slot_to_sector slot) s.disk)
      then (if marker_ok slot s.disk then commit slot s else refuse s)
      else refuse s

  unfoldable pub finish_packet : Session → Session
  finish_packet s =
      let p = pad_sector s in
      if finish s.crc_ctx == s.img_expected_crc
      then (if s.is_self_update then record (ack p) { restarted = true } else finish_app p)
      else refuse s

  -- `switch (packet.CMD)`.
  unfoldable pub handle : DfuPacket → Session → Session
  handle p s =
      if p.cmd == 2
      then start_image (slot_to_sector (slot_other s.meta.active_app_slot)) false p s
      else (if p.cmd == 3
          then start_image emmc_sector_bootloader true p s
          else (if p.cmd == 4
              then data_packet p s
              else (if p.cmd == 5 then finish_packet s else (if p.cmd == 6 then refuse s else s))))

-- ===== src/Telemetry/Reports.antt =====
-- The reports of source/telemetry/telemetry.c: the payload of each, the registry of mutexes, semaphores and queues, and
-- the publisher task. A name is its characters up to the NUL, none for NULL. telemetry_send and the reports hold
-- telemetry_lock around each packet, so a packet is one step.
use rpitos.Prelude.{
  ℕ, zero, suc, ◌+◌, ◌/◌, ◌%◌, ◌^◌, ◌==◌, ltb, if◌then◌else◌, update, List, [], ◌∷◌, ◌++◌, length,
  Option, none, some,
}
use rpitos.Status.{Run, done, ◌>>=◌}
use rpitos.Kernel.State.{max_cores}
use rpitos.Telemetry.{Line, send_framed}
use rpitos.Telemetry.Rings.{TickRing, report_tick_state, drain_ring, tick_ring_depth}

abbrev pub telemetry_name_max : ℕ
telemetry_name_max = 16

abbrev pub telemetry_max_sync_objects : ℕ
telemetry_max_sync_objects = 16

-- The upper byte first.
abbrev pub big_endian_16 : ℕ → List ℕ
big_endian_16 n = n / 256 % 256 ∷ n % 256 ∷ []

abbrev pub big_endian_32 : ℕ → List ℕ
big_endian_32 n = n / 16777216 % 256 ∷ n / 65536 % 256 ∷ n / 256 % 256 ∷ n % 256 ∷ []

unfoldable pub first_chars : ℕ → List ℕ → List ℕ
first_chars zero cs = []
first_chars (suc n) [] = []
first_chars (suc n) (c ∷ cs) = c ∷ first_chars n cs

unfoldable pub name_bytes : Option (List ℕ) → List ℕ
name_bytes none = []
name_bytes (some cs) = first_chars telemetry_name_max cs

abbrev pub task_created : ℕ → ℕ → ℕ → Option (List ℕ) → List ℕ
task_created task_id core_id priority name =
    big_endian_16 task_id ++ core_id % 256 ∷ priority ∷ name_bytes name

abbrev pub task_blocked : ℕ → ℕ → ℕ → ℕ → List ℕ
task_blocked task_id core_id sync_kind sync_id =
    big_endian_16 task_id ++ core_id % 256 ∷ sync_kind ∷ big_endian_16 sync_id

abbrev pub task_unblocked : ℕ → ℕ → List ℕ
task_unblocked task_id core_id = big_endian_16 task_id ++ core_id % 256 ∷ []

abbrev pub mutex_owner_changed : ℕ → ℕ → ℕ → ℕ → List ℕ
mutex_owner_changed sync_id has_owner owner_task_id owner_core_id =
    big_endian_16 sync_id ++ has_owner ∷ big_endian_16 owner_task_id ++ owner_core_id % 256 ∷ []

abbrev pub boot_stage_enter : ℕ → List ℕ
boot_stage_enter stage = stage ∷ 0 ∷ 0 ∷ 0 ∷ 0 ∷ []

abbrev pub boot_milestone : ℕ → ℕ → ℕ → List ℕ
boot_milestone id stage counter = id ∷ stage ∷ big_endian_32 counter

abbrev pub boot_info_image_header : ℕ → ℕ → ℕ → ℕ → ℕ → ℕ → List ℕ
boot_info_image_header stage version_num fw_length expected_crc actual_crc crc_ok =
    0 ∷ stage ∷ big_endian_32 version_num
    ++ big_endian_32 fw_length
    ++ big_endian_32 expected_crc
    ++ big_endian_32 actual_crc
    ++ crc_ok ∷ []

abbrev pub boot_info_slot_state : ℕ → ℕ → ℕ → ℕ → ℕ → ℕ → ℕ → List ℕ
boot_info_slot_state active trial trial_boots resets tolerance policy reason =
    1 ∷ active ∷ trial ∷ big_endian_32 trial_boots
    ++ big_endian_32 resets
    ++ big_endian_32 tolerance
    ++ policy ∷ reason ∷ []

abbrev pub boot_info_boot_flags : ℕ → ℕ → ℕ → List ℕ
boot_info_boot_flags reset_reason dfu_requested fw_crc_ok =
    2 ∷ reset_reason ∷ dfu_requested ∷ fw_crc_ok ∷ []

abbrev pub dfu_event : ℕ → ℕ → ℕ → List ℕ
dfu_event phase target extra = phase ∷ target ∷ big_endian_32 extra

pub record SyncEntry : Type 0 where
  pub kind : ℕ
  pub sync_id : ℕ
  pub parent_sync_id : ℕ
  pub name : List ℕ

abbrev pub sync_created : SyncEntry → List ℕ
sync_created e = e.kind ∷ big_endian_16 e.sync_id ++ big_endian_16 e.parent_sync_id ++ e.name

-- The line, the registry in the order of its slots, and the ring of each core.
pub record Telemetry : Type 0 where
  pub line : Line
  pub next_sync_id : ℕ
  pub sync_registry : List SyncEntry
  pub tick_rings : ℕ → TickRing

unfoldable pub report_tick : ℕ → ℕ → ℕ → Telemetry → Telemetry
report_tick core task_id state t =
    if ltb core max_cores
    then record t {
      tick_rings = update t.tick_rings core (
          report_tick_state (record { core_id = core % 256; task_id = task_id; state = state })
            (t.tick_rings core));
    }
    else t

module _ (crc32b crc32h crc32w : ℕ → ℕ → ℕ) where
  abbrev pub send : ℕ → List ℕ → Telemetry → Telemetry
  send type payload t = record t { line = send_framed crc32b crc32h crc32w type payload t.line }

  unfoldable pub register_sync : ℕ → ℕ → Option (List ℕ) → Telemetry → ℕ × Telemetry
  register_sync kind parent name t =
      let entry : SyncEntry = record {
        kind = kind;
        sync_id = t.next_sync_id;
        parent_sync_id = parent;
        name = name_bytes name;
      } in
      let kept =
        if ltb (length t.sync_registry) telemetry_max_sync_objects
        then t.sync_registry ++ entry ∷ []
        else t.sync_registry in
      (
        t.next_sync_id,
        send 9 (sync_created entry)
            (record t { next_sync_id = (t.next_sync_id + 1) % 2 ^ 16; sync_registry = kept }),
      )

  unfoldable pub send_all : List (List ℕ) → Telemetry → Telemetry
  send_all [] t = t
  send_all (p ∷ ps) t = send_all ps (send 2 p t)

  -- The rings of `n` cores, from core `c` on. A ring has at most eight records.
  unfoldable pub drain_rings : ℕ → ℕ → Telemetry → Run Telemetry
  drain_rings zero c t = done t
  drain_rings (suc n) c t = drain_ring (tick_ring_depth + 1) (t.tick_rings c) >>= λ x.
      drain_rings n (c + 1) (send_all x.0 (record t { tick_rings = update t.tick_rings c x.1 }))

  unfoldable pub drain_tick_rings : Telemetry → Run Telemetry
  drain_tick_rings t = drain_rings max_cores 0 t

  unfoldable pub rebroadcast : List SyncEntry → Telemetry → Run Telemetry
  rebroadcast [] t = done t
  rebroadcast (e ∷ es) t = drain_tick_rings (send 9 (sync_created e) t) >>= λ u. rebroadcast es u

  unfoldable pub rebroadcast_sync_roster : Telemetry → Run Telemetry
  rebroadcast_sync_roster t = rebroadcast t.sync_registry t

  -- A turn of the publisher's loop, with the counter of the heartbeats and that of the turns.
  unfoldable pub publish : ℕ → ℕ → Telemetry → Run (ℕ × ℕ × Telemetry)
  publish heartbeat loops t = drain_tick_rings t >>= λ u.
      let beats = loops % 100 == 0 in
      let v = if beats then send 0 (big_endian_32 heartbeat) u else u in
      (if loops % 2000 == 0 then rebroadcast_sync_roster v else done v) >>= λ w.
      done (if beats then (heartbeat + 1) % 2 ^ 32 else heartbeat, (loops + 1) % 2 ^ 32, w)

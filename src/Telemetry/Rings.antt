-- ===== src/Telemetry/Rings.antt =====
-- The rings of tick records of source/telemetry/telemetry.c: telemetry_report_tick_state and the loop of
-- telemetry_drain_tick_rings over one ring. What runs under the lock of a ring is one step.
pub mod Fifo
use rpitos.Prelude.{
  ℕ, zero, suc, ◌+◌, ◌-◌, ◌/◌, ◌%◌, ◌==◌, ltb, if◌then◌else◌, update, List, [], ◌∷◌,
}
use rpitos.Status.{Run, done, spin, fault}

abbrev pub tick_ring_depth : ℕ
tick_ring_depth = 8

pub record TickRecord : Type 0 where
  pub core_id : ℕ
  pub task_id : ℕ
  pub state : ℕ

pub record TickRing : Type 0 where
  pub records : ℕ → TickRecord
  pub head : ℕ
  pub tail : ℕ
  pub count : ℕ
  pub overflow_count : ℕ

unfoldable pub report_tick_state : TickRecord → TickRing → TickRing
report_tick_state v r =
    if r.count == tick_ring_depth
    then record r { overflow_count = (r.overflow_count + 1) % 256 }
    else record r {
      records = update r.records r.head v;
      head = (r.head + 1) % tick_ring_depth;
      count = r.count + 1;
    }

-- The payload of a PKT_TICK_STATE.
abbrev pub tick_payload : TickRecord → ℕ → List ℕ
tick_payload v overflow =
    v.core_id ∷ v.task_id / 256 % 256 ∷ v.task_id % 256 ∷ v.state ∷ overflow ∷ []

-- The ring behind a record that is taken out.
unfoldable pub taken : TickRing → TickRing
taken r = record r { tail = (r.tail + 1) % tick_ring_depth; count = r.count - 1 }

abbrev pub and_then : List ℕ → Run (List (List ℕ) × TickRing) → Run (List (List ℕ) × TickRing)
and_then p (done (ps, r)) = done (p ∷ ps, r)
and_then p fault = fault
and_then p spin = spin

-- The payloads that are sent for a ring, in turns.
unfoldable pub drain_ring : ℕ → TickRing → Run (List (List ℕ) × TickRing)
drain_ring zero r = spin
drain_ring (suc k) r =
    let rest = drain_ring k (taken r) in
    if ltb 0 r.count
    then and_then (tick_payload (r.records r.tail) r.overflow_count) rest
    else done ([], r)

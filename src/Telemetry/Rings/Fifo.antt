-- ===== src/Telemetry/Rings/Fifo.antt =====
-- A ring is a first-in first-out list of at most eight records.
use rpitos.Prelude.{
  ℕ, zero, suc, ◌+◌, ◌-◌, ◌%◌, ◌<◌, ◌≤◌, ◌≡◌, ◌⊎◌, true, false, ◌==◌, ltb, update, List, [], ◌∷◌,
  ◌++◌, arith, refl, ap, ◌∙◌, Bool-cases, inl, inr,
}
use rpitos.Status.{Run, done}
use rpitos.Telemetry.Rings.{
  TickRecord, TickRing, report_tick_state, tick_payload, taken, and_then, drain_ring,
}

pub record IsRing (r : TickRing) : Type 0 where
  pub room : r.count ≤ 8
  pub tail_in : r.tail < 8
  pub ends : r.head ≡ (r.tail + r.count) % 8

-- The `n` records from slot `j` on.
abbrev pub records_from : (ℕ → TickRecord) → ℕ → ℕ → List TickRecord
records_from f j zero = []
records_from f j (suc n) = f j ∷ records_from f ((j + 1) % 8) n

abbrev pub contents : TickRing → List TickRecord
contents r = records_from r.records r.tail r.count

records_from-update :
    (f : ℕ → TickRecord) (v : TickRecord) (h n j : ℕ)
    → j < 8
    → n < 8
    → h ≡ (j + n) % 8
    → records_from (update f h v) j (suc n) ≡ records_from f j n ++ v ∷ []
records_from-update f v h zero j p q e = let here : (j == h) ≡ true = ground arith in rw here refl
records_from-update f v h (suc n) j p q e =
    let other : (j == h) ≡ false = ground arith in
    rw other (
      ap (λ xs. f j ∷ xs)
        (records_from-update f v h n ((j + 1) % 8) (omega arith) (omega arith) (omega arith)))

abbrev pub payloads : ℕ → List TickRecord → List (List ℕ)
payloads overflow [] = []
payloads overflow (v ∷ vs) = tick_payload v overflow ∷ payloads overflow vs

turn_end : (t c h : ℕ) → 0 < c → h ≡ (t + c) % 8 → h ≡ ((t + 1) % 8 + (c - 1)) % 8
turn_end t c h p e = omega arith

turn_head : (t c h : ℕ) → h ≡ (t + c) % 8 → (h + 1) % 8 ≡ (t + (c + 1)) % 8
turn_head t c h e = omega arith

taken-IsRing : (r : TickRing) → ltb 0 r.count ≡ true → IsRing r → IsRing (taken r)
unfolding taken
taken-IsRing r e i = record {
  room = omega (arith, i.room);
  tail_in = omega arith;
  ends = turn_end r.tail r.count r.head (ground arith) i.ends;
}

-- A ring with nothing in it, and the loop's end there.
record IsDrained (r : TickRing) (ps : List (List ℕ)) (x : Run (List (List ℕ) × TickRing))
    : Type 0 where
  ring : TickRing
  is : x ≡ done (ps, ring)
  empty : ring.count ≡ 0
  well_formed : IsRing ring

drain_ring-IsDrained :
    (k n : ℕ) (r : TickRing)
    → n < k
    → r.count ≡ n
    → IsRing r
    → IsDrained r (payloads r.overflow_count (records_from r.records r.tail n)) (drain_ring k r)
unfolding drain_ring taken
drain_ring-IsDrained zero n r p e i = absurd (omega arith)
drain_ring-IsDrained (suc k) zero r p e i =
    let none_left : ltb 0 r.count ≡ false = ground arith in
    record { ring = r; is = rw none_left refl; empty = e; well_formed = i }
drain_ring-IsDrained (suc k) (suc n) r p e i =
    let some_left : ltb 0 r.count ≡ true = ground arith in
    let d =
      drain_ring-IsDrained k n (taken r) (omega arith) (omega (arith, e))
        (taken-IsRing r some_left i) in
    record {
      ring = d.ring;
      is = rw some_left (ap (and_then (tick_payload (r.records r.tail) r.overflow_count)) d.is);
      empty = d.empty;
      well_formed = d.well_formed;
    }

-- What telemetry_report_tick_state does to the contents, on both branches.
abbrev pub Reported : TickRecord → TickRing → Type 0
Reported v r =
    ((r.count < 8)
      × (contents (report_tick_state v r) ≡ contents r ++ v ∷ [])
      × ((report_tick_state v r).overflow_count ≡ r.overflow_count))
    ⊎ ((r.count ≡ 8)
        × (contents (report_tick_state v r) ≡ contents r)
        × ((report_tick_state v r).overflow_count ≡ (r.overflow_count + 1) % 256))

report_tick_state-IsRing :
    (v : TickRecord) (r : TickRing) → IsRing r → IsRing (report_tick_state v r) × Reported v r
unfolding report_tick_state
report_tick_state-IsRing v r i = elim (Bool-cases (r.count == 8)) [
  | inl e ↦
      simp e (
        record { room = i.room; tail_in = i.tail_in; ends = i.ends },
        inr (ground arith, refl, refl),
      )
  | inr e ↦
      let c : r.count < 8 = ground (arith, i.room) in
      let more : r.count + 1 ≡ suc r.count = omega arith in
      simp e (
        record {
          room = omega (arith, c);
          tail_in = i.tail_in;
          ends = turn_head r.tail r.count r.head i.ends;
        },
        inl (
          c,
          ap (records_from (update r.records r.head v) r.tail) more
              ∙ records_from-update r.records v r.head r.count r.tail i.tail_in c i.ends,
          refl,
        ),
      )
]

-- A well-formed ring, with enough turns for its loop. A record that is reported goes behind the others, or, where
-- the ring has eight, is dropped and counted; the ring stays well formed. Draining the ring,
-- with no report meanwhile, ends, sends a packet for each record, the oldest first, and leaves the ring empty
-- and well formed.
pub tick_ring_lem :
    (v : TickRecord) (r : TickRing) (k : ℕ)
    → IsRing r
    → r.count < k
    → IsRing (report_tick_state v r)
      × Reported v r
      × ((u : TickRing) × (drain_ring k r ≡ done (payloads r.overflow_count (contents r), u))
          × (u.count ≡ 0)
          × IsRing u)
tick_ring_lem v r k i p =
    let (w, e) = report_tick_state-IsRing v r i in
    let d = drain_ring-IsDrained k r.count r p refl i in
    (w, e, (d.ring, d.is, d.empty, d.well_formed))

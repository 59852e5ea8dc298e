-- ===== src/Boot/Dfu/Loop/Finish.antt =====
-- What dfu_receive comes to, by the boot metadata of the session.
use rpitos.Prelude.{
  ℕ, zero, suc, ◌+◌, ◌%◌, ◌<◌, ◌≡◌, ◌≢◌, Bool, true, false, ◌==◌, ltb, leb, List, length, Option,
  none, some, arith, refl, sym, ap, ◌∙◌, Bool-cases, inl, inr,
}
use rpitos.Status.{e_ok, e_timed_out, e_aborted, is_ok}
use rpitos.Crc.{finish}
use rpitos.Boot.Disk.{Disk, Machine, slot_to_sector, slot_other, emmc_sector_bootloader}
use rpitos.Boot.Flags.{BootFlags}
use rpitos.Boot.Meta.{WdtMeta, write, seal}
use rpitos.Boot.App.{validate_app}
use rpitos.Boot.Trigger.{reset}
use rpitos.Boot.Dfu.{
  Session, DfuState, dfu_start, dfu_receive_data, dfu_done, dfu_abort, dfu_init, handle, ack,
  refuse, start_image, store_data, to_hash, hash_data, data_packet, is_receiving, pad_sector,
  marker_ok, commit, finish_app, finish_packet,
}
use rpitos.Boot.Dfu.Packet.{
  Event, DfuPacket, at_start, Outcome, received, gave_up, overran, waits, out_of_fuel,
  packet_receive,
}
use rpitos.Boot.Dfu.Packet.Fuel.{packet_receive-ends}
use rpitos.Boot.Dfu.Loop.{
  Result, returns, resets, stuck, overruns, starved, wait_trigger, after_packet, on_packet,
  receive_loop, triggered, dfu_receive,
}
use rpitos.Boot.Dfu.Loop.Ends.{LeftShorter, loop-LeftShorter}

abbrev is_done : DfuState → Bool
is_done dfu_done = true
is_done _ = false

-- The other slot is active, on trial with no boot counted.
pub record IsNew (m : WdtMeta) (s : Session) : Type 0 where
  pub app : s.is_self_update ≡ false
  pub active : s.meta.active_app_slot ≡ slot_other m.active_app_slot
  pub trial : s.meta.app_slot_trial ≡ 1
  pub boots : s.meta.trial_boot_count ≡ 0

-- E_OK for a new slot; the metadata as they were where the call fails, hangs, overruns DATA, or resets the
-- device after a self-update; no other status.
abbrev pub IsOutcome : WdtMeta → Result → Type 0
IsOutcome m (returns e_ok s es) = IsNew m s
IsOutcome m (returns e_aborted s es) = (s.meta ≡ m) × (s.state ≡ dfu_abort)
IsOutcome m (returns e_timed_out s es) = s.meta ≡ m
IsOutcome m (returns e s es) = ⊥
IsOutcome m (resets s) = (s.meta ≡ m) × (s.is_self_update ≡ true)
IsOutcome m (stuck s) = s.meta ≡ m
IsOutcome m (overruns s) = s.meta ≡ m
IsOutcome m starved = ⊥

-- Before a packet.
record IsRunning (m : WdtMeta) (s : Session) : Type 0 where
  meta : s.meta ≡ m
  restarted : s.restarted ≡ false
  going : is_done s.state ≡ false

-- After a packet, by what the loop looks at.
abbrev Leaves : WdtMeta → Bool → DfuState → Session → Type 0
Leaves m true d t = (t.meta ≡ m) × (t.is_self_update ≡ true)
Leaves m false dfu_done t = IsNew m t
Leaves m false dfu_abort t = (t.meta ≡ m) × (t.state ≡ dfu_abort)
Leaves m false dfu_start t = IsRunning m t
Leaves m false dfu_receive_data t = IsRunning m t

abbrev Left : WdtMeta → Session → Type 0
Left m t = Leaves m t.restarted t.state t

running_at :
    (m : WdtMeta) (t : Session) (b : Bool) (d : DfuState)
    → b ≡ false
    → d ≡ t.state
    → is_done d ≡ false
    → IsRunning m t
    → Leaves m b d t
running_at m t true d e1 e2 e3 i = absurd cc
running_at m t false dfu_done e1 e2 e3 i = absurd cc
running_at m t false dfu_abort e1 e2 e3 i = (i.meta, sym e2)
running_at m t false dfu_start e1 e2 e3 i = i
running_at m t false dfu_receive_data e1 e2 e3 i = i

running : (m : WdtMeta) (t : Session) → IsRunning m t → Left m t
running m t i = running_at m t t.restarted t.state i.restarted refl i.going i

module _ (h : Machine) (m : WdtMeta) where
  refuse-IsRunning : (s : Session) → IsRunning m s → IsRunning m (refuse s)
  refuse-IsRunning s i = record { meta = i.meta; restarted = i.restarted; going = refl }

  start_image-IsRunning :
      (base : ℕ) (b : Bool) (p : DfuPacket) (s : Session)
      → IsRunning m s
      → IsRunning m (start_image h base b p s)
  unfolding start_image
  start_image-IsRunning base b p s i = elim (Bool-cases s.started) [
    | inl e ↦ rw e (record { meta = i.meta; restarted = i.restarted; going = refl })
    | inr e ↦ elim (Bool-cases (p.len == 12)) [
      | inl k ↦ rw (e, k) (record { meta = i.meta; restarted = i.restarted; going = refl })
      | inr k ↦ rw (e, k) (record { meta = i.meta; restarted = i.restarted; going = refl })
    ]
  ]

  store_data-IsRunning :
      (p : DfuPacket) (s : Session) → IsRunning m s → IsRunning m (store_data h p s)
  unfolding store_data
  store_data-IsRunning p s i = elim (Bool-cases (leb 512 (s.current_sector_counter + p.len))) [
    | inl e ↦ rw e (record { meta = i.meta; restarted = i.restarted; going = i.going })
    | inr e ↦ rw e (record { meta = i.meta; restarted = i.restarted; going = i.going })
  ]

  hash_data-IsRunning :
      (p : DfuPacket) (s : Session) → IsRunning m s → IsRunning m (hash_data h p s)
  unfolding hash_data
  hash_data-IsRunning p s i = elim (Bool-cases (ltb 0 (to_hash h p s))) [
    | inl e ↦ rw e (record { meta = i.meta; restarted = i.restarted; going = i.going })
    | inr e ↦ rw e i
  ]

  data_packet-IsRunning :
      (p : DfuPacket) (s : Session) → IsRunning m s → IsRunning m (data_packet h p s)
  unfolding data_packet
  data_packet-IsRunning p s i =
      let both = hash_data-IsRunning p (store_data h p s) (store_data-IsRunning p s i) in
      elim (Bool-cases (p.len % 4 == 0)) [
        | inl e ↦ elim (Bool-cases (is_receiving s.state)) [
          | inl k ↦
              rw (e, k)
                (record { meta = both.meta; restarted = both.restarted; going = both.going })
          | inr k ↦ rw (e, k) i
        ]
        | inr e ↦ rw e (record { meta = i.meta; restarted = i.restarted; going = refl })
      ]

  -- The rest of the last sector changes neither.
  record IsPadded (s t : Session) : Type 0 where
    running : IsRunning m t
    app : t.is_self_update ≡ s.is_self_update

  pad_sector-IsPadded : (s : Session) → IsRunning m s → IsPadded s (pad_sector h s)
  unfolding pad_sector
  pad_sector-IsPadded s i = elim (Bool-cases s.unwritten_sector) [
    | inl e ↦ rw e (record {
      running = record { meta = i.meta; restarted = i.restarted; going = i.going };
      app = refl;
    })
    | inr e ↦ rw e (record {
      running = record { meta = i.meta; restarted = i.restarted; going = i.going };
      app = refl;
    })
  ]

  commit-Left :
      (t : Session)
      → IsRunning m t
      → t.is_self_update ≡ false
      → Left m (commit h (slot_other t.meta.active_app_slot) t)
  unfolding commit write seal
  commit-Left t i a = rw i.restarted (record {
    app = a;
    active = ap (λ x. slot_other x.active_app_slot) i.meta;
    trial = refl;
    boots = refl;
  })

  finish_app-Left :
      (t : Session) → IsRunning m t → t.is_self_update ≡ false → Left m (finish_app h t)
  unfolding finish_app
  finish_app-Left t i a =
      let slot = slot_other t.meta.active_app_slot in
      let no = running m (refuse t) (refuse-IsRunning t i) in
      elim (Bool-cases (is_ok (validate_app h (slot_to_sector slot) t.disk))) [
        | inl v ↦ elim (Bool-cases (marker_ok h slot t.disk)) [
          | inl k ↦ rw (v, k) (commit-Left t i a)
          | inr k ↦ rw (v, k) no
        ]
        | inr v ↦ rw v no
      ]

  finish_packet-Left : (s : Session) → IsRunning m s → Left m (finish_packet h s)
  unfolding finish_packet
  finish_packet-Left s i =
      let p = pad_sector-IsPadded s i in
      elim (Bool-cases (finish s.crc_ctx == s.img_expected_crc)) [
        | inl c ↦ elim (Bool-cases s.is_self_update) [
          | inl u ↦ rw c (simp u (p.running.meta, p.app ∙ u))
          | inr u ↦ rw c (simp u (finish_app-Left (pad_sector h s) p.running (p.app ∙ u)))
        ]
        | inr c ↦ rw c (running m (refuse s) (refuse-IsRunning s i))
      ]

  handle-Left : (p : DfuPacket) (s : Session) → IsRunning m s → Left m (handle h p s)
  unfolding handle
  handle-Left p s i =
      let app = slot_to_sector (slot_other s.meta.active_app_slot) in
      elim (Bool-cases (p.cmd == 2)) [
        | inl e ↦ rw e (running m _ (start_image-IsRunning app false p s i))
        | inr e2 ↦ elim (Bool-cases (p.cmd == 3)) [
          | inl e ↦
              rw (e2, e) (running m _ (start_image-IsRunning emmc_sector_bootloader true p s i))
          | inr e3 ↦ elim (Bool-cases (p.cmd == 4)) [
            | inl e ↦ rw (e2, e3, e) (running m _ (data_packet-IsRunning p s i))
            | inr e4 ↦ elim (Bool-cases (p.cmd == 5)) [
              | inl e ↦ rw (e2, e3, e4, e) (finish_packet-Left s i)
              | inr e5 ↦ elim (Bool-cases (p.cmd == 6)) [
                | inl e ↦ rw (e2, e3, e4, e5, e) (running m (refuse s) (refuse-IsRunning s i))
                | inr e ↦ rw (e2, e3, e4, e5, e) (running m s i)
              ]
            ]
          ]
        ]
      ]

  after_packet-IsOutcome :
      (f : Session → List Event → Result) (b : Bool) (d : DfuState) (s : Session) (es : List Event)
      → Leaves m b d s
      → (IsRunning m s → IsOutcome m (f s es))
      → IsOutcome m (after_packet f b d s es)
  unfolding after_packet
  after_packet-IsOutcome f true d s es l e = l
  after_packet-IsOutcome f false dfu_done s es l e = l
  after_packet-IsOutcome f false dfu_abort s es l e = l
  after_packet-IsOutcome f false dfu_start s es l e = e l
  after_packet-IsOutcome f false dfu_receive_data s es l e = e l

  on_packet-IsOutcome :
      (k : ℕ) (f : Session → List Event → Result) (s : Session) (o : Outcome)
      → IsRunning m s
      → LeftShorter k o
      → o ≢ out_of_fuel
      → ((t : Session) (es : List Event) → length es < k → IsRunning m t → IsOutcome m (f t es))
      → IsOutcome m (on_packet h f s o)
  unfolding on_packet
  on_packet-IsOutcome k f s (received p es) i w z e =
      let t = handle h p s in
      after_packet-IsOutcome f t.restarted t.state t es (handle-Left p s i) (e t es w)
  on_packet-IsOutcome k f s (gave_up es) i w z e = i.meta
  on_packet-IsOutcome k f s overran i w z e = i.meta
  on_packet-IsOutcome k f s waits i w z e = i.meta
  on_packet-IsOutcome k f s out_of_fuel i w z e = z refl

  receive_loop-IsOutcome :
      (n : ℕ) (raw : DfuPacket) (s : Session) (es : List Event)
      → IsRunning m s
      → length es < n
      → IsOutcome m (receive_loop h n raw s es)
  unfolding receive_loop
  receive_loop-IsOutcome zero raw s es i e = absurd (omega arith)
  receive_loop-IsOutcome (suc n) raw s es i e =
      on_packet-IsOutcome (length es) (receive_loop h n raw) s (packet_receive raw es) i
        (loop-LeftShorter (suc (length es)) at_start raw es) (packet_receive-ends raw es)
        (λ t fs l j. receive_loop-IsOutcome n raw t fs j (omega arith))

  triggered-IsOutcome :
      (raw : DfuPacket) (s : Session) (o : Option (List Event))
      → IsRunning m s
      → IsOutcome m (triggered h raw s o)
  unfolding triggered
  triggered-IsOutcome raw s none i = i.meta
  triggered-IsOutcome raw s (some es) i =
      receive_loop-IsOutcome (suc (length es)) raw (ack s) es
        (record { meta = i.meta; restarted = i.restarted; going = i.going }) (omega arith)

-- On any device, with any bytes and silences on the line and whatever the stack and the statics hold,
-- dfu_receive comes to one of these: it returns E_OK, and in wdt_meta the slot that was not active is active, on
-- trial with no boot counted; it returns E_ABORTED with the session aborted, or E_TIMED_OUT, with wdt_meta as it
-- was; it resets the device at the end of a self-update, with wdt_meta as it was; or, with wdt_meta as it was, it
-- waits for a byte that does not come, or overruns DATA. Its loops take no more turns than the line brings
-- events, and one.
pub dfu_receive-IsOutcome :
    (h : Machine) (raw : DfuPacket) (crc ctx : ℕ) (buf : ℕ → ℕ) (d : Disk) (m : WdtMeta)
    (f : BootFlags) (es : List Event)
    → IsOutcome m (dfu_receive h raw crc ctx buf d m f es)
unfolding dfu_init
dfu_receive-IsOutcome h raw crc ctx buf d m f es =
    triggered-IsOutcome h m raw (dfu_init crc ctx buf d m f) (wait_trigger reset es)
      (record { meta = refl; restarted = refl; going = refl })

-- ===== src/Boot/Dfu/Commit.antt =====
-- When a new image becomes the active one.
use rpitos.Prelude.{
  ℕ, ◌+◌, ◌<◌, ◌^◌, ◌≢◌, ltb, leb, ◌%◌, ◌≡◌, ◌⊎◌, refl, sym, ap, ◌∙◌, arith, true, false, Bool,
  ◌==◌, Bool-cases, inl, inr,
}
use mathlib.Core.Path.{subst}
use rpitos.Status.{is_ok, e_ok}
use rpitos.Crc.{finish}
use rpitos.Boot.Disk.{
  Disk, Machine, IsWorking, slot_to_sector, slot_other, emmc_sector_bootloader,
  emmc_sector_metadata, emmc_firmware_floor,
}
use rpitos.Boot.Meta.{WdtMeta, read, write, seal}
use rpitos.Boot.Meta.Store.{IsWords, read-written, write-Holds}
use rpitos.Boot.App.{validate_app}
use rpitos.Boot.Dfu.Packet.{DfuPacket}
use rpitos.Boot.Dfu.{
  Session, handle, finish_packet, finish_app, pad_sector, marker_ok, commit, dfu_done, start_image,
  data_packet, store_data, hash_data, to_hash, is_receiving,
}

-- The fields of the metadata for a new slot fit in their words.
slot-IsWords :
    (slot : ℕ) (m : WdtMeta)
    → slot < 2 ^ 32
    → IsWords m
    → IsWords (record m { active_app_slot = slot; app_slot_trial = 1; trial_boot_count = 0 })
slot-IsWords slot m p v = record {
  count = v.count;
  tolerance = v.tolerance;
  policy = v.policy;
  reason = v.reason;
  slot = p;
  trial = omega arith;
  boots = omega arith;
}

slot_other-word : (s slot : ℕ) → slot_other s ≡ slot → slot < 2 ^ 32
slot_other-word s slot e = ground arith

-- The metadata in memory, and the bytes of its sector, are as they were.
pub record IsKept (s t : Session) : Type 0 where
  pub meta : t.meta ≡ s.meta
  pub sector : (j : ℕ) → j < 512 → t.disk emmc_sector_metadata j ≡ s.disk emmc_sector_metadata j

IsKept-trans : (s t u : Session) → IsKept s t → IsKept t u → IsKept s u
IsKept-trans s t u a b = record {
  meta = b.meta ∙ a.meta;
  sector = λ j p. b.sector j p ∙ a.sector j p;
}

module _ (h : Machine) (w : IsWorking h) where
  -- What holds where a slot was made active.
  pub record IsCommitted (slot : ℕ) (s t : Session) : Type 0 where
    pub state : t.state ≡ dfu_done
    pub transfer : finish s.crc_ctx ≡ s.img_expected_crc
    pub image : is_ok (validate_app h (slot_to_sector slot) (pad_sector h s).disk) ≡ true
    pub marker : marker_ok h slot (pad_sector h s).disk ≡ true
    pub active : t.meta.active_app_slot ≡ slot
    pub trial : t.meta.app_slot_trial ≡ 1
    pub boots : t.meta.trial_boot_count ≡ 0
    pub stored : (m2 : WdtMeta) → read h m2 t.disk ≡ (e_ok, t.meta)

  -- A sector other than the one of the metadata is written.
  write-kept :
      (a : ℕ) (b : ℕ → ℕ) (d : Disk) (j : ℕ)
      → a ≢ emmc_sector_metadata
      → j < 512
      → (h.write_block a b d).1 emmc_sector_metadata j ≡ d emmc_sector_metadata j
  write-kept a b d j other p = elim (Bool-cases (ltb a emmc_firmware_floor)) [
    | inl e ↦ ap (λ r. r.1 emmc_sector_metadata j) (w.floor a b d (ground arith))
    | inr e ↦
        let n : (emmc_sector_metadata == a) ≡ false = ground (arith, other) in
        w.sector a b d emmc_sector_metadata j (ground arith) p ∙ rw n refl
  ]

  pad_sector-IsKept :
      (s : Session)
      → s.dfu_base_sector + s.sectors_written ≢ emmc_sector_metadata
      → IsKept s (pad_sector h s)
  unfolding pad_sector
  pad_sector-IsKept s other = elim (Bool-cases s.unwritten_sector) [
    | inl e ↦ rw e (record { meta = refl; sector = λ j p. write-kept _ _ s.disk j other p })
    | inr e ↦ rw e (record { meta = refl; sector = λ j p. refl })
  ]

  pad_sector-meta : (s : Session) → (pad_sector h s).meta ≡ s.meta
  unfolding pad_sector
  pad_sector-meta s = elim (Bool-cases s.unwritten_sector) [ inl e ↦ rw e refl | inr e ↦ rw e refl ]

  finish_app-commit :
      (t : Session) (slot : ℕ)
      → slot_other t.meta.active_app_slot ≡ slot
      → is_ok (validate_app h (slot_to_sector slot) t.disk) ≡ true
      → marker_ok h slot t.disk ≡ true
      → finish_app h t ≡ commit h slot t
  unfolding finish_app
  finish_app-commit t slot e v k = rw (e, v, k) refl

  finish_app-cases :
      (t : Session)
      → IsKept t (finish_app h t)
        ⊎ ((is_ok (validate_app h (slot_to_sector (slot_other t.meta.active_app_slot)) t.disk)
              ≡ true)
            × (marker_ok h (slot_other t.meta.active_app_slot) t.disk ≡ true))
  unfolding finish_app
  finish_app-cases t =
      let slot = slot_other t.meta.active_app_slot in
      elim (Bool-cases (is_ok (validate_app h (slot_to_sector slot) t.disk))) [
        | inl v ↦ elim (Bool-cases (marker_ok h slot t.disk)) [
          | inl k ↦ inr (v, k)
          | inr k ↦ inl (rw (v, k) (record { meta = refl; sector = λ j p. refl }))
        ]
        | inr v ↦ inl (rw v (record { meta = refl; sector = λ j p. refl }))
      ]

  commit-IsCommitted :
      (slot : ℕ) (s : Session)
      → slot < 2 ^ 32
      → IsWords (pad_sector h s).meta
      → finish s.crc_ctx ≡ s.img_expected_crc
      → is_ok (validate_app h (slot_to_sector slot) (pad_sector h s).disk) ≡ true
      → marker_ok h slot (pad_sector h s).disk ≡ true
      → IsCommitted slot s (commit h slot (pad_sector h s))
  unfolding commit write seal
  commit-IsCommitted slot s b q c v k = record {
    state = refl;
    transfer = c;
    image = v;
    marker = k;
    active = refl;
    trial = refl;
    boots = refl;
    stored = λ m2.
        let m = record (pad_sector h s).meta {
          active_app_slot = slot;
          app_slot_trial = 1;
          trial_boot_count = 0;
        } in
        read-written h m m2 (write h m (pad_sector h s).disk).2 w
          (slot-IsWords slot (pad_sector h s).meta b q) (write-Holds h m (pad_sector h s).disk w);
  }

  pub padded-IsCommitted :
      (slot : ℕ) (s : Session)
      → IsWords s.meta
      → finish s.crc_ctx ≡ s.img_expected_crc
      → slot_other s.meta.active_app_slot ≡ slot
      → is_ok (validate_app h (slot_to_sector slot) (pad_sector h s).disk) ≡ true
      → marker_ok h slot (pad_sector h s).disk ≡ true
      → IsCommitted slot s (finish_app h (pad_sector h s))
  padded-IsCommitted slot s q c e v k =
      let m : slot_other (pad_sector h s).meta.active_app_slot ≡ slot =
        ap (λ x. slot_other x.active_app_slot) (pad_sector-meta s) ∙ e in
      subst (IsCommitted slot s) (sym (finish_app-commit (pad_sector h s) slot m v k)) (
        commit-IsCommitted slot s (slot_other-word s.meta.active_app_slot slot e)
          (subst IsWords (sym (pad_sector-meta s)) q) c v k)

  finish_app-judged :
      (s : Session)
      → IsWords s.meta
      → s.dfu_base_sector + s.sectors_written ≢ emmc_sector_metadata
      → finish s.crc_ctx ≡ s.img_expected_crc
      → IsKept s (finish_app h (pad_sector h s))
        ⊎ IsCommitted (slot_other s.meta.active_app_slot) s (finish_app h (pad_sector h s))
  finish_app-judged s q other c =
      let slot = slot_other s.meta.active_app_slot in
      let same : slot_other (pad_sector h s).meta.active_app_slot ≡ slot =
        ap (λ x. slot_other x.active_app_slot) (pad_sector-meta s) in
      let d = (pad_sector h s).disk in
      elim (finish_app-cases (pad_sector h s)) [
        | inl e ↦ inl (IsKept-trans s (pad_sector h s) _ (pad_sector-IsKept s other) e)
        | inr (v, k) ↦ inr (
            padded-IsCommitted slot s q c refl
              (subst (λ x. is_ok (validate_app h (slot_to_sector x) d) ≡ true) same v)
              (subst (λ x. marker_ok h x d ≡ true) same k))
      ]

  finish_packet-cases :
      (s : Session)
      → IsWords s.meta
      → s.dfu_base_sector + s.sectors_written ≢ emmc_sector_metadata
      → IsKept s (finish_packet h s)
        ⊎ IsCommitted (slot_other s.meta.active_app_slot) s (finish_packet h s)
  unfolding finish_packet
  finish_packet-cases s q other =
      let kept = pad_sector-IsKept s other in
      elim (Bool-cases (finish s.crc_ctx == s.img_expected_crc)) [
        | inl c ↦ elim (Bool-cases s.is_self_update) [
          | inl u ↦ inl (rw c (simp u (record { meta = kept.meta; sector = kept.sector })))
          | inr u ↦ rw c (simp u (finish_app-judged s q other (ground arith)))
        ]
        | inr c ↦ inl (rw c (record { meta = refl; sector = λ j p. refl }))
      ]

  start_image-IsKept :
      (base : ℕ) (b : Bool) (p : DfuPacket) (s : Session)
      → base ≢ emmc_sector_metadata
      → IsKept s (start_image h base b p s)
  unfolding start_image
  start_image-IsKept base b p s other = elim (Bool-cases s.started) [
    | inl e ↦ rw e (record { meta = refl; sector = λ j q. refl })
    | inr e ↦ elim (Bool-cases (p.len == 12)) [
      | inl k ↦
          rw (e, k) (record { meta = refl; sector = λ j q. write-kept base _ s.disk j other q })
      | inr k ↦ rw (e, k) (record { meta = refl; sector = λ j q. refl })
    ]
  ]

  store_data-IsKept :
      (p : DfuPacket) (s : Session)
      → s.dfu_base_sector + s.sectors_written ≢ emmc_sector_metadata
      → IsKept s (store_data h p s)
  unfolding store_data
  store_data-IsKept p s other = elim (Bool-cases (leb 512 (s.current_sector_counter + p.len))) [
    | inl t ↦ rw t (record { meta = refl; sector = λ j q. write-kept _ _ s.disk j other q })
    | inr t ↦ rw t (record { meta = refl; sector = λ j q. refl })
  ]

  hash_data-IsKept : (p : DfuPacket) (s : Session) → IsKept s (hash_data h p s)
  unfolding hash_data
  hash_data-IsKept p s = elim (Bool-cases (ltb 0 (to_hash h p s))) [
    | inl t ↦ rw t (record { meta = refl; sector = λ j q. refl })
    | inr t ↦ rw t (record { meta = refl; sector = λ j q. refl })
  ]

  data_packet-IsKept :
      (p : DfuPacket) (s : Session)
      → s.dfu_base_sector + s.sectors_written ≢ emmc_sector_metadata
      → IsKept s (data_packet h p s)
  unfolding data_packet
  data_packet-IsKept p s other = elim (Bool-cases (p.len % 4 == 0)) [
    | inl e ↦ elim (Bool-cases (is_receiving s.state)) [
      | inl k ↦
          let both =
            IsKept-trans s (store_data h p s) _ (store_data-IsKept p s other)
              (hash_data-IsKept p (store_data h p s)) in
          rw (e, k) (record { meta = both.meta; sector = both.sector })
      | inr k ↦ rw (e, k) (record { meta = refl; sector = λ j q. refl })
    ]
    | inr e ↦ rw e (record { meta = refl; sector = λ j q. refl })
  ]

  at_five :
      (k : ℕ) (s : Session)
      → (k == 5) ≡ true
      → IsKept s (finish_packet h s)
        ⊎ IsCommitted (slot_other s.meta.active_app_slot) s (finish_packet h s)
      → IsKept s (finish_packet h s)
        ⊎ ((k ≡ 5) × IsCommitted (slot_other s.meta.active_app_slot) s (finish_packet h s))
  at_five k s e (inl a) = inl a
  at_five k s e (inr a) = inr (ground arith, a)

  app_sector : (slot : ℕ) → slot_to_sector slot ≢ emmc_sector_metadata
  app_sector slot = ground arith

  boot_sector : emmc_sector_bootloader ≢ emmc_sector_metadata
  boot_sector = omega arith

  -- On a device without faults, any packet in any session with metadata of words, where the sector that the
  -- session writes next is not the metadata sector: the metadata in memory and all bytes of the metadata sector
  -- stay as they were, or the packet is CMD_FINISH and the slot that was not active is made active, on trial
  -- with no boot counted, in memory and as wdt_meta_read reads it from the eMMC afterwards, after the checksum
  -- of the transfer was the one that CMD_START announced, boot_validate_app accepted the slot on the disk, and
  -- the first sector of the image read back with the marker of the standard startup.
  pub handle-IsCommitted :
      (p : DfuPacket) (s : Session)
      → IsWords s.meta
      → s.dfu_base_sector + s.sectors_written ≢ emmc_sector_metadata
      → IsKept s (handle h p s)
        ⊎ ((p.cmd ≡ 5) × IsCommitted (slot_other s.meta.active_app_slot) s (handle h p s))
  unfolding handle
  handle-IsCommitted p s q other =
      let app = slot_to_sector (slot_other s.meta.active_app_slot) in
      elim (Bool-cases (p.cmd == 2)) [
        | inl e ↦ inl (
            rw e
              (start_image-IsKept app false p s (app_sector (slot_other s.meta.active_app_slot))))
        | inr e2 ↦ elim (Bool-cases (p.cmd == 3)) [
          | inl e ↦
              inl (rw (e2, e) (start_image-IsKept emmc_sector_bootloader true p s boot_sector))
          | inr e3 ↦ elim (Bool-cases (p.cmd == 4)) [
            | inl e ↦ inl (rw (e2, e3, e) (data_packet-IsKept p s other))
            | inr e4 ↦ elim (Bool-cases (p.cmd == 5)) [
              | inl e ↦ rw (e2, e3, e4, e) (at_five (p.cmd) s e (finish_packet-cases s q other))
              | inr e5 ↦ elim (Bool-cases (p.cmd == 6)) [
                | inl e ↦
                    inl (rw (e2, e3, e4, e5, e) (record { meta = refl; sector = λ j r. refl }))
                | inr e ↦
                    inl (rw (e2, e3, e4, e5, e) (record { meta = refl; sector = λ j r. refl }))
              ]
            ]
          ]
        ]
      ]

-- ===== src/Boot/Dfu/Whole.antt =====
-- From the first packet of a session to the commit.
use rpitos.Prelude.{
  ℕ, ◌+◌, ◌-◌, ◌^◌, ◌<◌, ◌≤◌, ◌≡◌, refl, sym, ap, ◌∙◌, arith, true, false, ◌==◌, ltb, leb, ◌&&◌,
  List, [], ◌∷◌,
}
use mathlib.Core.Path.{subst}
use rpitos.Crc.{hw_update, finish}
use rpitos.Boot.Disk.{
  Disk, Machine, IsWorking, emmc_firmware_floor, slot_to_sector, slot_other, word_at,
}
use rpitos.Boot.Flags.{BootFlags}
use rpitos.Boot.Meta.{WdtMeta, read}
use rpitos.Boot.Meta.Store.{IsWords}
use rpitos.Status.{e_ok}
use rpitos.Boot.App.{start_packet_at}
use rpitos.Boot.Dfu.Packet.{DfuPacket}
use rpitos.Boot.Dfu.{
  Session, handle, dfu_init, start_image, copy_at, dfu_app_magic, dfu_done, finish_packet,
}
use rpitos.Boot.Dfu.Receive.{IsReceiving, IsPiece, hash_of, within, handle-IsReceiving}
use rpitos.Boot.Dfu.Transfer.{finish-commits, slot_to_sector-floor}

-- The packets of an image from its byte `n` on, and how many bytes they bring.
abbrev pub IsPieces : (ℕ → ℕ) → ℕ → List DfuPacket → Type 0
IsPieces g n [] = Unit
IsPieces g n (p ∷ ps) = IsPiece g n p × IsPieces g (n + p.len) ps

abbrev pub end_of : ℕ → List DfuPacket → ℕ
end_of n [] = n
end_of n (p ∷ ps) = end_of (n + p.len) ps

abbrev pub handle_all : Machine → List DfuPacket → Session → Session
handle_all h [] s = s
handle_all h (p ∷ ps) s = handle_all h ps (handle h p s)

module _ (h : Machine) (w : IsWorking h) where
  -- The disk with the header.
  abbrev pub with_header : ℕ → (ℕ → ℕ) → DfuPacket → Disk → Disk
  with_header base buf p d = (h.write_block base (copy_at p.payload 0 0 12 buf) d).1

  header_cell :
      (base : ℕ) (buf : ℕ → ℕ) (p : DfuPacket) (d : Disk) (j : ℕ)
      → emmc_firmware_floor ≤ base
      → j < 12
      → with_header base buf p d base j ≡ p.payload j
  header_cell base buf p d j f q =
      let e : (base == base) ≡ true = ground arith in
      let i : leb 0 j && ltb j (0 + 12) ≡ true = ground arith in
      let k : 0 + (j - 0) ≡ j = omega arith in
      w.sector base (copy_at p.payload 0 0 12 buf) d base j f (omega arith)
      ∙ rw (e, i) (ap p.payload k)

  word_cell :
      (base : ℕ) (buf : ℕ → ℕ) (p : DfuPacket) (d : Disk) (i : ℕ)
      → emmc_firmware_floor ≤ base
      → i + 3 < 12
      → word_at (with_header base buf p d base) i ≡ word_at p.payload i
  word_cell base buf p d i f q =
      rw
        (
          header_cell base buf p d i f (omega arith),
          header_cell base buf p d (i + 1) f (omega arith),
          header_cell base buf p d (i + 2) f (omega arith),
          header_cell base buf p d (i + 3) f q,
        )
        refl

  header-with_header :
      (base : ℕ) (buf : ℕ → ℕ) (p : DfuPacket) (d : Disk)
      → emmc_firmware_floor ≤ base
      → start_packet_at (with_header base buf p d base) ≡ start_packet_at p.payload
  header-with_header base buf p d f =
      rw
        (
          word_cell base buf p d 0 f (omega arith),
          word_cell base buf p d 4 f (omega arith),
          word_cell base buf p d 8 f (omega arith),
        )
        refl

  module _ (crc ctx : ℕ) (buf : ℕ → ℕ) (d : Disk) (m : WdtMeta) (f : BootFlags) (g : ℕ → ℕ) where
    abbrev pub target : ℕ
    target = slot_to_sector (slot_other m.active_app_slot)

    pub start-IsReceiving :
        (p : DfuPacket)
        → p.cmd ≡ 2
        → p.len ≡ 12
        → IsReceiving h target g
            (with_header target buf p d)
            (start_packet_at p.payload).fw_length
            (start_packet_at p.payload).crc
            m
            0
            (handle h p (dfu_init crc ctx buf d m f))
    unfolding handle start_image dfu_init hw_update
    start-IsReceiving p e1 e2 =
        let z : within (start_packet_at p.payload).fw_length 0 ≡ 0 = ground arith in
        let a : (p.cmd == 2) ≡ true = ground arith in
        let b : (p.len == 12) ≡ true = ground arith in
        simp (a, b)
          (record {
            stored = record {
              sector = refl;
              written = refl;
              counter = refl;
              unwritten = refl;
              buffer = λ j q. absurd (omega arith);
              sectors = λ k j q r. absurd (omega arith);
              others = λ a j q r. refl;
            };
            hashed = record { image = refl; hashed = sym z; ctx = ap (hash_of h g 0) (sym z) };
            state = refl;
            expected = refl;
            app = refl;
            meta = refl;
            words = refl;
          })

  all-IsReceiving :
      (base : ℕ) (floor : emmc_firmware_floor ≤ base) (g : ℕ → ℕ) (d : Disk) (l c : ℕ) (m : WdtMeta)
      → l ≤ 2 ^ 32 - 512
      → (n : ℕ) (ps : List DfuPacket) (s : Session) → IsPieces g n ps
      → IsReceiving h base g d l c m n s
      → IsReceiving h base g d l c m (end_of n ps) (handle_all h ps s)
  all-IsReceiving base floor g d l c m small n [] s v i = i
  all-IsReceiving base floor g d l c m small n (p ∷ ps) s v i =
      all-IsReceiving base floor g d l c m small (n + p.len) ps (handle h p s) v.1
        (handle-IsReceiving h w base floor g d l c m small n p s v.0 i)

  handle_finish : (p : DfuPacket) (s : Session) → p.cmd ≡ 5 → handle h p s ≡ finish_packet h s
  unfolding handle
  handle_finish p s e =
      let e2 : (p.cmd == 2) ≡ false = ground arith in
      let e3 : (p.cmd == 3) ≡ false = ground arith in
      let e4 : (p.cmd == 4) ≡ false = ground arith in
      let e5 : (p.cmd == 5) ≡ true = ground arith in rw (e2, e3, e4, e5) refl

  -- On a device without faults, in a session that begins: a CMD_START with version 1, a length from 1 to
  -- 2^32 - 512 and the checksum of that many bytes of an image, CMD_DATA packets with the bytes of the image one
  -- after the other, each with 1 to 256 bytes in whole words, at least 36 of them and as many as the length,
  -- the marker of the standard startup at its place, and a CMD_FINISH end with the session done, and with the
  -- slot that was not active made active, on trial with no boot counted: so in memory, and so wdt_meta_read
  -- reads it from the eMMC afterwards, whatever wdt_meta was before. The metadata of the session are words.
  pub transfer-commits :
      (crc ctx : ℕ) (buf : ℕ → ℕ) (d : Disk) (m : WdtMeta) (f : BootFlags) (g : ℕ → ℕ)
      (first : DfuPacket) (ps : List DfuPacket) (last : DfuPacket) (l c : ℕ) (m2 : WdtMeta)
      → IsWords m
      → first.cmd ≡ 2
      → first.len ≡ 12
      → start_packet_at first.payload ≡ record { version_num = 1; fw_length = l; crc = c }
      → 0 < l
      → l ≤ 2 ^ 32 - 512
      → finish (hash_of h g l l) ≡ c
      → word_at g 0x20 ≡ dfu_app_magic
      → IsPieces g 0 ps
      → l ≤ end_of 0 ps
      → 36 ≤ end_of 0 ps
      → last.cmd ≡ 5
      → let t = handle h last (handle_all h ps (handle h first (dfu_init crc ctx buf d m f))) in
        (t.state ≡ dfu_done)
        × (t.meta.active_app_slot ≡ slot_other m.active_app_slot)
        × (t.meta.app_slot_trial ≡ 1)
        × (t.meta.trial_boot_count ≡ 0)
        × (read h m2 t.disk ≡ (e_ok, t.meta))
  transfer-commits crc ctx buf d m f g first ps last l c m2 words e1 e2 e3 some small sum mark v all
        most e4 =
      let b = slot_to_sector (slot_other m.active_app_slot) in
      let floor = slot_to_sector-floor (slot_other m.active_app_slot) in
      let d1 = with_header b buf first d in
      let s1 = handle h first (dfu_init crc ctx buf d m f) in
      let i1 : IsReceiving h b g d1 l c m 0 s1 =
        subst (λ q. IsReceiving h b g d1 q.fw_length q.crc m 0 s1) e3
          (start-IsReceiving crc ctx buf d m f g first e1 e2) in
      let s2 = handle_all h ps s1 in
      let i2 = all-IsReceiving b floor g d1 l c m small 0 ps s1 v i1 in
      let t =
        finish-commits h w b floor g d1 l c some small (header-with_header b buf first d floor ∙ e3)
          sum (end_of 0 ps) m s2 words i2 refl all most mark in
      let e = handle_finish last s2 e4 in
      (
        ap (λ x. x.state) e ∙ t.state,
        ap (λ x. x.meta.active_app_slot) e ∙ t.active,
        ap (λ x. x.meta.app_slot_trial) e ∙ t.trial,
        ap (λ x. x.meta.trial_boot_count) e ∙ t.boots,
        subst (λ x. read h m2 x.disk ≡ (e_ok, x.meta)) (sym e) (t.stored m2),
      )

-- ===== src/Boot/Dfu/Transfer.antt =====
-- A whole transfer: CMD_START, the image in CMD_DATA packets, CMD_FINISH.
use rpitos.Prelude.{
  ℕ, ◌+◌, ◌-◌, ◌*◌, ◌/◌, ◌%◌, ◌^◌, ◌<◌, ◌≤◌, ◌≡◌, refl, sym, ap, ◌∙◌, arith, true, false, ◌==◌,
  ◌&&◌, not, ltb, if◌then◌else◌, bytes_of, bytes_of-cong, Bool-cases, inl, inr,
}
use mathlib.Core.Path.{subst}
use rpitos.Status.{is_ok}
use rpitos.Crc.{hw_update, start, finish}
use rpitos.Boot.Disk.{
  Disk, Machine, IsWorking, emmc_firmware_floor, slot_to_sector, slot_other, word_at, word_at-cong,
  read_block, buffer,
}
use rpitos.Boot.Meta.{WdtMeta}
use rpitos.Boot.Meta.Store.{IsWords}
use rpitos.Boot.App.{start_packet_at, validate_app}
use rpitos.Boot.App.Image.{validate_app_lem, flat, is_intact}
use rpitos.Boot.Dfu.{Session, finish_packet, pad_sector, marker_ok, dfu_app_magic}
use rpitos.Boot.Dfu.Data.{IsStored}
use rpitos.Boot.Dfu.Receive.{IsReceiving, hash_of, within}
use rpitos.Boot.Dfu.Commit.{IsCommitted, padded-IsCommitted}

pub slot_to_sector-floor : (slot : ℕ) → emmc_firmware_floor ≤ slot_to_sector slot
slot_to_sector-floor slot = ground arith

module _ (h : Machine) (w : IsWorking h) (base : ℕ) (floor : emmc_firmware_floor ≤ base) (g : ℕ → ℕ)
    (d : Disk) where
  -- Where the last sector is written, and where it is not.
  pad-true :
      (s : Session) (a j : ℕ)
      → emmc_firmware_floor ≤ s.dfu_base_sector
      → s.unwritten_sector ≡ true
      → j < 512
      → (pad_sector h s).disk a j ≡ (
          if a == s.dfu_base_sector + s.sectors_written
          then (if ltb j s.current_sector_counter then s.current_sector j else 0)
          else s.disk a j)
  unfolding pad_sector
  pad-true s a j f u q = simp u (
      w.sector (s.dfu_base_sector + s.sectors_written)
        (λ (j : ℕ). if ltb j s.current_sector_counter then s.current_sector j else 0) s.disk a j
        (omega arith) q)

  pad-false : (s : Session) → s.unwritten_sector ≡ false → (pad_sector h s).disk ≡ s.disk
  unfolding pad_sector
  pad-false s u = rw u refl

  pad-sectors :
      (n : ℕ) (s : Session)
      → IsStored base g d n s
      → (k j : ℕ) → j < 512
      → k * 512 + j < n
      → (pad_sector h s).disk (base + 1 + k) j ≡ g (k * 512 + j)
  pad-sectors n s i k j q r = elim (Bool-cases (n % 512 == 0)) [
    | inl e ↦
        let u : s.unwritten_sector ≡ false = i.unwritten ∙ ap not e in
        ap (λ f. f (base + 1 + k) j) (pad-false s u) ∙ i.sectors k j (ground arith) q
    | inr e ↦
        let u : s.unwritten_sector ≡ true = i.unwritten ∙ ap not e in
        pad-true s (base + 1 + k) j (omega (arith, i.sector)) u q
        ∙ elim (Bool-cases (k == n / 512)) [
          | inl c ↦
              let t : (base + 1 + k == s.dfu_base_sector + s.sectors_written) ≡ true =
                ground (arith, i.sector, i.written) in
              let v : ltb j s.current_sector_counter ≡ true = ground (arith, i.counter) in
              rw (t, v) (i.buffer j (ground arith) ∙ ap g (ground arith))
          | inr c ↦
              let t : (base + 1 + k == s.dfu_base_sector + s.sectors_written) ≡ false =
                ground (arith, i.sector, i.written) in
              rw t (i.sectors k j (ground arith) q)
        ]
  ]

  pad-header :
      (n : ℕ) (s : Session)
      → IsStored base g d n s
      → (j : ℕ) → j < 512
      → (pad_sector h s).disk base j ≡ d base j
  pad-header n s i j q = elim (Bool-cases s.unwritten_sector) [
    | inl u ↦
        let t : (base == s.dfu_base_sector + s.sectors_written) ≡ false =
          ground (arith, i.sector, i.written) in
        pad-true s base j (omega (arith, i.sector)) u q
        ∙ rw t (i.others base j q (inl (omega arith)))
    | inr u ↦ ap (λ f. f base j) (pad-false s u) ∙ i.others base j q (inl (omega arith))
  ]

  first-sector :
      (n : ℕ) (s : Session)
      → IsStored base g d n s
      → (j : ℕ) → j < 512
      → j < n
      → (pad_sector h s).disk (base + 1) j ≡ g j
  first-sector n s i j q r =
      let a : base + 1 ≡ base + 1 + 0 = omega arith in
      let b : 0 * 512 + j ≡ j = omega arith in
      ap (λ x. (pad_sector h s).disk x j) a ∙ pad-sectors n s i 0 j q (omega arith) ∙ ap g b

  pad-marker :
      (n slot : ℕ) (s : Session)
      → IsStored base g d n s
      → slot_to_sector slot ≡ base
      → 36 ≤ n
      → word_at g 0x20 ≡ dfu_app_magic
      → marker_ok h slot (pad_sector h s).disk ≡ true
  unfolding marker_ok
  pad-marker n slot s i e l m =
      let pd = (pad_sector h s).disk in
      let f = (read_block h (slot_to_sector slot + 1) pd).1 in
      let at : (j : ℕ) → j < 512 → f j ≡ pd (base + 1) j =
        λ j q. buffer h w (slot_to_sector slot + 1) pd j q ∙ ap (λ x. pd (x + 1) j) e in
      let v : word_at (pd (base + 1)) 0x20 ≡ word_at g 0x20 =
        rw
          (
            first-sector n s i 0x20 (omega arith) (omega arith),
            first-sector n s i 0x21 (omega arith) (omega arith),
            first-sector n s i 0x22 (omega arith) (omega arith),
            first-sector n s i 0x23 (omega arith) (omega arith),
          )
          refl in
      rw
        (
          w.reads (slot_to_sector slot + 1) 1 pd (omega arith),
          word_at-cong f (pd (base + 1)) 0x20 (omega arith) at,
          v,
          m,
        )
        refl

  pad-flat :
      (n l : ℕ) (s : Session)
      → IsStored base g d n s
      → l ≤ n
      → bytes_of (flat (pad_sector h s).disk (base + 1)) 0 l ≡ bytes_of g 0 l
  pad-flat n l s i e = bytes_of-cong (flat (pad_sector h s).disk (base + 1)) g 0 0 l (λ j q.
      pad-sectors n s i ((0 + j) / 512) ((0 + j) % 512) (omega arith) (omega arith)
      ∙ ap g (omega arith))

  packet-header :
      (n : ℕ) (s : Session)
      → IsStored base g d n s
      → start_packet_at ((pad_sector h s).disk base) ≡ start_packet_at (d base)
  packet-header n s i =
      let f = (pad_sector h s).disk base in
      let e = pad-header n s i in
      rw
        (
          word_at-cong f (d base) 0 (omega arith) e,
          word_at-cong f (d base) 4 (omega arith) e,
          word_at-cong f (d base) 8 (omega arith) e,
        )
        refl

  module _ (l c : ℕ) (image : 0 < l) (small : l ≤ 2 ^ 32 - 512)
      (header : start_packet_at (d base) ≡ record { version_num = 1; fw_length = l; crc = c })
      (sum : finish (hash_of h g l l) ≡ c) where
    pad-intact :
        (n : ℕ) (s : Session)
        → IsStored base g d n s
        → l ≤ n
        → is_intact h w base (pad_sector h s).disk ≡ true
    pad-intact n s i e =
        let p : start_packet_at ((pad_sector h s).disk base)
            ≡ record { version_num = 1; fw_length = l; crc = c } =
          packet-header n s i ∙ header in
        let pd = (pad_sector h s).disk in
        let f = hw_update h.crc32b h.crc32h h.crc32w start in
        let e1 : (l == 0) ≡ false = ground arith in
        let e2 : finish (f (bytes_of (flat pd (base + 1)) 0 l)) ≡ c =
          ap (λ xs. finish (f xs)) (pad-flat n l s i e) ∙ sum in
        let e3 : (c == c) ≡ true = ground arith in
        subst
          (λ p.
            ((p.version_num == 1)
              && not (p.fw_length == 0)
              && (finish (f (bytes_of (flat pd (base + 1)) 0 p.fw_length)) == p.crc))
            ≡ true)
          (sym p) (rw (e1, e2, e3) refl)

    pad-valid :
        (n : ℕ) (s : Session)
        → IsStored base g d n s
        → l ≤ n
        → is_ok (validate_app h base (pad_sector h s).disk) ≡ true
    pad-valid n s i e =
        rw (validate_app_lem h w base (pad_sector h s).disk, pad-intact n s i e) refl

    pub finish-commits :
        (n : ℕ) (m : WdtMeta) (s : Session)
        → IsWords m
        → IsReceiving h base g d l c m n s
        → slot_to_sector (slot_other m.active_app_slot) ≡ base
        → l ≤ n
        → 36 ≤ n
        → word_at g 0x20 ≡ dfu_app_magic
        → IsCommitted h w (slot_other m.active_app_slot) s (finish_packet h s)
    unfolding finish_packet
    finish-commits n m s words i e v k q =
        let slot = slot_other m.active_app_slot in
        let all : within l n ≡ l = ground arith in
        let t : finish s.crc_ctx ≡ s.img_expected_crc =
          ap finish (i.hashed.ctx ∙ ap (hash_of h g l) all) ∙ sum ∙ sym i.expected in
        let u : (finish s.crc_ctx == s.img_expected_crc) ≡ true = ground arith in
        let x : is_ok (validate_app h (slot_to_sector slot) (pad_sector h s).disk) ≡ true =
          subst (λ b. is_ok (validate_app h b (pad_sector h s).disk) ≡ true) (sym e)
            (pad-valid n s i.stored v) in
        rw u (
          simp i.app (
            padded-IsCommitted h w slot s (subst IsWords (sym i.meta) words) t
              (ap (λ a. slot_other a.active_app_slot) i.meta) x
              (pad-marker n slot s i.stored e k q)))

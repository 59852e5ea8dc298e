-- ===== src/Boot/Dfu/Receive.antt =====
-- The image as it is received: its bytes and its checksum together, over any number of CMD_DATA packets.
use rpitos.Prelude.{
  ℕ, ◌+◌, ◌-◌, ◌%◌, ◌^◌, ◌<◌, ◌≤◌, ◌≡◌, refl, sym, ap, ◌∙◌, arith, true, false, ◌==◌, ltb, leb,
  if◌then◌else◌, bytes_of, bytes_of-cong, bytes_of-append, Bool-cases, inl, inr,
}
use mathlib.Core.Path.{subst}
use rpitos.Crc.{hw_update, start}
use rpitos.Crc.Fours.{hw_update-fours, bytes_of-IsFours}
use rpitos.Boot.Disk.{Disk, Machine, IsWorking, emmc_firmware_floor}
use rpitos.Boot.Meta.{WdtMeta}
use rpitos.Boot.Dfu.Packet.{DfuPacket}
use rpitos.Boot.Dfu.{
  Session, store_data, to_hash, hash_data, data_packet, handle, dfu_receive_data, ack, is_receiving,
}
use rpitos.Boot.Dfu.Data.{IsStored, store-full, store-part}

-- How much of the first `n` bytes belongs to an image of `l` bytes.
abbrev pub within : ℕ → ℕ → ℕ
within l n = if ltb l n then l else n

module _ (h : Machine) (g : ℕ → ℕ) (l : ℕ) where
  abbrev pub hash_of : ℕ → ℕ
  hash_of n = hw_update h.crc32b h.crc32h h.crc32w start (bytes_of g 0 n)

  pub record IsHashed (n : ℕ) (s : Session) : Type 0 where
    pub image : s.img_length ≡ l
    pub hashed : s.bytes_hashed ≡ within l n
    pub ctx : s.crc_ctx ≡ hash_of (within l n)

  hash-more :
      (n m : ℕ) (f : ℕ → ℕ)
      → n % 4 ≡ 0
      → ((j : ℕ) → j < m → f j ≡ g (n + j))
      → hw_update h.crc32b h.crc32h h.crc32w (hash_of n) (bytes_of f 0 m) ≡ hash_of (n + m)
  hash-more n m f v e =
      let crc = hw_update h.crc32b h.crc32h h.crc32w in
      let piece : bytes_of f 0 m ≡ bytes_of g (0 + n) m = bytes_of-cong f g 0 (0 + n) m (λ j q.
        let a : 0 + j ≡ j = omega arith in
        let b : n + j ≡ 0 + n + j = omega arith in ap f a ∙ e j q ∙ ap g b) in
      ap (crc (hash_of n)) piece
      ∙ sym (
          hw_update-fours h.crc32b h.crc32h h.crc32w start (bytes_of g 0 n) (bytes_of g (0 + n) m)
            (bytes_of-IsFours g 0 n v))
      ∙ ap (crc start) (sym (bytes_of-append g 0 n m))

  store-IsHashed :
      (n : ℕ) (p : DfuPacket) (s : Session) → IsHashed n s → IsHashed n (store_data h p s)
  unfolding store_data
  store-IsHashed n p s i = elim (Bool-cases (leb 512 (s.current_sector_counter + p.len))) [
    | inl t ↦ rw t (record { image = i.image; hashed = i.hashed; ctx = i.ctx })
    | inr t ↦ rw t (record { image = i.image; hashed = i.hashed; ctx = i.ctx })
  ]

  to_hash-within :
      (n : ℕ) (p : DfuPacket) (s : Session)
      → l ≤ 2 ^ 32 - 512
      → p.len ≤ 256
      → IsHashed n s
      → to_hash h p s ≡ within l (n + p.len) - within l n
  unfolding to_hash
  to_hash-within n p s b m i = rw (i.image, i.hashed) (ground arith)

  hash-IsHashed :
      (n : ℕ) (p : DfuPacket) (s : Session)
      → n % 4 ≡ 0
      → l ≤ 2 ^ 32 - 512
      → p.len ≤ 256
      → ((j : ℕ) → j < p.len → p.payload j ≡ g (n + j))
      → IsHashed n s
      → IsHashed (n + p.len) (hash_data h p s)
  unfolding hash_data
  hash-IsHashed n p s v b m e i =
      let k = within l (n + p.len) - within l n in
      let crc = hw_update h.crc32b h.crc32h h.crc32w in
      let t = to_hash-within n p s b m i in
      elim (Bool-cases (ltb 0 k)) [
        | inl u ↦
            let under : within l n ≡ n = ground arith in
            let sum : n + k ≡ within l (n + p.len) = ground arith in
            rw (t, u)
              (record {
                image = i.image;
                hashed = ap (λ x. x + k) (i.hashed ∙ under) ∙ sum;
                ctx =
                    ap (λ c. crc c (bytes_of p.payload 0 k)) (i.ctx ∙ ap hash_of under)
                    ∙ hash-more n k p.payload v (λ j q. e j (ground arith))
                    ∙ ap hash_of sum;
              })
        | inr u ↦
            let same : within l n ≡ within l (n + p.len) = ground arith in
            rw (t, u)
              (record { image = i.image; hashed = i.hashed ∙ same; ctx = i.ctx ∙ ap hash_of same })
      ]

-- The bytes and the checksum of the first `n` bytes of the image `g` of `l` bytes, the checksum that is
-- expected, and what else the session keeps meanwhile.
pub record IsReceiving (h : Machine) (base : ℕ) (g : ℕ → ℕ) (d : Disk) (l c : ℕ) (m : WdtMeta)
    (n : ℕ) (s : Session) : Type 0 where
  pub stored : IsStored base g d n s
  pub hashed : IsHashed h g l n s
  pub state : s.state ≡ dfu_receive_data
  pub expected : s.img_expected_crc ≡ c
  pub app : s.is_self_update ≡ false
  pub meta : s.meta ≡ m
  pub words : n % 4 ≡ 0

-- A CMD_DATA packet with the next bytes of the image.
pub record IsPiece (g : ℕ → ℕ) (n : ℕ) (p : DfuPacket) : Type 0 where
  pub cmd : p.cmd ≡ 4
  pub some : 0 < p.len
  pub most : p.len ≤ 256
  pub words : p.len % 4 ≡ 0
  pub bytes : (j : ℕ) → j < p.len → p.payload j ≡ g (n + j)

module _ (h : Machine) where
  pub store-keeps :
      (p : DfuPacket) (s : Session)
      → ((store_data h p s).state ≡ s.state)
        × ((store_data h p s).img_expected_crc ≡ s.img_expected_crc)
        × ((store_data h p s).is_self_update ≡ s.is_self_update)
        × ((store_data h p s).meta ≡ s.meta)
  unfolding store_data
  store-keeps p s = elim (Bool-cases (leb 512 (s.current_sector_counter + p.len))) [
    | inl t ↦ rw t (refl, refl, refl, refl)
    | inr t ↦ rw t (refl, refl, refl, refl)
  ]

  pub hash-keeps :
      (p : DfuPacket) (s : Session)
      → ((hash_data h p s).state ≡ s.state)
        × ((hash_data h p s).img_expected_crc ≡ s.img_expected_crc)
        × ((hash_data h p s).is_self_update ≡ s.is_self_update)
        × ((hash_data h p s).meta ≡ s.meta)
  unfolding hash_data
  hash-keeps p s = elim (Bool-cases (ltb 0 (to_hash h p s))) [
    | inl t ↦ rw t (refl, refl, refl, refl)
    | inr t ↦ rw t (refl, refl, refl, refl)
  ]

module _ (h : Machine) (w : IsWorking h) (base : ℕ) (floor : emmc_firmware_floor ≤ base) (g : ℕ → ℕ)
    (d : Disk) where
  hash-IsStored :
      (n : ℕ) (p : DfuPacket) (s : Session)
      → IsStored base g d n s
      → IsStored base g d n (ack (hash_data h p s))
  unfolding hash_data
  hash-IsStored n p s i = elim (Bool-cases (ltb 0 (to_hash h p s))) [
    | inl t ↦ rw t (record {
      sector = i.sector;
      written = i.written;
      counter = i.counter;
      unwritten = i.unwritten;
      buffer = i.buffer;
      sectors = i.sectors;
      others = i.others;
    })
    | inr t ↦ rw t (record {
      sector = i.sector;
      written = i.written;
      counter = i.counter;
      unwritten = i.unwritten;
      buffer = i.buffer;
      sectors = i.sectors;
      others = i.others;
    })
  ]

  store-IsStored :
      (n : ℕ) (p : DfuPacket) (s : Session)
      → IsPiece g n p
      → IsStored base g d n s
      → IsStored base g d (n + p.len) (store_data h p s)
  store-IsStored n p s a i = elim (Bool-cases (ltb (n % 512 + p.len) 512)) [
    | inl t ↦ store-part h w base floor g d n p s i a.most a.some a.bytes (ground arith)
    | inr t ↦ store-full h w base floor g d n p s i a.most a.bytes (ground arith)
  ]

  handle_data :
      (p : DfuPacket) (s : Session)
      → p.cmd ≡ 4
      → p.len % 4 ≡ 0
      → is_receiving s.state ≡ true
      → handle h p s ≡ ack (hash_data h p (store_data h p s))
  unfolding handle data_packet
  handle_data p s e1 e2 e3 =
      let a : (p.cmd == 2) ≡ false = ground arith in
      let b : (p.cmd == 3) ≡ false = ground arith in
      let c : (p.cmd == 4) ≡ true = ground arith in
      let v : (p.len % 4 == 0) ≡ true = ground arith in rw (a, b, c, v, e3) refl

  module _ (l c : ℕ) (m : WdtMeta) (small : l ≤ 2 ^ 32 - 512) where
    ack-IsHashed : (n : ℕ) (s : Session) → IsHashed h g l n s → IsHashed h g l n (ack s)
    ack-IsHashed n s i = record { image = i.image; hashed = i.hashed; ctx = i.ctx }

    stored-IsReceiving :
        (n : ℕ) (p : DfuPacket) (s : Session)
        → IsPiece g n p
        → IsReceiving h base g d l c m n s
        → IsReceiving h base g d l c m (n + p.len) (ack (hash_data h p (store_data h p s)))
    stored-IsReceiving n p s a i =
        let s2 = store_data h p s in
        let k = store-keeps h p s in
        let q = hash-keeps h p s2 in
        record {
          stored = hash-IsStored (n + p.len) p s2 (store-IsStored n p s a i.stored);
          hashed = ack-IsHashed (n + p.len) (hash_data h p s2) (
              hash-IsHashed h g l n p s2 i.words small a.most a.bytes
                (store-IsHashed h g l n p s i.hashed));
          state = q.0 ∙ k.0 ∙ i.state;
          expected = q.1 ∙ k.1 ∙ i.expected;
          app = q.2 ∙ k.2 ∙ i.app;
          meta = q.3 ∙ k.3 ∙ i.meta;
          words = omega (arith, i.words, a.words);
        }

    -- On a device without faults, with n bytes of an image received (the full sectors of them on the disk from
    -- the sector after the header on, the rest in the buffer, their checksum up to the length of the image
    -- folded, and every other sector as it was): a CMD_DATA packet with the next bytes, 1 to 256 of them in
    -- whole words, leaves the same with these bytes too, and the metadata as it was.
    pub handle-IsReceiving :
        (n : ℕ) (p : DfuPacket) (s : Session)
        → IsPiece g n p
        → IsReceiving h base g d l c m n s
        → IsReceiving h base g d l c m (n + p.len) (handle h p s)
    handle-IsReceiving n p s a i =
        let e = handle_data p s a.cmd a.words (ap is_receiving i.state) in
        subst (IsReceiving h base g d l c m (n + p.len)) (sym e) (stored-IsReceiving n p s a i)

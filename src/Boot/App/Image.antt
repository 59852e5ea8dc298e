-- ===== src/Boot/App/Image.antt =====
-- Validation reads the whole image, and loading copies it.
use rpitos.Prelude.{
  ℕ, zero, suc, ◌+◌, ◌-◌, ◌*◌, ◌/◌, ◌%◌, ◌^◌, ◌≤◌, ◌≡◌, refl, sym, ap, ◌∙◌, arith, true, false,
  Bool, ◌==◌, ◌&&◌, not, ltb, if◌then◌else◌, bytes_of, bytes_of-cong, bytes_of-append, Bool-cases,
  inl, inr, List,
}
use rpitos.Status.{e_ok, e_corrupted}
use rpitos.Crc.{hw_update, start, finish}
use rpitos.Crc.Fours.{IsFours, hw_update-fours, bytes_of-IsFours}
use rpitos.Boot.Disk.{Disk, Machine, IsWorking, read_block, buffer, word_at-cong}
use rpitos.Boot.App.{start_packet_at, hash_sectors, check_image, validate_app, load_app}

-- The bytes from a sector on.
abbrev pub flat : Disk → ℕ → ℕ → ℕ
flat d s j = d (s + j / 512) (j % 512)

sector-IsFours : (f : ℕ → ℕ) → IsFours (bytes_of f 0 512)
sector-IsFours f = bytes_of-IsFours f 0 512 refl

both :
    (a b c : Bool)
    → (if a && not b then (if c then e_ok else e_corrupted) else e_corrupted)
      ≡ (if a && not b && c then e_ok else e_corrupted)
both false b c = refl
both true false c = refl
both true true c = refl

accepted :
    (a b : Bool) (x c : ℕ) → (if a && b && (x == c) then e_ok else e_corrupted) ≡ e_ok → x ≡ c
accepted false b x c h = cc
accepted true false x c h = cc
accepted true true x c h = ground arith

cell : (d : Disk) (a b i j : ℕ) → a ≡ b → i ≡ j → d a i ≡ d b j
cell d a b i j e1 e2 = ap (λ x. d x i) e1 ∙ ap (d b) e2

module _ (h : Machine) (w : IsWorking h) where
  chunk-flat :
      (s : ℕ) (d : Disk) (n : ℕ)
      → n ≤ 512
      → bytes_of (read_block h s d).1 0 n ≡ bytes_of (flat d s) 0 n
  chunk-flat s d n p = bytes_of-cong (read_block h s d).1 (flat d s) 0 0 n (λ j q.
      buffer h w s d (0 + j) (omega arith)
      ∙ cell d s (s + (0 + j) / 512) (0 + j) ((0 + j) % 512) (omega arith) (omega arith))

  flat-next : (s : ℕ) (d : Disk) (n : ℕ) → bytes_of (flat d s) 512 n ≡ bytes_of (flat d (s + 1)) 0 n
  flat-next s d n = bytes_of-cong (flat d s) (flat d (s + 1)) 512 0 n (λ j q.
      cell d (s + (512 + j) / 512) (s + 1 + (0 + j) / 512) ((512 + j) % 512) ((0 + j) % 512)
        (omega arith) (omega arith))

  abbrev hashed : ℕ → Disk → ℕ → ℕ → ℕ
  hashed s d crc m = hw_update h.crc32b h.crc32h h.crc32w crc (bytes_of (flat d s) 0 m)

  hashed-nothing : (s : ℕ) (d : Disk) (crc m : ℕ) → m ≡ 0 → hashed s d crc m ≡ crc
  unfolding hw_update
  hashed-nothing s d crc m e = ap (hashed s d crc) e

  hashed-sector :
      (s : ℕ) (d : Disk) (crc m : ℕ)
      → 512 ≤ m
      → hashed (s + 1) d (hashed s d crc 512) (m - 512) ≡ hashed s d crc m
  hashed-sector s d crc m p =
      let f = hw_update h.crc32b h.crc32h h.crc32w in
      let e : 512 + (m - 512) ≡ m = omega arith in
      let shift : bytes_of (flat d s) (0 + 512) (m - 512) ≡ bytes_of (flat d (s + 1)) 0 (m - 512) =
        flat-next s d (m - 512) in
      ap (f (hashed s d crc 512)) (sym shift)
      ∙ sym (
          hw_update-fours h.crc32b h.crc32h h.crc32w crc (bytes_of (flat d s) 0 512)
            (bytes_of (flat d s) (0 + 512) (m - 512)) (sector-IsFours (flat d s)))
      ∙ ap (f crc) (sym (bytes_of-append (flat d s) 0 512 (m - 512)))
      ∙ ap (hashed s d crc) e

  hash_sectors_lem :
      (n m s crc : ℕ) (d : Disk) → m ≤ n * 512 → hash_sectors h n m s d crc ≡ hashed s d crc m
  unfolding hash_sectors
  hash_sectors_lem zero m s crc d p = sym (hashed-nothing s d crc m (omega arith))
  hash_sectors_lem (suc n) m s crc d p = elim (Bool-cases (m == 0)) [
    | inl e ↦ rw e (sym (hashed-nothing s d crc m (ground arith)))
    | inr e ↦ elim (Bool-cases (ltb m 512)) [
      | inl e2 ↦
          rw (e, e2, chunk-flat s d m (ground arith))
            (hash_sectors_lem n (m - m) (s + 1) (hashed s d crc m) d (omega arith)
              ∙ hashed-nothing (s + 1) d (hashed s d crc m) (m - m) (omega arith))
      | inr e2 ↦
          rw (e, e2, chunk-flat s d 512 (omega arith))
            (hash_sectors_lem n (m - 512) (s + 1) (hashed s d crc 512) d (omega arith)
              ∙ hashed-sector s d crc m (ground arith))
    ]
  ]

  packet-cong : (s : ℕ) (d : Disk) → start_packet_at (read_block h s d).1 ≡ start_packet_at (d s)
  packet-cong s d =
      let f = (read_block h s d).1 in
      let e = buffer h w s d in
      rw
        (
          word_at-cong f (d s) 0 (omega arith) e,
          word_at-cong f (d s) 4 (omega arith) e,
          word_at-cong f (d s) 8 (omega arith) e,
        )
        refl

  -- The checksum of the image whose header is in a sector, and the test of the header.
  abbrev pub image_crc : ℕ → Disk → ℕ
  image_crc s d = finish (hashed (s + 1) d start (start_packet_at (d s)).fw_length)

  abbrev pub is_intact : ℕ → Disk → Bool
  is_intact s d =
      let p = start_packet_at (d s) in
      (p.version_num == 1) && not (p.fw_length == 0) && (image_crc s d == p.crc)

  -- On a device without faults boot_validate_app ends, and accepts a slot exactly when its header has version
  -- 1 and a length that is not 0, and the checksum of that many bytes from the sector after the header on is
  -- the header's; else it answers E_CORRUPTED.
  pub validate_app_lem :
      (s : ℕ) (d : Disk) → validate_app h s d ≡ (if is_intact s d then e_ok else e_corrupted)
  unfolding check_image
  validate_app_lem s d =
      let p = start_packet_at (d s) in
      let e =
        hash_sectors_lem ((p.fw_length + 512 - 1) / 512) p.fw_length (s + 1) start d
          (omega arith) in
      ap (λ p. check_image h p s d) (packet-cong s d)
      ∙ rw e (both (p.version_num == 1) (p.fw_length == 0) (image_crc s d == p.crc))

  -- The memory that boot_load_app leaves holds the image, and its status is E_OK.
  pub load_app_lem :
      (s : ℕ) (d : Disk)
      → (start_packet_at (d s)).fw_length ≤ 65535 * 512
      → ((load_app h s d).0 ≡ e_ok)
        × (bytes_of (load_app h s d).1 0 (start_packet_at (d s)).fw_length
            ≡ bytes_of (flat d (s + 1)) 0 (start_packet_at (d s)).fw_length)
  unfolding load_app
  load_app_lem s d p =
      let n = (start_packet_at (d s)).fw_length in
      let f = λ (k : ℕ). (h.read_blocks (s + 1) ((k + 512 - 1) % 2 ^ 32 / 512) d).1 in
      let e : (start_packet_at (read_block h s d).1).fw_length ≡ n =
        ap (λ q. q.fw_length) (packet-cong s d) in
      (
        refl,
        ap (λ k. bytes_of (f k) 0 n) e
            ∙ bytes_of-cong (f n) (flat d (s + 1)) 0 0 n (λ j q.
              let i : 0 + j ≡ j / 512 * 512 + j % 512 = omega arith in
              ap (f n) i
              ∙ w.buffers (s + 1) ((n + 512 - 1) % 2 ^ 32 / 512) d (j / 512) (j % 512) (omega arith)
                  (omega arith) (omega arith)
              ∙ cell d (s + 1 + j / 512) (s + 1 + (0 + j) / 512) (j % 512) ((0 + j) % 512)
                  (omega arith) (omega arith)),
      )

  -- On a device without faults: for a header that boot_validate_app accepts and a length of at most
  -- 65535 sectors, boot_load_app succeeds, and as many bytes of memory from the load address on as the header says have the
  -- checksum of the header.
  pub load_app-validate_app :
      (s : ℕ) (d : Disk)
      → validate_app h s d ≡ e_ok
      → (start_packet_at (d s)).fw_length ≤ 65535 * 512
      → ((load_app h s d).0 ≡ e_ok)
        × (finish (
              hw_update h.crc32b h.crc32h h.crc32w start
                (bytes_of (load_app h s d).1 0 (start_packet_at (d s)).fw_length))
            ≡ (start_packet_at (d s)).crc)
  load_app-validate_app s d v p =
      let l = load_app_lem s d p in
      let q = start_packet_at (d s) in
      let f = λ (xs : List ℕ). finish (hw_update h.crc32b h.crc32h h.crc32w start xs) in
      (
        l.0,
        ap f l.1
            ∙ accepted (q.version_num == 1) (not (q.fw_length == 0)) (image_crc s d) q.crc
                (sym (validate_app_lem s d) ∙ v),
      )

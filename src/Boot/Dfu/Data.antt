-- ===== src/Boot/Dfu/Data.antt =====
-- The image on its way to the disk: after `n` bytes of it, the full sectors are written and the rest is in
-- current_sector.
use rpitos.Prelude.{
  ℕ, ◌+◌, ◌-◌, ◌*◌, ◌/◌, ◌%◌, ◌<◌, ◌≤◌, ◌≡◌, ◌⊎◌, refl, ap, ◌∙◌, arith, true, false, ◌==◌, not, ltb,
  leb, Bool-cases, inl, inr,
}
use rpitos.Boot.Disk.{Disk, Machine, IsWorking, emmc_firmware_floor}
use rpitos.Boot.Dfu.Packet.{DfuPacket}
use rpitos.Boot.Dfu.{Session, copy_at, store_data}

copy_at-in :
    (f : ℕ → ℕ) (k i n : ℕ) (buf : ℕ → ℕ) (j : ℕ)
    → i ≤ j
    → j < i + n
    → copy_at f k i n buf j ≡ f (k + (j - i))
copy_at-in f k i n buf j p q = ground arith

copy_at-out : (f : ℕ → ℕ) (k i n : ℕ) (buf : ℕ → ℕ) (j : ℕ) → j < i → copy_at f k i n buf j ≡ buf j
copy_at-out f k i n buf j p = ground arith

-- `g` is the image, `d` the disk before, `n` the number of bytes that were received.
pub record IsStored (base : ℕ) (g : ℕ → ℕ) (d : Disk) (n : ℕ) (s : Session) : Type 0 where
  pub sector : s.dfu_base_sector ≡ base
  pub written : s.sectors_written ≡ 1 + n / 512
  pub counter : s.current_sector_counter ≡ n % 512
  pub unwritten : s.unwritten_sector ≡ not (n % 512 == 0)
  pub buffer : (j : ℕ) → j < n % 512 → s.current_sector j ≡ g (n / 512 * 512 + j)
  pub sectors : (k j : ℕ) → k < n / 512 → j < 512 → s.disk (base + 1 + k) j ≡ g (k * 512 + j)
  pub others : (a j : ℕ) → j < 512 → (a < base + 1) ⊎ (base + 1 + n / 512 ≤ a) → s.disk a j ≡ d a j

apart : (a b : ℕ) → (a < b) ⊎ (b < a) → (a == b) ≡ false
apart a b p = ground arith

-- The equation of the image at an index, moved along equal indices.
moved : (f g : ℕ → ℕ) (a b c e : ℕ) → a ≡ b → f b ≡ g c → c ≡ e → f a ≡ g e
moved f g a b c e l h r = ap f l ∙ h ∙ ap g r

module _ (h : Machine) (w : IsWorking h) (base : ℕ) (floor : emmc_firmware_floor ≤ base) (g : ℕ → ℕ)
    (d : Disk) where
  outside :
      (a n m : ℕ)
      → (a < base + 1) ⊎ (base + 1 + (n + m) / 512 ≤ a)
      → 512 ≤ n % 512 + m
      → (a < base + (1 + n / 512)) ⊎ (base + (1 + n / 512) < a)
  outside a n m (inl p) b = inl (omega arith)
  outside a n m (inr p) b = inr (omega arith)

  earlier :
      (a n m : ℕ)
      → (a < base + 1) ⊎ (base + 1 + (n + m) / 512 ≤ a)
      → (a < base + 1) ⊎ (base + 1 + n / 512 ≤ a)
  earlier a n m (inl p) = inl p
  earlier a n m (inr p) = inr (omega arith)

  pub store-part :
      (n : ℕ) (p : DfuPacket) (s : Session)
      → IsStored base g d n s
      → p.len ≤ 256
      → 0 < p.len
      → ((j : ℕ) → j < p.len → p.payload j ≡ g (n + j))
      → n % 512 + p.len < 512
      → IsStored base g d (n + p.len) (store_data h p s)
  unfolding store_data
  store-part n p s i l z e b =
      let t : leb 512 (s.current_sector_counter + p.len) ≡ false = ground (arith, i.counter) in
      rw t (record {
        sector = i.sector;
        written = omega (arith, i.written);
        counter = omega (arith, i.counter);
        unwritten = ground arith;
        buffer = λ j q. elim (Bool-cases (ltb j (n % 512))) [
          | inl u ↦
              rw i.counter
                (copy_at-out p.payload 0 (n % 512) p.len s.current_sector j (ground arith))
              ∙ moved s.current_sector g j j (n / 512 * 512 + j) ((n + p.len) / 512 * 512 + j) refl
                  (i.buffer j (ground arith)) (omega arith)
          | inr u ↦
              rw i.counter (
                copy_at-in p.payload 0 (n % 512) p.len s.current_sector j (ground arith)
                  (omega arith))
              ∙ moved p.payload g (0 + (j - n % 512)) (j - n % 512) (n + (j - n % 512))
                  ((n + p.len) / 512 * 512 + j) (omega arith) (e (j - n % 512) (omega arith))
                  (ground arith)
        ];
        sectors = λ k j q r. i.sectors k j (omega arith) r;
        others = λ a j q r. i.others a j q (ground arith);
      })

  -- The sector that is full, and what is on the disk once it is written.
  abbrev full : ℕ → DfuPacket → Session → ℕ → ℕ
  full n p s = copy_at p.payload 0 (n % 512) (p.len - (n % 512 + p.len - 512)) s.current_sector

  full-image :
      (n : ℕ) (p : DfuPacket) (s : Session)
      → IsStored base g d n s
      → ((j : ℕ) → j < p.len → p.payload j ≡ g (n + j))
      → 512 ≤ n % 512 + p.len
      → (j : ℕ) → j < 512
      → full n p s j ≡ g (n / 512 * 512 + j)
  full-image n p s i e b j r = elim (Bool-cases (ltb j (n % 512))) [
    | inl u ↦
        copy_at-out p.payload 0 (n % 512) (p.len - (n % 512 + p.len - 512)) s.current_sector j
          (ground arith)
        ∙ i.buffer j (ground arith)
    | inr u ↦
        copy_at-in p.payload 0 (n % 512) (p.len - (n % 512 + p.len - 512)) s.current_sector j
          (ground arith) (omega arith)
        ∙ moved p.payload g (0 + (j - n % 512)) (j - n % 512) (n + (j - n % 512))
            (n / 512 * 512 + j) (omega arith) (e (j - n % 512) (omega arith)) (ground arith)
  ]

  full-sectors :
      (n : ℕ) (p : DfuPacket) (s : Session)
      → IsStored base g d n s
      → p.len ≤ 256
      → ((j : ℕ) → j < p.len → p.payload j ≡ g (n + j))
      → 512 ≤ n % 512 + p.len
      → (k j : ℕ) → k < n / 512 + 1
      → j < 512
      → (h.write_block (base + (1 + n / 512)) (full n p s) s.disk).1 (base + 1 + k) j
        ≡ g (k * 512 + j)
  full-sectors n p s i l e b k j q r =
      w.sector (base + (1 + n / 512)) (full n p s) s.disk (base + 1 + k) j (omega arith) r
      ∙ elim (Bool-cases (k == n / 512)) [
        | inl u ↦
            let t : (base + 1 + k == base + (1 + n / 512)) ≡ true = ground arith in
            rw t (full-image n p s i e b j r ∙ ap g (ground arith))
        | inr u ↦
            let t : (base + 1 + k == base + (1 + n / 512)) ≡ false = ground arith in
            rw t (i.sectors k j (ground arith) r)
      ]

  pub store-full :
      (n : ℕ) (p : DfuPacket) (s : Session)
      → IsStored base g d n s
      → p.len ≤ 256
      → ((j : ℕ) → j < p.len → p.payload j ≡ g (n + j))
      → 512 ≤ n % 512 + p.len
      → IsStored base g d (n + p.len) (store_data h p s)
  unfolding store_data
  store-full n p s i l e b =
      let t : leb 512 (s.current_sector_counter + p.len) ≡ true = ground (arith, i.counter) in
      rw t (record {
        sector = i.sector;
        written = omega (arith, i.written);
        counter = omega (arith, i.counter);
        unwritten = ground arith;
        buffer = λ j q.
            rw i.counter (
              copy_at-in p.payload (p.len - (n % 512 + p.len - 512)) 0 (n % 512 + p.len - 512)
                (full n p s) j (omega arith) (omega arith))
            ∙ moved p.payload g (p.len - (n % 512 + p.len - 512) + (j - 0))
                (p.len - (n % 512 + p.len - 512) + j) (n + (p.len - (n % 512 + p.len - 512) + j))
                ((n + p.len) / 512 * 512 + j) (omega arith)
                (e (p.len - (n % 512 + p.len - 512) + j) (omega arith)) (omega arith);
        sectors = λ k j q r.
            rw (i.counter, i.sector, i.written) (full-sectors n p s i l e b k j (omega arith) r);
        others = λ a j q r.
            rw (i.counter, i.sector, i.written)
              (w.sector (base + (1 + n / 512)) (full n p s) s.disk a j (omega arith) q
                ∙ rw (apart a (base + (1 + n / 512)) (outside a n p.len r b))
                    (i.others a j q (earlier a n p.len r)));
      })

-- ===== src/Emmc/Transfer/Sectors.antt =====
-- The commands of a transfer.
use rpitos.Prelude.{
  ℕ, zero, suc, ◌+◌, ◌-◌, ◌*◌, ◌%◌, ◌^◌, ◌<◌, ◌≤◌, ◌≡◌, ◌⊎◌, Bool, true, false, ◌&&◌, ◌==◌, ltb,
  if◌then◌else◌, update, arith, refl, Bool-cases, inl, inr,
}
use rpitos.Status.{Status, Run}
use rpitos.Boot.Disk.{sector_size, emmc_firmware_floor}
use rpitos.Emmc.{Host}
use rpitos.Emmc.Adma.{
  Adma2Desc, Filled, too_large, filled, fill, line, chunk_of, mark_last, build_adma2_table,
}
use rpitos.Emmc.Spy.{Traced, fresh, spy, spy-IsGuard, IsAll}
use rpitos.Emmc.Transfer.{
  Driver, card_address, by_dma, cmd17, cmd18, cmd24, cmd25, read_blocks, write_blocks,
}
use rpitos.Emmc.Transfer.Kept.{IsRun, IsDone, tried-IsRun, read_pio-IsKept, write_pio-IsKept}

-- At least so many lines, where the loop ends.
abbrev HasLines : ℕ → Filled → Type 0
HasLines n (too_large t) = Unit
HasLines n (filled m t) = n ≤ m

fewer : (n : ℕ) (x : Filled) → HasLines (n + 1) x → HasLines n x
fewer n (too_large t) p = tt
fewer n (filled m t) p = omega (arith, p)

either :
    (n : ℕ) (b : Bool) (x y : Filled)
    → HasLines n x
    → HasLines n y
    → HasLines n (if b then x else y)
either n true x y p q = p
either n false x y p q = q

fill-HasLines : (room a r n : ℕ) (t : ℕ → Adma2Desc) → HasLines n (fill room a r n t)
unfolding fill
fill-HasLines zero a r n t = either n (r == 0) (filled n t) (too_large t) (omega arith) tt
fill-HasLines (suc room) a r n t =
    let c = chunk_of r in
    let rest = fill room ((a + c) % 2 ^ 32) (r - c) (n + 1) (update t n (line a c)) in
    either n (r == 0) (filled n t) rest (omega arith)
      (fewer n rest (fill-HasLines room ((a + c) % 2 ^ 32) (r - c) (n + 1) (update t n (line a c))))

mark_last-IsDone : (x : Filled) → HasLines 1 x → IsDone (mark_last x)
unfolding mark_last
mark_last-IsDone (too_large t) p = tt
mark_last-IsDone (filled zero t) p = absurd (omega (arith, p))
mark_last-IsDone (filled (suc n) t) p = tt

fill-HasOne :
    (room a r : ℕ) (t : ℕ → Adma2Desc) → (r == 0) ≡ false → HasLines 1 (fill (suc room) a r 0 t)
unfolding fill
fill-HasOne room a r t e =
    let c = chunk_of r in
    rw e (fill-HasLines room ((a + c) % 2 ^ 32) (r - c) 1 (update t 0 (line a c)))

build-IsDone :
    (buf total : ℕ) (t : ℕ → Adma2Desc)
    → (total == 0) ≡ false
    → IsDone (build_adma2_table buf total t)
unfolding build_adma2_table
build-IsDone buf total t e =
    mark_last-IsDone (fill 130 buf total 0 t) (fill-HasOne 129 buf total t e)

-- The argument of a command for a sector: its number, or the place of its first byte.
pub data IsAt (d : Driver) (sector arg : ℕ) : Type 0 where
  by_sector : d.is_high_capacity ≡ true → arg ≡ sector → IsAt d sector arg
  by_byte : d.is_high_capacity ≡ false → arg ≡ sector * 512 → IsAt d sector arg

-- The card can address the sector.
abbrev pub IsReachable : Driver → ℕ → Type 0
IsReachable d sector = (d.is_high_capacity ≡ true) ⊎ (sector < 2 ^ 23)

card_address-IsAt :
    (d : Driver) (sector : ℕ) → IsReachable d sector → IsAt d sector (card_address d sector)
card_address-IsAt d sector (inl e) = by_sector e (rw e refl)
card_address-IsAt d sector (inr l) = elim (Bool-cases d.is_high_capacity) [
  | inl e ↦ by_sector e (rw e refl)
  | inr e ↦ by_byte e (rw e (omega (arith, l)))
]

-- The commands of a read and of a write, and the address in each.
pub record IsRead (d : Driver) (sector cmd arg : ℕ) : Type 0 where
  pub address : IsAt d sector arg
  pub command : (cmd ≡ cmd17) ⊎ (cmd ≡ cmd18) ⊎ (cmd ≡ by_dma cmd18)

pub record IsWrite (d : Driver) (sector cmd arg : ℕ) : Type 0 where
  pub floor : emmc_firmware_floor ≤ sector
  pub address : IsAt d sector arg
  pub command : (cmd ≡ cmd24) ⊎ (cmd ≡ cmd25) ⊎ (cmd ≡ by_dma cmd25)

single :
    (b : Bool) (x y z : ℕ)
    → ((if b then x else y) ≡ x) ⊎ ((if b then x else y) ≡ y) ⊎ ((if b then x else y) ≡ z)
single true x y z = inl refl
single false x y z = inr (inl refl)

-- A transfer returns and all the commands it gave are those.
abbrev pub Issues : {S : Type 0} → (ℕ → ℕ → Type 0) → Run (Status × Traced S) → Type 0
Issues Allowed x = IsRun (λ t. IsAll Allowed t.commands) x

branch :
    {S : Type 0} (Allowed : ℕ → ℕ → Type 0) (b : Bool) (x y : Run (Status × Traced S))
    → (b ≡ true → Issues Allowed x)
    → (b ≡ false → Issues Allowed y)
    → Issues Allowed (if b then x else y)
branch Allowed true x y p q = p refl
branch Allowed false x y p q = q refl

some_bytes :
    (count : ℕ)
    → count < 2 ^ 23
    → (count == 0) ≡ false
    → (count * sector_size % 2 ^ 32 == 0) ≡ false
some_bytes count p e = ground arith

read_blocks-Issues :
    {S : Type 0} (h : Host S) (d : Driver) (sector buf count : ℕ) (s : S)
    → count < 2 ^ 23
    → IsReachable d sector
    → Issues (IsRead d sector) (read_blocks (spy h) d sector buf count (fresh s))
unfolding read_blocks
read_blocks-Issues h d sector buf count s p at =
    let Allowed = IsRead d sector in
    let g = spy-IsGuard h Allowed in
    let pio = read_pio-IsKept (spy h) Allowed _ g d sector buf count (record {
      address = card_address-IsAt d sector at;
      command = single (count == 1) cmd17 cmd18 (by_dma cmd18);
    }) in
    branch Allowed (count == 0) _ _ (λ e. tt)
      (λ e.
        branch Allowed (d.adma2_supported && ltb 1 count) _ _
          (λ f.
            tried-IsRun (spy h) Allowed _ g d cmd18 sector buf count false _
              (record { address = card_address-IsAt d sector at; command = inr (inr refl) }) pio
              (fresh s) (build-IsDone buf _ (h.table s) (some_bytes count p e)) tt)
          (λ f. pio (fresh s) tt))

write_blocks-Issues :
    {S : Type 0} (h : Host S) (d : Driver) (sector buf count : ℕ) (s : S)
    → count < 2 ^ 23
    → IsReachable d sector
    → Issues (IsWrite d sector) (write_blocks (spy h) d sector buf count (fresh s))
unfolding write_blocks
write_blocks-Issues h d sector buf count s p at =
    let Allowed = IsWrite d sector in
    let g = spy-IsGuard h Allowed in
    branch Allowed (count == 0) _ _ (λ e. tt)
      (λ e.
        branch Allowed (ltb sector emmc_firmware_floor) _ _ (λ f. tt)
          (λ f.
            let above : emmc_firmware_floor ≤ sector = ground arith in
            let pio = write_pio-IsKept (spy h) Allowed _ g d sector buf count (record {
              floor = above;
              address = card_address-IsAt d sector at;
              command = single (count == 1) cmd24 cmd25 (by_dma cmd25);
            }) in
            branch Allowed (d.adma2_supported && ltb 1 count) _ _
              (λ f.
                tried-IsRun (spy h) Allowed _ g d cmd25 sector buf count true _
                  (record {
                    floor = above;
                    address = card_address-IsAt d sector at;
                    command = inr (inr refl);
                  })
                  pio (fresh s) (build-IsDone buf _ (h.table s) (some_bytes count p e)) tt)
              (λ f. pio (fresh s) tt)))

-- emmc_read_blocks and emmc_write_blocks of fewer than 2^23 sectors, on a card that is addressed by
-- sectors, or by bytes for a sector below 2^23, whatever the controller and the card do: both return. Every
-- command that a read gives reads at its sector; every command that a write gives writes at its sector, which is
-- not below the firmware's floor, so a write below the floor gives no command at all. The argument of a command
-- is the number of the sector, or that times 512 on a card that is addressed by bytes.
pub transfers-Issues :
    {S : Type 0} (h : Host S) (d : Driver) (sector buf count : ℕ) (s : S)
    → count < 2 ^ 23
    → IsReachable d sector
    → Issues (IsRead d sector) (read_blocks (spy h) d sector buf count (fresh s))
      × Issues (IsWrite d sector) (write_blocks (spy h) d sector buf count (fresh s))
transfers-Issues h d sector buf count s p at = (
  read_blocks-Issues h d sector buf count s p at,
  write_blocks-Issues h d sector buf count s p at,
)

-- ===== src/Emmc/Transfer/Kept.antt =====
-- What the transfers preserve.
use rpitos.Prelude.{ℕ, zero, suc, ◌+◌, ◌*◌, ◌%◌, ◌^◌, Bool, ◌==◌, if◌then◌else◌}
use rpitos.Status.{Status, is_ok, Run, done, fault, spin}
use rpitos.Boot.Disk.{sector_size}
use rpitos.Emmc.Adma.{Adma2Desc, build_adma2_table}
use rpitos.Emmc.{Host, control0, control1, blksizecnt, data_port, adma_address}
use rpitos.Emmc.Commands.{
  IsPlain, IsGuard, IsKept, on_ok-IsKept, if-IsKept, send_command-IsKept, wait_interrupt-IsKept,
  wait_status-IsKept, wait_clear-IsKept, modify-IsKept,
}
use rpitos.Emmc.Transfer.{
  Driver, card_address, by_dma, cmd17, cmd18, cmd24, cmd25, with_table, start_adma2, run_adma2,
  xfer_adma2, reset_cmd_data, or_pio, read_words, read_each, read_pio, write_words, write_each,
  write_pio,
}

abbrev pub IsRun : {S : Type 0} → (S → Type 0) → Run (Status × S) → Type 0
IsRun P (done r) = P r.1
IsRun P fault = ⊥
IsRun P spin = ⊥

-- A run that returns.
abbrev pub IsDone : {A : Type 0} → Run A → Type 0
IsDone (done x) = Unit
IsDone fault = ⊥
IsDone spin = ⊥

plain :
    IsPlain blksizecnt
    × IsPlain data_port
    × IsPlain adma_address
    × IsPlain control0
    × IsPlain control1
plain = ((cc, cc), (cc, cc), (cc, cc), (cc, cc), (cc, cc))

module _ {S : Type 0} (h : Host S) (Allowed : ℕ → ℕ → Type 0) (P : S → Type 0)
    (g : IsGuard h Allowed P) where
  run_adma2-IsKept :
      (d : Driver) (cmd sector count : ℕ) (is_write : Bool)
      → Allowed (by_dma cmd) (card_address d sector)
      → IsKept P (run_adma2 h d cmd sector count is_write)
  unfolding run_adma2 start_adma2
  run_adma2-IsKept d cmd sector count is_write a s p =
      on_ok-IsKept P _ _ _
        (λ t q.
          on_ok-IsKept P _ _ _
            (λ u r.
              if-IsKept P _ _ _
                (on_ok-IsKept P _ _ _ (λ v w. w) _ (wait_status-IsKept h Allowed P g _ 5000 u r)) r)
            _ (wait_interrupt-IsKept h Allowed P g _ _ t q))
        _
        (send_command-IsKept h Allowed P g _ _ a _ (
          g.write blksizecnt _ _ plain.0 (
            g.write adma_address _ _ plain.2 (modify-IsKept h Allowed P g control0 _ plain.3 s p))))

  with_table-IsRun :
      (go : S → Status × S) (s : S) (x : Run (ℕ × (ℕ → Adma2Desc)))
      → IsDone x
      → IsKept P go
      → P s
      → IsRun P (with_table h go s x)
  unfolding with_table
  with_table-IsRun go s (done (zero, t)) v k p = g.set_table t s p
  with_table-IsRun go s (done (suc n, t)) v k p = k _ (g.set_table t s p)
  with_table-IsRun go s fault v k p = absurd v
  with_table-IsRun go s spin v k p = absurd v

  reset-IsKept : (s : S) → P s → P (reset_cmd_data h s)
  unfolding reset_cmd_data
  reset-IsKept s p =
      wait_clear-IsKept h Allowed P g control1 _ 9999 _
        (modify-IsKept h Allowed P g control1 _ plain.4 s p)

  or_pio-IsRun :
      (pio : S → Status × S) (x : Run (Status × S))
      → IsKept P pio
      → IsRun P x
      → IsRun P (or_pio h pio x)
  unfolding or_pio
  or_pio-IsRun pio (done r) k p =
      if-IsKept P (is_ok r.0) r (pio (reset_cmd_data h r.1)) p (k _ (reset-IsKept r.1 p))
  or_pio-IsRun pio fault k p = absurd p
  or_pio-IsRun pio spin k p = absurd p

  -- The transfer by ADMA2, and without it where it fails.
  pub tried-IsRun :
      (d : Driver) (cmd sector buf count : ℕ) (is_write : Bool) (pio : S → Status × S)
      → Allowed (by_dma cmd) (card_address d sector)
      → IsKept P pio
      → (s : S) → IsDone (build_adma2_table buf (count * sector_size % 2 ^ 32) (h.table s))
      → P s
      → IsRun P (or_pio h pio (xfer_adma2 h d cmd sector buf count is_write s))
  unfolding xfer_adma2
  tried-IsRun d cmd sector buf count is_write pio a k s v p =
      or_pio-IsRun pio _ k
        (with_table-IsRun _ s _ v (run_adma2-IsKept d cmd sector count is_write a) p)

  pub read_words-kept : (n a : ℕ) (s : S) → P s → P (read_words h n a s)
  unfolding read_words
  read_words-kept zero a s p = p
  read_words-kept (suc n) a s p = read_words-kept n (a + 4) _ (g.store a _ _ (g.read data_port s p))

  read_each-IsKept : (n a : ℕ) → IsKept P (read_each h n a)
  unfolding read_each
  read_each-IsKept zero a s p = p
  read_each-IsKept (suc n) a s p =
      on_ok-IsKept P _ _ _ (λ t q. read_each-IsKept n _ _ (read_words-kept 128 a t q)) _
        (wait_interrupt-IsKept h Allowed P g _ 2000 s p)

  pub read_pio-IsKept :
      (d : Driver) (sector buf count : ℕ)
      → Allowed (if count == 1 then cmd17 else cmd18) (card_address d sector)
      → IsKept P (read_pio h d sector buf count)
  unfolding read_pio
  read_pio-IsKept d sector buf count a s p =
      on_ok-IsKept P _ _ _
        (λ t q.
          on_ok-IsKept P _ _ _
            (λ u r.
              on_ok-IsKept P _ _ _ (λ v w. w) _ (wait_interrupt-IsKept h Allowed P g _ 2000 u r))
            _ (read_each-IsKept count buf t q))
        _ (send_command-IsKept h Allowed P g _ _ a _ (g.write blksizecnt _ _ plain.0 p))

  write_words-kept : (n a : ℕ) (s : S) → P s → P (write_words h n a s)
  unfolding write_words
  write_words-kept zero a s p = p
  write_words-kept (suc n) a s p = write_words-kept n (a + 4) _ (g.write data_port _ _ plain.1 p)

  write_each-IsKept : (n a : ℕ) → IsKept P (write_each h n a)
  unfolding write_each
  write_each-IsKept zero a s p = p
  write_each-IsKept (suc n) a s p =
      on_ok-IsKept P _ _ _ (λ t q. write_each-IsKept n _ _ (write_words-kept 128 a t q)) _
        (wait_interrupt-IsKept h Allowed P g _ 2000 s p)

  pub write_pio-IsKept :
      (d : Driver) (sector buf count : ℕ)
      → Allowed (if count == 1 then cmd24 else cmd25) (card_address d sector)
      → IsKept P (write_pio h d sector buf count)
  unfolding write_pio
  write_pio-IsKept d sector buf count a s p =
      on_ok-IsKept P _ _ _
        (λ t q.
          on_ok-IsKept P _ _ _
            (λ u r.
              on_ok-IsKept P _ _ _
                (λ v w.
                  on_ok-IsKept P _ _ _ (λ x y. y) _ (wait_status-IsKept h Allowed P g _ 5000 v w))
                _ (wait_interrupt-IsKept h Allowed P g _ 5000 u r))
            _ (write_each-IsKept count buf t q))
        _ (send_command-IsKept h Allowed P g _ _ a _ (g.write blksizecnt _ _ plain.0 p))

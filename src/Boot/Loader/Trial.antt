-- ===== src/Boot/Loader/Trial.antt =====
-- A slot on trial over several boots.
use rpitos.Prelude.{ℕ, zero, suc, ◌+◌, ◌<◌, ◌≡◌, ◌≢◌, refl, sym, ap, ◌∙◌, arith, ◌⊎◌, ◌≤◌, inl, inr}
use mathlib.Core.Path.{subst}
use rpitos.Boot.Disk.{Disk, Machine, IsWorking, slot_other}
use rpitos.Boot.Flags.{BootFlags, flags_init}
use rpitos.Boot.Meta.{WdtMeta, read, write, seal, confirm_slot, confirm_read, confirmed}
use rpitos.Boot.Meta.Store.{IsWords, read-written, Holds, write-Holds}
use rpitos.Boot.Loader.{judge, bootloader_init, policy_rollback}
use rpitos.Boot.Loader.Steps.{
  IsInfinite, IsTolerated, apply_tolerance-tolerated, next, boot, IsSound, next-IsSound,
  seal-IsSound, IsAttempt, IsSettled, boot-IsAttempt, boot-rolls_back, boot-IsSettled,
  seal-IsAttempt, seal-IsSettled,
}

module _ (h : Machine) (w : IsWorking h) where
  judge-tolerated :
      (k : ℕ) (m : WdtMeta) (f : BootFlags) (d : Disk)
      → IsTolerated k (next m)
      → (judge h m f d).0 ≡ boot m
  unfolding judge
  judge-tolerated k m f d i = apply_tolerance-tolerated k (next m) f i

  -- What one boot makes of a disk that holds `m`.
  init_lem :
      (k : ℕ) (m m2 : WdtMeta) (f : BootFlags) (d : Disk)
      → IsSound (suc k) m
      → Holds h d m
      → ((bootloader_init h m2 f d).0 ≡ seal h (boot (seal h m)))
        × Holds h (bootloader_init h m2 f d).2 (boot (seal h m))
  unfolding bootloader_init write
  init_lem k m m2 f d s e =
      let g = flags_init f in
      let r : (read h m2 d).1 ≡ seal h m = ap (λ p. p.1) (read-written h m m2 d w s.words e) in
      let i = (next-IsSound k (seal h m) (seal-IsSound (suc k) h m s)).safe in
      let j : (judge h (read h m2 d).1 g d).0 ≡ boot (seal h m) =
        ap (λ x. (judge h x g d).0) r ∙ judge-tolerated k (seal h m) g d i in
      let after = (write h (judge h (read h m2 d).1 g d).0 d).2 in
      (ap (seal h) j, subst (Holds h after) j (write-Holds h (judge h (read h m2 d).1 g d).0 d w))

  IsAttempt-init :
      (slot n k : ℕ) (m m2 : WdtMeta) (f : BootFlags) (d : Disk)
      → n < 2
      → IsAttempt slot n (suc k) m
      → Holds h d m
      → IsAttempt slot (n + 1) k (bootloader_init h m2 f d).0
        × Holds h (bootloader_init h m2 f d).2 (boot (seal h m))
        × IsAttempt slot (n + 1) k (boot (seal h m))
  IsAttempt-init slot n k m m2 f d p a e =
      let i = init_lem k m m2 f d a.sound e in
      let b = boot-IsAttempt slot n k (seal h m) p (seal-IsAttempt h slot n (suc k) m a) in
      (
        subst (IsAttempt slot (n + 1) k) (sym i.0)
            (seal-IsAttempt h slot (n + 1) k (boot (seal h m)) b),
        i.1,
        b,
      )

  rolls_back-init :
      (slot k : ℕ) (m m2 : WdtMeta) (f : BootFlags) (d : Disk)
      → IsAttempt slot 2 (suc k) m
      → Holds h d m
      → IsSettled (slot_other slot) k (bootloader_init h m2 f d).0
  rolls_back-init slot k m m2 f d a e =
      let i = init_lem k m m2 f d a.sound e in
      subst (IsSettled (slot_other slot) k) (sym i.0) (
        seal-IsSettled h (slot_other slot) k (boot (seal h m))
          (boot-rolls_back slot k (seal h m) (seal-IsAttempt h slot 2 (suc k) m a)))

  -- On a device without faults, with metadata on the disk of a slot that is on trial and was not booted yet,
  -- whose policy for too many resets is not to roll back, or that tolerates any number of resets, or three more
  -- than were counted: over three boots, whatever the flags of each, the slot stays active and on trial in the
  -- first two, and the third makes the other slot active, off trial.
  pub bootloader_init-rolls_back :
      (m m2 : WdtMeta) (f1 f2 f3 : BootFlags) (d : Disk)
      → IsTolerated 3 m
      → IsWords m
      → Holds h d m
      → m.app_slot_trial ≢ 0
      → m.trial_boot_count ≡ 0
      → let b1 = bootloader_init h m2 f1 d in
        let b2 = bootloader_init h m2 f2 b1.2 in
        let b3 = bootloader_init h m2 f3 b2.2 in
        (b1.0.active_app_slot ≡ m.active_app_slot)
        × (b1.0.app_slot_trial ≢ 0)
        × (b2.0.active_app_slot ≡ m.active_app_slot)
        × (b2.0.app_slot_trial ≢ 0)
        × (b3.0.active_app_slot ≡ slot_other m.active_app_slot)
        × (b3.0.app_slot_trial ≡ 0)
  bootloader_init-rolls_back m m2 f1 f2 f3 d i v e t z =
      let slot = m.active_app_slot in
      let a : IsAttempt slot 0 3 m = record {
        sound = record { safe = i; words = v };
        trial = t;
        boots = z;
        active = refl;
      } in
      let (a1, e1, n1) = IsAttempt-init slot 0 2 m m2 f1 d (omega arith) a e in
      let d1 = (bootloader_init h m2 f1 d).2 in
      let m1 = boot (seal h m) in
      let (a2, e2, n2) = IsAttempt-init slot 1 1 m1 m2 f2 d1 (omega arith) n1 e1 in
      let a3 =
        rolls_back-init slot 0 (boot (seal h m1)) m2 f3 (bootloader_init h m2 f2 d1).2 n2 e2 in
      (a1.active, a1.trial, a2.active, a2.trial, a3.active, a3.trial)

  IsSettled-init :
      (slot k : ℕ) (m m2 : WdtMeta) (f : BootFlags) (d : Disk)
      → IsSettled slot (suc k) m
      → Holds h d m
      → IsSettled slot k (bootloader_init h m2 f d).0
        × Holds h (bootloader_init h m2 f d).2 (boot (seal h m))
        × IsSettled slot k (boot (seal h m))
  IsSettled-init slot k m m2 f d a e =
      let i = init_lem k m m2 f d a.sound e in
      let b = boot-IsSettled slot k (seal h m) (seal-IsSettled h slot (suc k) m a) in
      (subst (IsSettled slot k) (sym i.0) (seal-IsSettled h slot k (boot (seal h m)) b), i.1, b)

  -- The metadata after a number of boots, and one more.
  abbrev pub boot_times : ℕ → WdtMeta → (ℕ → BootFlags) → Disk → WdtMeta
  boot_times zero m f d = (bootloader_init h m (f 0) d).0
  boot_times (suc n) m f d = boot_times n m (λ i. f (i + 1)) (bootloader_init h m (f 0) d).2

  IsSettled-boots :
      (slot n : ℕ) (m m2 : WdtMeta) (f : ℕ → BootFlags) (d : Disk)
      → IsSettled slot (suc n) m
      → Holds h d m
      → IsSettled slot 0 (boot_times n m2 f d)
  IsSettled-boots slot zero m m2 f d a e = (IsSettled-init slot 0 m m2 (f 0) d a e).0
  IsSettled-boots slot (suc n) m m2 f d a e =
      let (_, e1, a1) = IsSettled-init slot (suc n) m m2 (f 0) d a e in
      IsSettled-boots slot n (boot (seal h m)) m2 (λ i. f (i + 1)) (bootloader_init h m2 (f 0) d).2
        a1 e1

  confirm-Holds :
      (m m2 : WdtMeta) (d : Disk)
      → IsWords m
      → Holds h d m
      → Holds h (confirm_slot h m2 d).2 (confirmed (seal h m))
  unfolding confirm_read
  confirm-Holds m m2 d v e =
      let r = read-written h m m2 d w v e in
      subst (λ p. Holds h (confirm_read h p.0 p.1 d).2 (confirmed (seal h m))) (sym r)
        (write-Holds h (confirmed (seal h m)) d w)

  confirmed-IsTolerated :
      (n : ℕ) (m : WdtMeta)
      → (m.wdt_reset_policy ≢ policy_rollback) ⊎ IsInfinite m ⊎ (suc n ≤ m.wdt_reset_tolerance)
      → IsTolerated (suc n) (confirmed (seal h m))
  unfolding seal
  confirmed-IsTolerated n m (inl p) = inl p
  confirmed-IsTolerated n m (inr (inl i)) = inr (inl i)
  confirmed-IsTolerated n m (inr (inr c)) = inr (inr (omega (arith, c)))

  -- On a device without faults, with metadata on the disk whose policy for too many resets is not to roll back,
  -- or that tolerates any number of resets, or as many as the boots that follow: after wdt_meta_confirm_slot,
  -- whatever number of resets was counted before, the slot that was active is active after these boots,
  -- whatever their flags.
  pub confirm_slot-bootloader_init :
      (n : ℕ) (m m2 m3 : WdtMeta) (f : ℕ → BootFlags) (d : Disk)
      → (m.wdt_reset_policy ≢ policy_rollback) ⊎ IsInfinite m ⊎ (suc n ≤ m.wdt_reset_tolerance)
      → IsWords m
      → Holds h d m
      → (boot_times n m3 f (confirm_slot h m2 d).2).active_app_slot ≡ m.active_app_slot
  unfolding seal
  confirm_slot-bootloader_init n m m2 m3 f d i u e =
      let a : IsSettled m.active_app_slot (suc n) (confirmed (seal h m)) = record {
        sound = record {
          safe = confirmed-IsTolerated n m i;
          words = record {
            count = omega arith;
            tolerance = u.tolerance;
            policy = u.policy;
            reason = u.reason;
            slot = u.slot;
            trial = omega arith;
            boots = omega arith;
          };
        };
        trial = refl;
        active = refl;
      } in
      (IsSettled-boots m.active_app_slot n (confirmed (seal h m)) m3 f (confirm_slot h m2 d).2 a
        (confirm-Holds m m2 d u e)).active

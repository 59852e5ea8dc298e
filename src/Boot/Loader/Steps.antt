-- ===== src/Boot/Loader/Steps.antt =====
-- What one boot makes of the metadata, where its policy does not roll the slot back.
use rpitos.Prelude.{
  ℕ, ◌+◌, ◌%◌, ◌^◌, ◌<◌, ◌≤◌, ◌≡◌, ◌≢◌, ◌⊎◌, refl, sym, ap, ◌∙◌, arith, false, ◌==◌, Bool-cases,
  inl, inr, leb, suc, true, ◌&&◌, if◌then◌else◌,
}
use mathlib.Core.Path.{subst}
use rpitos.Boot.Disk.{Machine, slot_other}
use rpitos.Boot.Flags.{BootFlags}
use rpitos.Boot.Meta.{WdtMeta, seal}
use rpitos.Boot.Meta.Store.{IsWords}
use rpitos.Boot.Loader.{
  resolve_trial, apply_tolerance, count_reset, roll_back, nonnegative, tolerance_exceeded,
  policy_rollback, policy_force_update,
}

-- No number of resets is too large.
abbrev pub IsInfinite : WdtMeta → Type 0
IsInfinite m = 2 ^ 31 ≤ m.wdt_reset_tolerance

-- Too many resets do not roll the slot back, or `n` more resets are not too many.
abbrev pub IsTolerated : ℕ → WdtMeta → Type 0
IsTolerated n m =
    (m.wdt_reset_policy ≢ policy_rollback)
    ⊎ IsInfinite m
    ⊎ (m.wdt_reset_count + n ≤ m.wdt_reset_tolerance)

-- The metadata after the policy for too many resets, where that is not to roll back.
abbrev pub tolerated : WdtMeta → WdtMeta
tolerated m =
    if tolerance_exceeded m && (m.wdt_reset_policy == policy_force_update)
    then record m { wdt_reset_count = 0 }
    else m

not_exceeded :
    (m : WdtMeta) (f : BootFlags)
    → tolerance_exceeded m ≡ false
    → (apply_tolerance m f).0 ≡ tolerated m
unfolding apply_tolerance
not_exceeded m f e = rw e refl

other_policy :
    (m : WdtMeta) (f : BootFlags)
    → (m.wdt_reset_policy == policy_rollback) ≡ false
    → (apply_tolerance m f).0 ≡ tolerated m
unfolding apply_tolerance
other_policy m f e = elim (Bool-cases (tolerance_exceeded m)) [
  | inl x ↦ elim (Bool-cases (m.wdt_reset_policy == policy_force_update)) [
    | inl u ↦ rw (x, u) refl
    | inr u ↦ rw (x, u, e) refl
  ]
  | inr x ↦ rw x refl
]

infinite_fits : (m : WdtMeta) → IsInfinite m → tolerance_exceeded m ≡ false
infinite_fits m i = let e : nonnegative m.wdt_reset_tolerance ≡ false = ground arith in rw e refl

fits :
    (n : ℕ) (m : WdtMeta)
    → m.wdt_reset_count + n ≤ m.wdt_reset_tolerance
    → tolerance_exceeded m ≡ false
fits n m c = ground arith

pub apply_tolerance-tolerated :
    (n : ℕ) (m : WdtMeta) (f : BootFlags) → IsTolerated n m → (apply_tolerance m f).0 ≡ tolerated m
apply_tolerance-tolerated n m f (inl p) = other_policy m f (ground arith)
apply_tolerance-tolerated n m f (inr (inl i)) = not_exceeded m f (infinite_fits m i)
apply_tolerance-tolerated n m f (inr (inr c)) = not_exceeded m f (fits n m c)

-- One boot of a device whose policy does not roll back, before that policy and after it.
abbrev pub next : WdtMeta → WdtMeta
next m = count_reset (resolve_trial m).0

abbrev pub boot : WdtMeta → WdtMeta
boot m = tolerated (next m)

-- The words are in range, and the policy does not roll the slot back in `n` more boots.
pub record IsSound (n : ℕ) (m : WdtMeta) : Type 0 where
  pub safe : IsTolerated n m
  pub words : IsWords m

pub slot_other-word : (s : ℕ) → slot_other s < 2 ^ 32
slot_other-word s = ground arith

pub next-untried : (m : WdtMeta) → m.app_slot_trial ≡ 0 → next m ≡ count_reset m
unfolding resolve_trial
next-untried m e = rw e refl

pub next-tried :
    (m : WdtMeta)
    → m.app_slot_trial ≢ 0
    → m.trial_boot_count < 2
    → next m ≡ count_reset (record m { trial_boot_count = m.trial_boot_count + 1 })
unfolding resolve_trial
next-tried m t b =
    let e1 : (m.app_slot_trial == 0) ≡ false = ground arith in
    let e2 : (m.trial_boot_count + 1) % 2 ^ 32 ≡ m.trial_boot_count + 1 = omega arith in
    let e3 : leb 3 (m.trial_boot_count + 1) ≡ false = ground arith in rw (e1, e2, e3) refl

pub next-third :
    (m : WdtMeta)
    → m.app_slot_trial ≢ 0
    → m.trial_boot_count ≡ 2
    → next m ≡ count_reset (roll_back m)
unfolding resolve_trial
next-third m t b = let e1 : (m.app_slot_trial == 0) ≡ false = ground arith in rw (e1, b) refl

pub resolve_trial-cases :
    (m : WdtMeta)
    → ((resolve_trial m).0 ≡ m)
      ⊎ ((resolve_trial m).0 ≡ record m { trial_boot_count = (m.trial_boot_count + 1) % 2 ^ 32 })
      ⊎ ((resolve_trial m).0 ≡ roll_back m)
unfolding resolve_trial
resolve_trial-cases m = elim (Bool-cases (m.app_slot_trial == 0)) [
  | inl e ↦ inl (rw e refl)
  | inr e ↦ elim (Bool-cases (leb 3 ((m.trial_boot_count + 1) % 2 ^ 32))) [
    | inl e2 ↦ inr (inr (rw (e, e2) refl))
    | inr e2 ↦ inr (inl (rw (e, e2) refl))
  ]
]

one_less :
    (n : ℕ) (m : WdtMeta)
    → m.wdt_reset_tolerance < 2 ^ 32
    → IsTolerated (suc n) m
    → IsTolerated n (count_reset m)
one_less n m w (inl p) = inl p
one_less n m w (inr (inl i)) = inr (inl i)
one_less n m w (inr (inr c)) = inr (inr (omega (arith, c, w)))

count_reset-IsSound : (n : ℕ) (m : WdtMeta) → IsSound (suc n) m → IsSound n (count_reset m)
count_reset-IsSound n m s =
    let v = s.words in
    record {
      safe = one_less n m v.tolerance s.safe;
      words = record {
        count = omega arith;
        tolerance = v.tolerance;
        policy = v.policy;
        reason = v.reason;
        slot = v.slot;
        trial = v.trial;
        boots = v.boots;
      };
    }

attempt-IsSound :
    (i : ℕ) (m : WdtMeta) (slot trial n : ℕ)
    → slot < 2 ^ 32
    → trial < 2 ^ 32
    → n < 2 ^ 32
    → IsSound i m
    → IsSound i (record m { active_app_slot = slot; app_slot_trial = trial; trial_boot_count = n })
attempt-IsSound i m slot trial n p q r s =
    let v = s.words in
    record {
      safe = s.safe;
      words = record {
        count = v.count;
        tolerance = v.tolerance;
        policy = v.policy;
        reason = v.reason;
        slot = p;
        trial = q;
        boots = r;
      };
    }

pub next-IsSound : (n : ℕ) (m : WdtMeta) → IsSound (suc n) m → IsSound n (next m)
next-IsSound n m s = count_reset-IsSound n (resolve_trial m).0 (elim (resolve_trial-cases m) [
  | inl e ↦ subst (IsSound (suc n)) (sym e) s
  | inr (inl e) ↦ subst (IsSound (suc n)) (sym e) (
      attempt-IsSound (suc n) m m.active_app_slot m.app_slot_trial
        ((m.trial_boot_count + 1) % 2 ^ 32) s.words.slot s.words.trial (omega arith) s)
  | inr (inr e) ↦ subst (IsSound (suc n)) (sym e) (
      attempt-IsSound (suc n) m (slot_other m.active_app_slot) 0 0
        (slot_other-word m.active_app_slot) (omega arith) (omega arith) s)
])

not_rollback :
    (m : WdtMeta)
    → tolerance_exceeded m && (m.wdt_reset_policy == policy_force_update) ≡ true
    → m.wdt_reset_policy ≢ policy_rollback
not_rollback m e = elim (Bool-cases (m.wdt_reset_policy == policy_force_update)) [
  | inl u ↦ ground arith
  | inr u ↦ ground arith
]

tolerated-IsSound : (n : ℕ) (m : WdtMeta) → IsSound n m → IsSound n (tolerated m)
tolerated-IsSound n m s =
    elim (Bool-cases (tolerance_exceeded m && (m.wdt_reset_policy == policy_force_update))) [
      | inl e ↦ rw e (record {
        safe = inl (not_rollback m e);
        words = record {
          count = omega arith;
          tolerance = s.words.tolerance;
          policy = s.words.policy;
          reason = s.words.reason;
          slot = s.words.slot;
          trial = s.words.trial;
          boots = s.words.boots;
        };
      })
      | inr e ↦ rw e s
    ]

pub boot-IsSound : (n : ℕ) (m : WdtMeta) → IsSound (suc n) m → IsSound n (boot m)
boot-IsSound n m s = tolerated-IsSound n (next m) (next-IsSound n m s)

tolerated-keeps :
    (m : WdtMeta)
    → ((tolerated m).app_slot_trial ≡ m.app_slot_trial)
      × ((tolerated m).trial_boot_count ≡ m.trial_boot_count)
      × ((tolerated m).active_app_slot ≡ m.active_app_slot)
tolerated-keeps m =
    elim (Bool-cases (tolerance_exceeded m && (m.wdt_reset_policy == policy_force_update))) [
      | inl e ↦ rw e (refl, refl, refl)
      | inr e ↦ rw e (refl, refl, refl)
    ]

pub seal-IsSound : (n : ℕ) (h : Machine) (m : WdtMeta) → IsSound n m → IsSound n (seal h m)
unfolding seal
seal-IsSound n h m s =
    let v = s.words in
    record {
      safe = s.safe;
      words = record {
        count = v.count;
        tolerance = v.tolerance;
        policy = v.policy;
        reason = v.reason;
        slot = v.slot;
        trial = v.trial;
        boots = v.boots;
      };
    }

-- A slot on trial after `n` boots, and one that is not on trial, with `i` boots to come.
pub record IsAttempt (slot n i : ℕ) (m : WdtMeta) : Type 0 where
  pub sound : IsSound i m
  pub trial : m.app_slot_trial ≢ 0
  pub boots : m.trial_boot_count ≡ n
  pub active : m.active_app_slot ≡ slot

pub record IsSettled (slot i : ℕ) (m : WdtMeta) : Type 0 where
  pub sound : IsSound i m
  pub trial : m.app_slot_trial ≡ 0
  pub active : m.active_app_slot ≡ slot

pub boot-IsAttempt :
    (slot n i : ℕ) (m : WdtMeta)
    → n < 2
    → IsAttempt slot n (suc i) m
    → IsAttempt slot (n + 1) i (boot m)
boot-IsAttempt slot n i m p a =
    let e = next-tried m a.trial (omega (arith, a.boots)) in
    let k = tolerated-keeps (next m) in
    record {
      sound = boot-IsSound i m a.sound;
      trial = subst (λ x. x ≢ 0) (sym (k.0 ∙ ap (λ x. x.app_slot_trial) e)) a.trial;
      boots = k.1 ∙ ap (λ x. x.trial_boot_count) e ∙ ap (λ k. k + 1) a.boots;
      active = k.2 ∙ ap (λ x. x.active_app_slot) e ∙ a.active;
    }

pub boot-rolls_back :
    (slot i : ℕ) (m : WdtMeta) → IsAttempt slot 2 (suc i) m → IsSettled (slot_other slot) i (boot m)
boot-rolls_back slot i m a =
    let e = next-third m a.trial a.boots in
    let k = tolerated-keeps (next m) in
    record {
      sound = boot-IsSound i m a.sound;
      trial = k.0 ∙ ap (λ x. x.app_slot_trial) e;
      active = k.2 ∙ ap (λ x. x.active_app_slot) e ∙ ap slot_other a.active;
    }

pub boot-IsSettled :
    (slot i : ℕ) (m : WdtMeta) → IsSettled slot (suc i) m → IsSettled slot i (boot m)
boot-IsSettled slot i m a =
    let e = next-untried m a.trial in
    let k = tolerated-keeps (next m) in
    record {
      sound = boot-IsSound i m a.sound;
      trial = k.0 ∙ ap (λ x. x.app_slot_trial) e ∙ a.trial;
      active = k.2 ∙ ap (λ x. x.active_app_slot) e ∙ a.active;
    }

pub seal-IsAttempt :
    (h : Machine) (slot n i : ℕ) (m : WdtMeta)
    → IsAttempt slot n i m
    → IsAttempt slot n i (seal h m)
unfolding seal
seal-IsAttempt h slot n i m a = record {
  sound = seal-IsSound i h m a.sound;
  trial = a.trial;
  boots = a.boots;
  active = a.active;
}

pub seal-IsSettled :
    (h : Machine) (slot i : ℕ) (m : WdtMeta) → IsSettled slot i m → IsSettled slot i (seal h m)
unfolding seal
seal-IsSettled h slot i m a = record {
  sound = seal-IsSound i h m a.sound;
  trial = a.trial;
  active = a.active;
}

-- ===== src/Emmc/Setup/Once.antt =====
-- What emmc_init does in all.
use rpitos.Prelude.{
  ℕ, ◌≡◌, ◌⊎◌, Bool, true, false, if◌then◌else◌, refl, sym, ◌∙◌, Bool-cases, inl, inr,
}
use rpitos.Status.{e_ok, is_ok}
use rpitos.Emmc.{Host}
use rpitos.Emmc.Spy.{Traced, fresh, spy, spy-IsGuard, IsAll}
use rpitos.Emmc.Setup.{Device, init}
use rpitos.Emmc.Setup.Quiet.{IsSetup, init-Ended}

-- The controller is written down from its first command on.
abbrev pub watched : {S : Type 0} → Device S → Device (Traced S)
watched d = record {
  host = fresh d.host;
  initialized = d.initialized;
  is_high_capacity = d.is_high_capacity;
  adma2_supported = d.adma2_supported;
  device_type = d.device_type;
  sec_count = d.sec_count;
}

again :
    {S : Type 0} (h : Host S) (csd tmp : ℕ) (d : Device S)
    → d.initialized ≡ true
    → init h csd tmp d ≡ (e_ok, d)
unfolding init
again h csd tmp d e = taken d.initialized (e_ok, d) _ e
  where
    taken : {A : Type 0} (c : Bool) (x y : A) → c ≡ true → (if c then x else y) ≡ x
    taken true x y e = refl
    taken false x y e = absurd (cc)

-- emmc_init, whatever the controller and the card do: every command it gives has an index of at most 8, so that
-- it reads and writes no sector; and it returns, either with an error and the device not marked as initialised,
-- or with E_OK and so that a second call changes nothing and gives no command.
pub init_lem :
    {S : Type 0} (h : Host S) (csd tmp : ℕ) (d : Device S)
    → IsAll IsSetup (init (spy h) csd tmp (watched d)).1.host.commands
      × ((is_ok (init (spy h) csd tmp (watched d)).0 ≡ false)
            × ((init (spy h) csd tmp (watched d)).1.initialized ≡ false)
          ⊎ (is_ok (init (spy h) csd tmp (watched d)).0 ≡ true)
            × (init (spy h) csd tmp (init (spy h) csd tmp (watched d)).1
                ≡ (e_ok, (init (spy h) csd tmp (watched d)).1)))
init_lem h csd tmp d =
    let r = init (spy h) csd tmp (watched d) in
    let (p, e) =
      init-Ended (spy h) (λ t. IsAll IsSetup t.commands) (spy-IsGuard h IsSetup) d.initialized csd
        tmp (watched d) refl tt in
    (
      p,
      elim (Bool-cases (is_ok r.0)) [
        | inl y ↦ inr (y, again (spy h) csd tmp r.1 (sym e ∙ y))
        | inr n ↦ inl (n, sym e ∙ n)
      ],
    )

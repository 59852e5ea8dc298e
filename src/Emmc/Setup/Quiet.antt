-- ===== src/Emmc/Setup/Quiet.antt =====
-- What the set-up preserves, and how it ends.
use rpitos.Prelude.{
  ℕ, zero, suc, ◌/◌, ◌^◌, ◌≤◌, ◌≡◌, Bool, true, false, if◌then◌else◌, arith, refl, sym, ◌∙◌,
  Bool-cases, inl, inr,
}
use rpitos.Status.{Status, e_ok, is_ok}
use rpitos.Emmc.{
  Host, Register, control0, control1, irpt_mask, irpt_en, blksizecnt, resp0, capabilities0, then_or,
  on_ok, bit, send_command,
}
use rpitos.Emmc.Commands.{
  IsPlain, IsGuard, IsKept, on_ok-IsKept, if-IsKept, send_command-IsKept, wait_interrupt-IsKept,
  wait_clear-IsKept, modify-IsKept, set_clock-IsKept,
}
use rpitos.Emmc.Transfer.Kept.{read_words-kept}
use rpitos.Emmc.Setup.{
  Device, cmd0, cmd1, cmd2, cmd3, cmd6_switch, cmd7, cmd8, on_host, already_running, host_reset,
  power_on, operating_conditions, select_card, card_identify, bus_baseline, read_ext_csd, described,
  probe_capabilities, bus_ok, or_revert, slow_down, fast_ok, high_speed, four_bits, eight_bits,
  negotiate_speed, set_up, cold_init, init, switch_arg, ext_csd_hs_timing, ext_csd_bus_width,
}

-- A command with an index of at most 8: none of them reads or writes a sector.
abbrev pub IsSetup : ℕ → ℕ → Type 0
IsSetup cmd arg = cmd / 2 ^ 24 ≤ 8

plain :
    IsPlain blksizecnt × IsPlain control0 × IsPlain control1 × IsPlain irpt_mask × IsPlain irpt_en
plain = ((cc, cc), (cc, cc), (cc, cc), (cc, cc), (cc, cc))

module _ {S : Type 0} (h : Host S) (P : S → Type 0) (g : IsGuard h IsSetup P) (b : Bool) where
  -- The predicate on the controller, and the flag as it was.
  abbrev K : Device S → Type 0
  K d = P d.host × (d.initialized ≡ b)

  sends : (cmd arg : ℕ) → cmd / 2 ^ 24 ≤ 8 → IsKept P (send_command h cmd arg)
  sends cmd arg p = send_command-IsKept h IsSetup P g cmd arg p

  modifies : (r : Register) (f : ℕ → ℕ) → IsPlain r → (s : S) → P s → P (rpitos.Emmc.modify h r f s)
  modifies r f q s p = modify-IsKept h IsSetup P g r f q s p

  clocks : (hz : ℕ) → IsKept P (rpitos.Emmc.set_clock h hz)
  clocks hz = set_clock-IsKept h IsSetup P g hz

  host_reset-IsKept : IsKept P (host_reset h)
  unfolding host_reset
  host_reset-IsKept s p =
      on_ok-IsKept P _ _ _
        (λ t q.
          g.write irpt_en _ _ plain.4
            (g.write irpt_mask _ _ plain.3 (modifies control1 _ plain.2 t q)))
        _
        (wait_clear-IsKept h IsSetup P g control1 _ 9999 _ (
          modifies control1 _ plain.2 _
            (g.write control1 _ _ plain.2 (g.write control0 _ _ plain.1 p))))

  power_on-IsKept : IsKept P (power_on h)
  unfolding power_on
  power_on-IsKept s p =
      on_ok-IsKept P _ _ _ (λ t q. g.delay 10000 _ (modifies control0 _ plain.1 t q)) _
        (clocks 400000 s p)

  operating_conditions-IsKept : (k : ℕ) → IsKept K (operating_conditions h k)
  unfolding operating_conditions
  operating_conditions-IsKept zero d p =
      on_ok-IsKept K _ _ _ (λ t q. (g.read resp0 _ q.0, q.1)) _
        (sends cmd1 _ (omega arith) d.host p.0, p.1)
  operating_conditions-IsKept (suc k) d p =
      on_ok-IsKept K _ _ _
        (λ t q.
          let u : Device S = record t { host = h.delay_us 1000 (h.read resp0 t.host).1 } in
          let r : K u = (g.delay 1000 _ (g.read resp0 _ q.0), q.1) in
          if-IsKept K (bit 31 (h.read resp0 t.host).0) _ (operating_conditions h k u) r
            (operating_conditions-IsKept k u r))
        _ (sends cmd1 _ (omega arith) d.host p.0, p.1)

  select_card-IsKept : IsKept P (select_card h)
  unfolding select_card
  select_card-IsKept s p =
      on_ok-IsKept P _ _ _
        (λ t q.
          on_ok-IsKept P _ _ _
            (λ u r. on_ok-IsKept P _ _ _ (λ v w. w) _ (sends cmd7 _ (omega arith) u r)) _
            (sends cmd3 _ (omega arith) t q))
        _ (sends cmd2 _ (omega arith) s p)

  card_identify-IsKept : IsKept K (card_identify h)
  unfolding card_identify
  card_identify-IsKept d p =
      let r : K (on_host h (send_command h cmd0 0) d).1 =
        (sends cmd0 0 (omega arith) d.host p.0, p.1) in
      on_ok-IsKept K _ _ _ (λ t q. (select_card-IsKept t.host q.0, q.1)) _
        (operating_conditions-IsKept 999 _ (g.delay 2000 _ r.0, r.1))

  bus_baseline-IsKept : IsKept P (bus_baseline h)
  unfolding bus_baseline
  bus_baseline-IsKept s p =
      on_ok-IsKept P _ _ _
        (λ t q.
          on_ok-IsKept P _ _ _ (λ u r. r) _ (clocks 25000000 _ (modifies control0 _ plain.1 t q)))
        _ (sends cmd6_switch _ (omega arith) s p)

  read_ext_csd-IsKept : (buf : ℕ) → IsKept P (read_ext_csd h buf)
  unfolding read_ext_csd
  read_ext_csd-IsKept buf s p =
      on_ok-IsKept P _ _ _
        (λ t q.
          on_ok-IsKept P _ _ _
            (λ u r.
              wait_interrupt-IsKept h IsSetup P g _ 2000 _
                (read_words-kept h IsSetup P g 128 buf u r))
            _ (wait_interrupt-IsKept h IsSetup P g _ 2000 t q))
        _ (sends cmd8 _ (omega arith) _ (g.write blksizecnt _ _ plain.0 p))

  described-kept : (csd : ℕ) (r : Status × Device S) → K r.1 → K (described h csd r)
  unfolding described
  described-kept csd r p = elim (Bool-cases (is_ok r.0)) [ inl e ↦ rw e p | inr e ↦ rw e p ]

  probe-kept : (csd : ℕ) (d : Device S) → K d → K (probe_capabilities h csd d)
  unfolding probe_capabilities
  probe-kept csd d p =
      described-kept csd _ (read_ext_csd-IsKept csd _ (g.read capabilities0 _ p.0), p.1)

  bus_ok-IsKept : (tmp : ℕ) → IsKept K (bus_ok h tmp)
  unfolding bus_ok
  bus_ok-IsKept tmp d p = (read_ext_csd-IsKept tmp d.host p.0, p.1)

  or_revert-kept :
      (f : Device S → Device S)
      → ((d : Device S) → K d → K (f d))
      → (r : Bool × Device S) → K r.1
      → K (or_revert h f r)
  unfolding or_revert
  or_revert-kept f k (true, d) p = p
  or_revert-kept f k (false, d) p = k d p

  slow_down-kept : (d : Device S) → K d → K (slow_down h d)
  unfolding slow_down
  slow_down-kept d p = (
    sends cmd6_switch _ (omega arith) _
        (modifies control0 _ plain.1 _ (clocks 25000000 d.host p.0)),
    p.1,
  )

  fast_ok-IsKept : (tmp : ℕ) (r : Status × Device S) → K r.1 → K (fast_ok h tmp r).1
  unfolding fast_ok
  fast_ok-IsKept tmp r p = elim (Bool-cases (is_ok r.0)) [
    | inl e ↦ rw e (bus_ok-IsKept tmp r.1 p)
    | inr e ↦ rw e p
  ]

  chosen : (c : Bool) (x y : Device S) → K x → K y → K (if c then x else y)
  chosen true x y p q = p
  chosen false x y p q = q

  high_speed-kept : (tmp : ℕ) (d : Device S) → K d → K (high_speed h tmp d)
  unfolding high_speed
  high_speed-kept tmp d p =
      let q = sends cmd6_switch _ (omega arith) d.host p.0 in
      let r = clocks 50000000 _ (modifies control0 _ plain.1 _ q) in
      chosen (bit 1 d.device_type) _ d
        (chosen (is_ok (send_command h cmd6_switch (switch_arg ext_csd_hs_timing 1) d.host).0) _ _
          (or_revert-kept (slow_down h) slow_down-kept _ (fast_ok-IsKept tmp _ (r, p.1))) (q, p.1))
        p

  four_bits-kept : (d : Device S) → K d → K (four_bits h d)
  unfolding four_bits
  four_bits-kept d p =
      (sends cmd6_switch _ (omega arith) _ (modifies control0 _ plain.1 _ p.0), p.1)

  eight_bits-kept : (tmp : ℕ) (d : Device S) → K d → K (eight_bits h tmp d)
  unfolding eight_bits
  eight_bits-kept tmp d p =
      let q = sends cmd6_switch _ (omega arith) d.host p.0 in
      chosen (is_ok (send_command h cmd6_switch (switch_arg ext_csd_bus_width 2) d.host).0) _ _
        (or_revert-kept (four_bits h) four_bits-kept _
          (bus_ok-IsKept tmp _ (modifies control0 _ plain.1 _ q, p.1)))
        (q, p.1)

  -- How the set-up ends: the flag says whether it is done.
  abbrev pub Ended : Status × Device S → Type 0
  Ended r = P r.1.host × (is_ok r.0 ≡ r.1.initialized)

  ends :
      b ≡ false
      → (r : Status × Device S) → K r.1
      → (next : Device S → Status × Device S) → ((d : Device S) → K d → Ended (next d))
      → Ended (then_or r (λ e. e) next)
  unfolding on_ok
  ends z r p next k = elim (Bool-cases (is_ok r.0)) [
    | inl e ↦ rw e (k r.1 p)
    | inr e ↦ rw e (p.0, e ∙ sym (p.1 ∙ z))
  ]

  negotiate-kept : (tmp : ℕ) (d : Device S) → K d → K (negotiate_speed h tmp d)
  unfolding negotiate_speed
  negotiate-kept tmp d p = eight_bits-kept tmp _ (high_speed-kept tmp d p)

  cold_init-Ended : (csd tmp : ℕ) (d : Device S) → b ≡ false → K d → Ended (cold_init h csd tmp d)
  unfolding cold_init
  cold_init-Ended csd tmp d z p =
      ends z _ (host_reset-IsKept d.host p.0, p.1) _
        (λ d1 p1.
          ends z _ (power_on-IsKept d1.host p1.0, p1.1) _
            (λ d2 p2. ends z _ (card_identify-IsKept d2 p2) _ (λ d3 p3.
              ends z _ (bus_baseline-IsKept d3.host p3.0, p3.1) _
                (λ d4 p4. ((negotiate-kept tmp _ (probe-kept csd d4 p4)).0, refl)))))

  if-Ended :
      (c : Bool) (x y : Status × Device S)
      → (c ≡ true → Ended x)
      → (c ≡ false → Ended y)
      → Ended (if c then x else y)
  if-Ended true x y p q = p refl
  if-Ended false x y p q = q refl

  pub init-Ended :
      (csd tmp : ℕ) (d : Device S) → d.initialized ≡ b → P d.host → Ended (init h csd tmp d)
  unfolding init already_running
  init-Ended csd tmp d e p =
      let q = g.read control1 _ p in
      let d1 : Device S = record d { host = (h.read control1 d.host).1 } in
      if-Ended d.initialized (e_ok, d) _ (λ y. (p, sym y))
        (λ n.
          if-Ended (already_running h d.host).0 (set_up h (probe_capabilities h csd d1))
            (cold_init h csd tmp d1) (λ y. ((probe-kept csd d1 (q, e)).0, refl))
            (λ m. cold_init-Ended csd tmp d1 (sym e ∙ n) (q, e)))

-- ===== src/Emmc/Commands.antt =====
-- What the steps of the driver preserve.
use rpitos.Prelude.{ℕ, zero, suc, ◌^◌, ◌≢◌, Bool, true, false, if◌then◌else◌}
use rpitos.Status.{Status}
use rpitos.Emmc.Adma.{Adma2Desc}
use rpitos.Emmc.{
  Host, Register, arg1, cmdtm, interrupt, status, control1, Seen, ready, failed, waiting, seen,
  on_ok, poll, look, look_clear, look_stable, wait_interrupt, wait_status, issue, finish_command,
  send_command, modify, set_clock, int_error_mask, all_bits, bit,
}

-- The registers that are neither the argument nor the command.
abbrev pub IsPlain : Register → Type 0
IsPlain r = (r ≢ arg1) × (r ≢ cmdtm)

-- A predicate that nothing changes but a command that is not allowed.
pub record IsGuard {S : Type 0} (h : Host S) (Allowed : ℕ → ℕ → Type 0) (P : S → Type 0)
    : Type 0 where
  pub read : (r : Register) (s : S) → P s → P (h.read r s).1
  pub write : (r : Register) (v : ℕ) (s : S) → IsPlain r → P s → P (h.write r v s)
  pub delay : (us : ℕ) (s : S) → P s → P (h.delay_us us s)
  pub set_table : (t : ℕ → Adma2Desc) (s : S) → P s → P (h.set_table t s)
  pub store : (a x : ℕ) (s : S) → P s → P (h.store a x s)
  pub command :
      (cmd arg : ℕ) (s : S) → Allowed cmd arg → P s → P (h.write cmdtm cmd (h.write arg1 arg s))

-- All steps from a state with the predicate end in one.
abbrev pub IsKept : {S A : Type 0} → (S → Type 0) → (S → A × S) → Type 0
IsKept {S} P f = (s : S) → P s → P (f s).1

pub on_ok-IsKept :
    {S : Type 0} (P : S → Type 0) (b : Bool) (f : Status → Status) (next : S → Status × S)
    → IsKept P next
    → (r : Status × S) → P r.1
    → P (on_ok b f next r).1
unfolding on_ok
on_ok-IsKept P true f next k r p = k r.1 p
on_ok-IsKept P false f next k r p = p

seen-IsKept :
    {S : Type 0} (P : S → Type 0) (again : S → Status × S)
    → IsKept P again
    → (r : Seen × S) → P r.1
    → P (seen again r).1
unfolding seen
seen-IsKept P again k (ready, s) p = p
seen-IsKept P again k (failed, s) p = p
seen-IsKept P again k (waiting, s) p = k s p

pub if-IsKept :
    {S A : Type 0} (P : S → Type 0) (b : Bool) (x y : A × S)
    → P x.1
    → P y.1
    → P (if b then x else y).1
if-IsKept P true x y p q = p
if-IsKept P false x y p q = q

interrupt-IsPlain : IsPlain interrupt
interrupt-IsPlain = (λ e. cc, λ e. cc)

control1-IsPlain : IsPlain control1
control1-IsPlain = (λ e. cc, λ e. cc)

module _ {S : Type 0} (h : Host S) (Allowed : ℕ → ℕ → Type 0) (P : S → Type 0)
    (g : IsGuard h Allowed P) where
  pub poll-IsKept : (test : S → Seen × S) (k : ℕ) → IsKept P test → IsKept P (poll h test k)
  unfolding poll
  poll-IsKept test zero t s p = seen-IsKept P _ (λ u q. q) (test s) (t s p)
  poll-IsKept test (suc k) t s p =
      seen-IsKept P _ (λ u q. poll-IsKept test k t _ (g.delay 1 u q)) (test s) (t s p)

  look-IsKept : (mask : ℕ) → IsKept P (look h mask)
  unfolding look
  look-IsKept mask s p =
      let (x, s1) = h.read interrupt s in
      let (y, s2) = h.read interrupt s1 in
      let q = g.read interrupt s1 (g.read interrupt s p) in
      let bad = h.write interrupt all_bits s2 in
      let good = h.write interrupt (2 ^ mask) s2 in
      if-IsKept {A = Seen} P (int_error_mask y) (failed, bad)
        (if bit mask x then (ready, good) else (waiting, s2))
        (g.write interrupt all_bits s2 interrupt-IsPlain q)
        (if-IsKept {A = Seen} P (bit mask x) (ready, good) (waiting, s2)
          (g.write interrupt (2 ^ mask) s2 interrupt-IsPlain q) q)

  pub wait_interrupt-IsKept : (mask ms : ℕ) → IsKept P (wait_interrupt h mask ms)
  unfolding wait_interrupt
  wait_interrupt-IsKept mask ms = poll-IsKept (look h mask) _ (look-IsKept mask)

  look_clear-IsKept : (r : Register) (busy : ℕ → Bool) → IsKept P (look_clear h r busy)
  unfolding look_clear
  look_clear-IsKept r busy s p = if-IsKept P _ _ _ (g.read r s p) (g.read r s p)

  pub wait_clear-IsKept :
      (r : Register) (busy : ℕ → Bool) (k : ℕ) → IsKept P (poll h (look_clear h r busy) k)
  wait_clear-IsKept r busy k = poll-IsKept (look_clear h r busy) k (look_clear-IsKept r busy)

  pub wait_status-IsKept : (busy : ℕ → Bool) (ms : ℕ) → IsKept P (wait_status h busy ms)
  unfolding wait_status
  wait_status-IsKept busy ms = wait_clear-IsKept status busy _

  finish_command-IsKept : (cmd : ℕ) → IsKept P (finish_command h cmd)
  unfolding finish_command
  finish_command-IsKept cmd s p =
      if-IsKept P _ _ _
        (wait_status-IsKept _ 100 _ (g.write interrupt _ _ interrupt-IsPlain (g.delay 200 s p)))
        (on_ok-IsKept P _ _ _
          (λ t q.
            if-IsKept P _ _ _
              (on_ok-IsKept P _ _ _ (λ u r. r) _ (wait_status-IsKept _ 5000 _ (g.delay 100 t q))) q)
          _ (wait_interrupt-IsKept 0 2000 s p))

  pub send_command-IsKept : (cmd arg : ℕ) → Allowed cmd arg → IsKept P (send_command h cmd arg)
  unfolding send_command issue
  send_command-IsKept cmd arg a s p =
      let issued : IsKept P (λ t. finish_command h cmd (issue h cmd arg t)) = λ t q.
        finish_command-IsKept cmd _
          (g.command cmd arg _ a (g.write interrupt _ _ interrupt-IsPlain q)) in
      on_ok-IsKept P _ _ _
        (λ t q.
          if-IsKept P _ _ _ (on_ok-IsKept P _ _ _ issued _ (wait_status-IsKept _ 2000 t q))
            (issued t q))
        _ (wait_status-IsKept _ 2000 s p)

  pub modify-IsKept : (r : Register) (f : ℕ → ℕ) → IsPlain r → (s : S) → P s → P (modify h r f s)
  unfolding modify
  modify-IsKept r f q s p = g.write r _ _ q (g.read r s p)

  look_stable-IsKept : IsKept P (look_stable h)
  unfolding look_stable
  look_stable-IsKept s p = if-IsKept P _ _ _ (g.read control1 s p) (g.read control1 s p)

  pub set_clock-IsKept : (hz : ℕ) → IsKept P (set_clock h hz)
  unfolding set_clock
  set_clock-IsKept hz s p =
      on_ok-IsKept P _ _ _
        (λ t q.
          on_ok-IsKept P _ _ _ (λ u r. g.delay 20 _ (modify-IsKept control1 _ control1-IsPlain u r))
            _
            (poll-IsKept _ 9999 look_stable-IsKept _ (
              g.delay 20 _ (
                modify-IsKept control1 _ control1-IsPlain _
                  (g.delay 10 _ (modify-IsKept control1 _ control1-IsPlain t q))))))
        _ (wait_status-IsKept _ 2000 s p)

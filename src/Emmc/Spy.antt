-- ===== src/Emmc/Spy.antt =====
-- A controller that writes down the commands it is given.
use rpitos.Prelude.{ℕ, List, [], ◌∷◌, refl}
use rpitos.Emmc.{
  Host, Register, blksizecnt, arg1, cmdtm, resp0, data_port, status, control0, control1, interrupt,
  irpt_mask, irpt_en, capabilities0, adma_address,
}
use rpitos.Emmc.Commands.{IsPlain, IsGuard}

-- The commands and their arguments, the last one first.
pub record Traced (S : Type 0) : Type 0 where
  pub host : S
  pub last_arg : ℕ
  pub commands : List (ℕ × ℕ)

abbrev pub fresh : {S : Type 0} → S → Traced S
fresh s = record { host = s; last_arg = 0; commands = [] }

abbrev noted : {S : Type 0} → Register → ℕ → Traced S → Traced S
noted arg1 v t = record t { last_arg = v }
noted cmdtm v t = record t { commands = (v, t.last_arg) ∷ t.commands }
noted _ v t = t

abbrev pub spy : {S : Type 0} → Host S → Host (Traced S)
spy h = record {
  read = λ r t. ((h.read r t.host).0, record t { host = (h.read r t.host).1 });
  write = λ r v t. record (noted r v t) { host = h.write r v t.host };
  delay_us = λ us t. record t { host = h.delay_us us t.host };
  table = λ t. h.table t.host;
  set_table = λ d t. record t { host = h.set_table d t.host };
  load = λ a t. h.load a t.host;
  store = λ a x t. record t { host = h.store a x t.host };
}

-- Every command is allowed.
abbrev pub IsAll : (ℕ → ℕ → Type 0) → List (ℕ × ℕ) → Type 0
IsAll Allowed [] = Unit
IsAll Allowed ((c, a) ∷ cs) = Allowed c a × IsAll Allowed cs

noted-IsAll :
    {S : Type 0} (Allowed : ℕ → ℕ → Type 0) (r : Register) (v : ℕ) (t : Traced S)
    → IsPlain r
    → IsAll Allowed t.commands
    → IsAll Allowed (noted r v t).commands
noted-IsAll Allowed arg1 v t q p = p
noted-IsAll Allowed cmdtm v t q p = absurd (q.1 refl)
noted-IsAll Allowed blksizecnt v t q p = p
noted-IsAll Allowed resp0 v t q p = p
noted-IsAll Allowed data_port v t q p = p
noted-IsAll Allowed status v t q p = p
noted-IsAll Allowed control0 v t q p = p
noted-IsAll Allowed control1 v t q p = p
noted-IsAll Allowed interrupt v t q p = p
noted-IsAll Allowed irpt_mask v t q p = p
noted-IsAll Allowed irpt_en v t q p = p
noted-IsAll Allowed capabilities0 v t q p = p
noted-IsAll Allowed adma_address v t q p = p

pub spy-IsGuard :
    {S : Type 0} (h : Host S) (Allowed : ℕ → ℕ → Type 0)
    → IsGuard (spy h) Allowed (λ t. IsAll Allowed t.commands)
spy-IsGuard h Allowed = record {
  read = λ r s p. p;
  write = λ r v s q p. noted-IsAll Allowed r v s q p;
  delay = λ us s p. p;
  set_table = λ t s p. p;
  store = λ a x s p. p;
  command = λ cmd arg s a p. (a, p);
}

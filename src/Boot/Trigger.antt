-- ===== src/Boot/Trigger.antt =====
-- The matcher of source/boot/dfu_trigger/dfu_trigger.c for the key that asks for an update. `shift_reg` is
-- the state.
pub mod Window
use rpitos.Prelude.{ℕ, ◌+◌, ◌*◌, ◌%◌, ◌^◌, Bool, ◌==◌, List, [], ◌∷◌}

abbrev pub dfu_trigger_key : ℕ
dfu_trigger_key = 0xDF00DF00

abbrev pub reset : ℕ
reset = 0

-- The new register, and whether it is the key.
unfoldable pub feed : ℕ → ℕ → Bool × ℕ
feed byte shift_reg = let r = shift_reg * 256 % 2 ^ 32 + byte in (r == dfu_trigger_key, r)

-- The register after a list of bytes.
abbrev pub feed_all : List ℕ → ℕ → ℕ
feed_all [] shift_reg = shift_reg
feed_all (b ∷ bs) shift_reg = feed_all bs (feed b shift_reg).1

-- ===== src/Status.antt =====
-- The status codes of source/libraries/status/status.h, and runs that may not return.
use rpitos.Prelude.{Bool, true, false}

pub data Status : Type 0 where
  e_ok e_invalid_args e_out_of_mem e_resource_exhausted e_empty e_timed_out e_corrupted : Status
  e_aborted e_cmd e_data e_crc e_notsupp e_not_initialized : Status

-- What a call does: it returns, reads through NULL, or loops for ever.
pub data Run {ℓ} (A : Type ℓ) : Type ℓ where
  done : A → Run A
  fault : Run A
  spin : Run A

infixl 5 ◌>>=◌
abbrev pub ◌>>=◌ {ℓ κ} : {A : Type ℓ} {B : Type κ} → Run A → (A → Run B) → Run B
done a >>= f = f a
fault >>= f = fault
spin >>= f = spin

abbrev pub is_ok : Status → Bool
is_ok e_ok = true
is_ok _ = false

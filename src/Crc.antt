-- ===== src/Crc.antt =====
-- The checksum of source/drivers/crc/crc.c. The instructions crc32b, crc32h and crc32w are arguments. The
-- bytes of a word do not overlap, so `|` is a sum.
pub mod Bytes
pub mod Fours
mod Tests
use rpitos.Prelude.{ℕ, Bool, ◌==◌, ◌+◌, ◌-◌, ◌*◌, List, [], ◌∷◌}

-- The bytes of a halfword and of a word, the lowest first.
abbrev pub half : ℕ → ℕ → ℕ
half a b = a + b * 256

abbrev pub word : ℕ → ℕ → ℕ → ℕ → ℕ
word a b c d = a + b * 256 + c * 65536 + d * 16777216

module _ (crc32b crc32h crc32w : ℕ → ℕ → ℕ) where
  -- Words while there are four bytes, then a halfword and a byte where they are left.
  unfoldable pub hw_update : ℕ → List ℕ → ℕ
  hw_update crc [] = crc
  hw_update crc (a ∷ []) = crc32b crc a
  hw_update crc (a ∷ b ∷ []) = crc32h crc (half a b)
  hw_update crc (a ∷ b ∷ c ∷ []) = crc32b (crc32h crc (half a b)) c
  hw_update crc (a ∷ b ∷ c ∷ d ∷ xs) = hw_update (crc32w crc (word a b c d)) xs

  unfoldable pub update_byte : ℕ → ℕ → ℕ
  unfolding hw_update
  update_byte crc a = hw_update crc (a ∷ [])

-- crc32_start, and the exclusive or with ones of crc32_finish, on a `uint32_t`.
abbrev pub start : ℕ
start = 0xFFFFFFFF

abbrev pub finish : ℕ → ℕ
finish crc = 0xFFFFFFFF - crc

abbrev pub verify : ℕ → ℕ → Bool
verify crc expected = finish crc == expected

-- ===== src/Crc/Tests.antt =====
-- The theorem, with instructions that sum up the bytes.
use rpitos.Prelude.{ℕ, ◌+◌, ◌/◌, ◌%◌, ◌≡◌, [], ◌∷◌, arith}
use rpitos.Crc.{hw_update}
use rpitos.Crc.Bytes.{hw_update-append}

abbrev sum_byte : ℕ → ℕ → ℕ
sum_byte crc a = crc + a

abbrev sum_half : ℕ → ℕ → ℕ
sum_half crc n = crc + n % 256 + n / 256

abbrev sum_word : ℕ → ℕ → ℕ
sum_word crc n = crc + n % 256 + n / 256 % 256 + n / 65536 % 256 + n / 16777216

hw_update-append_example :
    hw_update sum_byte sum_half sum_word
      (hw_update sum_byte sum_half sum_word 1 (2 ∷ 3 ∷ 4 ∷ []))
      (5 ∷ 6 ∷ [])
    ≡ hw_update sum_byte sum_half sum_word 1 (2 ∷ 3 ∷ 4 ∷ 5 ∷ 6 ∷ [])
hw_update-append_example =
    hw_update-append sum_byte sum_half sum_word (λ crc a b h k. omega (arith, h, k))
      (λ crc a b c d h1 h2 h3 h4. omega (arith, h1, h2, h3, h4)) 1 (2 ∷ 3 ∷ 4 ∷ []) (5 ∷ 6 ∷ [])
      (omega arith, (omega arith, (omega arith, tt))) (omega arith, (omega arith, tt))

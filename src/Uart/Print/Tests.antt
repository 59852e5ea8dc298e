-- ===== src/Uart/Print/Tests.antt =====
-- Formatted printing at concrete inputs.
use rpitos.Prelude.{true, false, ℕ, ◌-◌, ◌<◌, ◌≤◌, ◌≡◌, arith, refl, List, [], ◌∷◌, ◌++◌, length}
use rpitos.Uart.Print.{format_uint, put_uint, repeat, tmp_digits, low_digits, backwards}
use rpitos.Uart.Print.Digits.{base_of, digits_of, value, decimal, format_uint_lem}
use rpitos.Uart.Print.Fault.{IsHex, fault_report, fault_report_lem}
use rpitos.Uart.Print.Pieces.{Piece, literal, field, signed_word, capitals_word, percent, text_of}

format_uint_lem_example :
    ((ds : List ℕ) × (format_uint 4095 (base_of decimal) (digits_of decimal) 6 32
        ≡ repeat (6 - length ds) 32 ++ ds)
      × (value (base_of decimal) 0 ds ≡ 4095)
      × (length ds ≤ 10)
      × (0 < length ds))
    × (length (put_uint 4095 (base_of decimal) (digits_of decimal) 6 32) ≤ 16)
format_uint_lem_example = format_uint_lem decimal 4095 6 32 (omega arith)

-- "a%3d" and "%08X%%", with -7 and 0xBEEF.
abbrev pieces : List Piece
pieces =
    literal 97
    ∷ field false (3 ∷ []) (signed_word 0xFFFFFFF9)
    ∷ field true (8 ∷ []) (capitals_word 0xBEEF)
    ∷ field false [] percent
    ∷ []

-- "a- 70000BEEF%"
print_pieces : text_of pieces ≡ 97 ∷ 45 ∷ 32 ∷ 55 ∷ 48 ∷ 48 ∷ 48 ∷ 48 ∷ 66 ∷ 69 ∷ 69 ∷ 70 ∷ 37 ∷ []
unfolding put_uint format_uint tmp_digits low_digits backwards repeat
print_pieces = refl

fault_report_lem_example :
    (p : List ℕ) × (a : List ℕ) × (s : List ℕ) × (k : List ℕ) × IsHex 32768 p
    × IsHex 4096 a
    × IsHex 0xDEADBEEF s
    × IsHex 2 k
    × (fault_report 2 32768 4096 0xDEADBEEF
        ≡ 13
          ∷ 10
          ∷ 80
          ∷ 67
          ∷ 61
          ∷ 48
          ∷ 120
          ∷ (p
              ++ 32
                ∷ 65
                ∷ 61
                ∷ 48
                ∷ 120
                ∷ (a
                    ++ 32
                      ∷ 83
                      ∷ 61
                      ∷ 48
                      ∷ 120
                      ∷ (s ++ 32 ∷ 75 ∷ 61 ∷ 48 ∷ 120 ∷ (k ++ 13 ∷ 10 ∷ [])))))
fault_report_lem_example =
    fault_report_lem 2 32768 4096 0xDEADBEEF (omega arith) (omega arith) (omega arith) (omega arith)

-- ===== src/Uart/Print/Fault.antt =====
-- The report of a fault in source/drivers/uart/uart.c, sent byte by byte: fault_puthex and uart_fault_report.
use rpitos.Prelude.{
  ℕ, zero, suc, ◌-◌, ◌/◌, ◌^◌, ◌<◌, ◌≤◌, ◌≡◌, true, ◌==◌, List, [], ◌∷◌, ◌++◌, length,
  length-append, arith, refl, ◌∙◌, Bool-cases, inl, inr,
}
use rpitos.Uart.Print.{low_digits, backwards, repeat, tmp_digits, format_uint, upper}
use rpitos.Uart.Print.Digits.{
  value, low_value, low_value-low_digits, value-backwards, length-backwards, length-repeat, times,
  capitals,
}

-- The eight digits, which are in a buffer of eight characters.
abbrev pub hex8 : ℕ → List ℕ
hex8 v = format_uint v 16 upper 8 48

unfoldable pub fault_puthex : ℕ → List ℕ
fault_puthex v = 48 ∷ 120 ∷ hex8 v

-- "\r\nPC=", " A=", " S=", " K=" and "\r\n" around the four words.
unfoldable pub fault_report : ℕ → ℕ → ℕ → ℕ → List ℕ
fault_report kind pc addr status =
    (13 ∷ 10 ∷ 80 ∷ 67 ∷ 61 ∷ [])
    ++ (fault_puthex pc
        ++ ((32 ∷ 65 ∷ 61 ∷ [])
            ++ (fault_puthex addr
                ++ ((32 ∷ 83 ∷ 61 ∷ [])
                    ++ (fault_puthex status
                        ++ ((32 ∷ 75 ∷ 61 ∷ []) ++ (fault_puthex kind ++ 13 ∷ 10 ∷ [])))))))

-- Eight characters that are the digits of a word, the highest first.
pub record IsHex (v : ℕ) (cs : List ℕ) : Type 0 where
  pub size : length cs ≡ 8
  pub reads : value 16 0 cs ≡ v

length-low_digits_16 : (j k n : ℕ) → n < times 16 j → length (low_digits upper 16 k n) ≤ j
unfolding low_digits times
length-low_digits_16 j zero n p = omega arith
length-low_digits_16 zero (suc k) n p = let e : (n == 0) ≡ true = ground arith in rw e (omega arith)
length-low_digits_16 (suc j) (suc k) n p = elim (Bool-cases (n == 0)) [
  | inl e ↦ rw e (omega arith)
  | inr e ↦ rw e (omega (arith, length-low_digits_16 j k (n / 16) (omega (arith, p))))
]

tmp_digits_16 :
    (v : ℕ)
    → v < 2 ^ 32
    → (low_value 16 (tmp_digits upper 16 v) ≡ v) × (length (tmp_digits upper 16 v) ≤ 8)
unfolding tmp_digits times
tmp_digits_16 v p = elim (Bool-cases (v == 0)) [
  | inl e ↦ rw e (ground arith, omega arith)
  | inr e ↦
      rw e (
        low_value-low_digits capitals 32 v (omega arith),
        length-low_digits_16 8 32 v (omega arith),
      )
]

value-repeat : (k : ℕ) (cs : List ℕ) → value 16 0 (repeat k 48 ++ cs) ≡ value 16 0 cs
unfolding repeat
value-repeat zero cs = refl
value-repeat (suc k) cs = value-repeat k cs

hex8-IsHex : (v : ℕ) → v < 2 ^ 32 → IsHex v (hex8 v)
unfolding format_uint
hex8-IsHex v p =
    let tmp = tmp_digits upper 16 v in
    let (e, l) = tmp_digits_16 v p in
    let ds = backwards tmp [] in
    let same : length ds ≡ length tmp = omega (arith, length-backwards tmp []) in
    record {
      size =
          length-append (repeat (8 - length tmp) 48) ds
          ∙ omega (arith, length-repeat (8 - length tmp) 48, same, l);
      reads = value-repeat (8 - length tmp) ds ∙ value-backwards 16 tmp [] ∙ e;
    }

-- uart_fault_report of any four words: each stands in the report, at a fixed place behind its name, with all of
-- its eight digits, no more and no fewer than the buffer of fault_puthex holds.
pub fault_report_lem :
    (kind pc addr status : ℕ)
    → kind < 2 ^ 32
    → pc < 2 ^ 32
    → addr < 2 ^ 32
    → status < 2 ^ 32
    → (p : List ℕ) × (a : List ℕ) × (s : List ℕ) × (k : List ℕ) × IsHex pc p
      × IsHex addr a
      × IsHex status s
      × IsHex kind k
      × (fault_report kind pc addr status
          ≡ 13
            ∷ 10
            ∷ 80
            ∷ 67
            ∷ 61
            ∷ 48
            ∷ 120
            ∷ (p
                ++ 32
                  ∷ 65
                  ∷ 61
                  ∷ 48
                  ∷ 120
                  ∷ (a
                      ++ 32
                        ∷ 83
                        ∷ 61
                        ∷ 48
                        ∷ 120
                        ∷ (s ++ 32 ∷ 75 ∷ 61 ∷ 48 ∷ 120 ∷ (k ++ 13 ∷ 10 ∷ [])))))
unfolding fault_report fault_puthex
fault_report_lem kind pc addr status hk hp ha hs = (
  hex8 pc,
  hex8 addr,
  hex8 status,
  hex8 kind,
  hex8-IsHex pc hp,
  hex8-IsHex addr ha,
  hex8-IsHex status hs,
  hex8-IsHex kind hk,
  refl,
)

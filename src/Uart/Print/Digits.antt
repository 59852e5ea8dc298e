-- ===== src/Uart/Print/Digits.antt =====
-- The digits of a number are its digits, and fit in their buffers.
use rpitos.Prelude.{
  ℕ, zero, suc, ◌+◌, ◌-◌, ◌*◌, ◌/◌, ◌%◌, ◌^◌, ◌<◌, ◌≤◌, ◌≡◌, true, false, ◌==◌, ltb, if◌then◌else◌,
  List, [], ◌∷◌, ◌++◌, length, length-append, arith, refl, sym, ap, ◌∙◌, Bool-cases, inl, inr,
}
use rpitos.Uart.Print.{
  low_digits, backwards, repeat, tmp_digits, format_uint, put_uint, lower, upper,
}

-- The bases and digit tables that uart_vprintf uses.
pub data Table : Type 0 where
  decimal hexadecimal capitals : Table

abbrev pub base_of : Table → ℕ
base_of decimal = 10
base_of hexadecimal = 16
base_of capitals = 16

abbrev pub digits_of : Table → ℕ → ℕ
digits_of decimal = lower
digits_of hexadecimal = lower
digits_of capitals = upper

-- The value of a digit, and of digits from the first on after `acc`.
abbrev pub digit_value : ℕ → ℕ
digit_value c = if ltb c 58 then c - 48 else (if ltb c 97 then c - 55 else c - 87)

abbrev pub value : ℕ → ℕ → List ℕ → ℕ
value base acc [] = acc
value base acc (c ∷ cs) = value base (acc * base + digit_value c) cs

-- The value of digits from the last on.
abbrev pub low_value : ℕ → List ℕ → ℕ
low_value base [] = 0
low_value base (c ∷ cs) = low_value base cs * base + digit_value c

pub value-backwards :
    (base : ℕ) (xs out : List ℕ)
    → value base 0 (backwards xs out) ≡ value base (low_value base xs) out
unfolding backwards
value-backwards base [] out = refl
value-backwards base (x ∷ xs) out = value-backwards base xs (x ∷ out)

pub length-backwards : (xs out : List ℕ) → length (backwards xs out) ≡ length xs + length out
unfolding backwards
length-backwards [] out = omega arith
length-backwards (x ∷ xs) out = omega (arith, length-backwards xs (x ∷ out))

digit_value-digits : (t : Table) (d : ℕ) → d < base_of t → digit_value (digits_of t d) ≡ d
digit_value-digits decimal d p = ground arith
digit_value-digits hexadecimal d p = ground arith
digit_value-digits capitals d p = ground arith

divides : (t : Table) (n : ℕ) → n / base_of t * base_of t + n % base_of t ≡ n
divides decimal n = omega arith
divides hexadecimal n = omega arith
divides capitals n = omega arith

mod-base : (t : Table) (n : ℕ) → n % base_of t < base_of t
mod-base decimal n = omega arith
mod-base hexadecimal n = omega arith
mod-base capitals n = omega arith

halves : (t : Table) (n m : ℕ) → n < 2 * m → n / base_of t < m
halves decimal n m p = omega arith
halves hexadecimal n m p = omega arith
halves capitals n m p = omega arith

tenths : (t : Table) (n m : ℕ) → n < 10 * m → n / base_of t < m
tenths decimal n m p = omega arith
tenths hexadecimal n m p = omega arith
tenths capitals n m p = omega arith

-- Twice, and ten times, as often.
unfoldable pub times : ℕ → ℕ → ℕ
times b zero = 1
times b (suc k) = b * times b k

pub low_value-low_digits :
    (t : Table) (k n : ℕ)
    → n < times 2 k
    → low_value (base_of t) (low_digits (digits_of t) (base_of t) k n) ≡ n
unfolding low_digits times
low_value-low_digits t zero n p = omega arith
low_value-low_digits t (suc k) n p = elim (Bool-cases (n == 0)) [
  | inl e ↦ rw e (ground arith)
  | inr e ↦
      let ih = low_value-low_digits t k (n / base_of t) (halves t n (times 2 k) p) in
      let d = digit_value-digits t (n % base_of t) (mod-base t n) in rw (e, ih, d) (divides t n)
]

length-low_digits :
    (t : Table) (j k n : ℕ) → n < times 10 j → length (low_digits (digits_of t) (base_of t) k n) ≤ j
unfolding low_digits times
length-low_digits t j zero n p = omega arith
length-low_digits t zero (suc k) n p = let e : (n == 0) ≡ true = ground arith in rw e (omega arith)
length-low_digits t (suc j) (suc k) n p = elim (Bool-cases (n == 0)) [
  | inl e ↦ rw e (omega arith)
  | inr e ↦
      rw e (omega (arith, length-low_digits t j k (n / base_of t) (tenths t n (times 10 j) p)))
]

length-low_digits_pos :
    (t : Table) (k n : ℕ) → 0 < n → 0 < length (low_digits (digits_of t) (base_of t) (suc k) n)
unfolding low_digits
length-low_digits_pos t k n p = let e : (n == 0) ≡ false = ground arith in rw e (omega arith)

tmp_digits_lem :
    (t : Table) (n : ℕ)
    → n < 2 ^ 32
    → (low_value (base_of t) (tmp_digits (digits_of t) (base_of t) n) ≡ n)
      × (length (tmp_digits (digits_of t) (base_of t) n) ≤ 10)
      × (0 < length (tmp_digits (digits_of t) (base_of t) n))
unfolding tmp_digits times
tmp_digits_lem t n p = elim (Bool-cases (n == 0)) [
  | inl e ↦ rw e (ground arith, omega arith, omega arith)
  | inr e ↦ rw e (
    low_value-low_digits t 32 n (omega arith),
    length-low_digits t 10 32 n (omega arith),
    length-low_digits_pos t 31 n (ground arith),
  )
]

pub length-repeat : (n c : ℕ) → length (repeat n c) ≡ n
unfolding repeat
length-repeat zero c = refl
length-repeat (suc n) c = omega (arith, length-repeat n c)

format_uint_digits :
    (t : Table) (n width pad : ℕ)
    → n < 2 ^ 32
    → (ds : List ℕ) × (format_uint n (base_of t) (digits_of t) width pad
        ≡ repeat (width - length ds) pad ++ ds)
      × (value (base_of t) 0 ds ≡ n)
      × (length ds ≤ 10)
      × (0 < length ds)
unfolding format_uint
format_uint_digits t n width pad p =
    let tmp = tmp_digits (digits_of t) (base_of t) n in
    let (v, l, z) = tmp_digits_lem t n p in
    let same : length (backwards tmp []) ≡ length tmp = omega (arith, length-backwards tmp []) in
    (
      backwards tmp [],
      ap (λ k. repeat (width - k) pad ++ backwards tmp []) (sym same),
      value-backwards (base_of t) tmp [] ∙ v,
      omega (arith, same),
      omega (arith, same, z),
    )

length-put_uint :
    (t : Table) (n width pad : ℕ)
    → n < 2 ^ 32
    → length (put_uint n (base_of t) (digits_of t) width pad) ≤ 16
unfolding put_uint
length-put_uint t n width pad p =
    let w = if ltb 16 width then 16 else width in
    let (ds, e, _, l, _) = format_uint_digits t n w pad p in
    rw e (
      ground
        (arith, length-append (repeat (w - length ds) pad) ds, length-repeat (w - length ds) pad))

-- format_uint with any of the tables and a `uint32_t`: its text is pads and then from 1 to 10 digits, the size
-- of `tmp`, whose value is the number; there are as many pads as the width asks for beyond the digits. The
-- text that uart_vprintf puts into the sink for the number, whatever the width, fits in its 16 characters.
pub format_uint_lem :
    (t : Table) (n width pad : ℕ)
    → n < 2 ^ 32
    → ((ds : List ℕ) × (format_uint n (base_of t) (digits_of t) width pad
          ≡ repeat (width - length ds) pad ++ ds)
        × (value (base_of t) 0 ds ≡ n)
        × (length ds ≤ 10)
        × (0 < length ds))
      × (length (put_uint n (base_of t) (digits_of t) width pad) ≤ 16)
format_uint_lem t n width pad p =
    (format_uint_digits t n width pad p, length-put_uint t n width pad p)

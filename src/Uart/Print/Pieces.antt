-- ===== src/Uart/Print/Pieces.antt =====
-- What a format and its arguments mean, piece by piece, apart from the loop of uart_vprintf.
use rpitos.Prelude.{
  ℕ, ◌+◌, ◌-◌, ◌*◌, ◌%◌, ◌^◌, ◌<◌, ◌≤◌, ◌≢◌, Bool, true, false, leb, if◌then◌else◌, List, [], ◌∷◌,
  ◌++◌, length,
}
use rpitos.Uart.Print.{Arg, word, text, null, put_uint, lower, upper}

-- A conversion with its argument.
pub data Conversion : Type 0 where
  character : ℕ → Conversion
  string : List ℕ → Conversion
  null_string : Conversion
  percent : Conversion
  signed_word : ℕ → Conversion
  unsigned_word : ℕ → Conversion
  hexadecimal_word : ℕ → Conversion
  capitals_word : ℕ → Conversion

-- A character of the text, or `%` with or without a `0` and with the digits of a width.
pub data Piece : Type 0 where
  literal : ℕ → Piece
  field : Bool → List ℕ → Conversion → Piece

-- c, s, s, %, d, u, x, X.
abbrev pub letter : Conversion → ℕ
letter (character n) = 99
letter (string s) = 115
letter null_string = 115
letter percent = 37
letter (signed_word n) = 100
letter (unsigned_word n) = 117
letter (hexadecimal_word n) = 120
letter (capitals_word n) = 88

abbrev pub argument : Conversion → List Arg
argument (character n) = word n ∷ []
argument (string s) = text s ∷ []
argument null_string = null ∷ []
argument percent = []
argument (signed_word n) = word n ∷ []
argument (unsigned_word n) = word n ∷ []
argument (hexadecimal_word n) = word n ∷ []
argument (capitals_word n) = word n ∷ []

-- The number that digits stand for, in base ten, and their characters.
abbrev pub decimal_value : ℕ → List ℕ → ℕ
decimal_value w [] = w
decimal_value w (d ∷ ds) = decimal_value (10 * w + d) ds

abbrev pub characters : List ℕ → List ℕ
characters [] = []
characters (d ∷ ds) = (48 + d) ∷ characters ds

-- A word as an `int32_t`: the sign, and the digits of the absolute value in what the width leaves.
abbrev pub with_sign : ℕ → ℕ → ℕ → List ℕ
with_sign n w pad =
    if leb (2 ^ 31) n
    then 45 ∷ put_uint (2 ^ 32 - n) 10 lower (w - 1) pad
    else put_uint n 10 lower w pad

abbrev pub shown_as : Conversion → ℕ → ℕ → List ℕ
shown_as (character n) w pad = n % 256 ∷ []
shown_as (string s) w pad = s
shown_as null_string w pad = 40 ∷ 110 ∷ 117 ∷ 108 ∷ 108 ∷ 41 ∷ []
shown_as percent w pad = 37 ∷ []
shown_as (signed_word n) w pad = with_sign n w pad
shown_as (unsigned_word n) w pad = put_uint n 10 lower w pad
shown_as (hexadecimal_word n) w pad = put_uint n 16 lower w pad
shown_as (capitals_word n) w pad = put_uint n 16 upper w pad

-- The digits of a width, which do not begin with the flag where there is none.
abbrev pub IsDigits : List ℕ → Type 0
IsDigits [] = Unit
IsDigits (d ∷ ds) = (d < 10) × IsDigits ds

abbrev pub IsWidth : Bool → List ℕ → Type 0
IsWidth true ds = IsDigits ds
IsWidth false [] = Unit
IsWidth false (d ∷ ds) = (d ≢ 0) × IsDigits (d ∷ ds)

abbrev pub IsPiece : Piece → Type 0
IsPiece (literal c) = c ≢ 37
IsPiece (field zeros ds k) = IsWidth zeros ds × (length ds ≤ 9)

abbrev pub IsPieces : List Piece → Type 0
IsPieces [] = Unit
IsPieces (p ∷ ps) = IsPiece p × IsPieces ps

-- The format, the arguments and the text of pieces.
abbrev pub in_format : Bool → List ℕ → ℕ → List ℕ → List ℕ
in_format true ds c f = 37 ∷ 48 ∷ (characters ds ++ c ∷ f)
in_format false ds c f = 37 ∷ (characters ds ++ c ∷ f)

abbrev pub format_of : List Piece → List ℕ
format_of [] = []
format_of (literal c ∷ ps) = c ∷ format_of ps
format_of (field zeros ds k ∷ ps) = in_format zeros ds (letter k) (format_of ps)

abbrev pub arguments_of : List Piece → List Arg
arguments_of [] = []
arguments_of (literal c ∷ ps) = arguments_of ps
arguments_of (field zeros ds k ∷ ps) = argument k ++ arguments_of ps

abbrev pub pad_of : Bool → ℕ
pad_of true = 48
pad_of false = 32

abbrev pub text_of : List Piece → List ℕ
text_of [] = []
text_of (literal c ∷ ps) = c ∷ text_of ps
text_of (field zeros ds k ∷ ps) = shown_as k (decimal_value 0 ds) (pad_of zeros) ++ text_of ps

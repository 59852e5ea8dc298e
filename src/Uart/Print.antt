-- ===== src/Uart/Print.antt =====
-- Formatted printing in source/drivers/uart/uart.c: format_uint, the PrintfSink and uart_vprintf. A character
-- is its code. uart_channel_print takes the text up to the first NUL.
pub mod Digits
pub mod Chunks
pub mod Pieces
pub mod Fault
mod Tests
use rpitos.Prelude.{
  ℕ, zero, suc, true, ◌+◌, ◌-◌, ◌*◌, ◌/◌, ◌%◌, ◌^◌, Bool, ◌==◌, ◌&&◌, ltb, leb, if◌then◌else◌, List,
  [], ◌∷◌, ◌++◌, length, Option, none, some,
}
use rpitos.Status.{Run, done, fault}

-- The digits of a number, the last one first, on fuel: one turn for each bit is enough.
unfoldable pub low_digits : (ℕ → ℕ) → ℕ → ℕ → ℕ → List ℕ
low_digits digits base zero n = []
low_digits digits base (suc k) n =
    let rest = low_digits digits base k (n / base) in
    if n == 0 then [] else digits (n % base) ∷ rest

unfoldable pub backwards : List ℕ → List ℕ → List ℕ
backwards [] out = out
backwards (x ∷ xs) out = backwards xs (x ∷ out)

unfoldable pub repeat : ℕ → ℕ → List ℕ
repeat zero c = []
repeat (suc n) c = c ∷ repeat n c

-- The digits as they stand in `tmp`.
unfoldable pub tmp_digits : (ℕ → ℕ) → ℕ → ℕ → List ℕ
tmp_digits digits base n = if n == 0 then 48 ∷ [] else low_digits digits base 32 n

unfoldable pub format_uint : ℕ → ℕ → (ℕ → ℕ) → ℕ → ℕ → List ℕ
format_uint n base digits width pad =
    let tmp = tmp_digits digits base n in repeat (width - length tmp) pad ++ backwards tmp []

-- The digit tables "0123456789", "0123456789abcdef" and "0123456789ABCDEF".
abbrev pub lower : ℕ → ℕ
lower d = if ltb d 10 then 48 + d else 87 + d

abbrev pub upper : ℕ → ℕ
upper d = if ltb d 10 then 48 + d else 55 + d

-- The text of a number, in a buffer of 16 characters.
unfoldable pub put_uint : ℕ → ℕ → (ℕ → ℕ) → ℕ → ℕ → List ℕ
put_uint n base digits width pad =
    format_uint n base digits (if ltb 16 width then 16 else width) pad

-- The characters that were printed, and those in `buf`.
pub record PrintfSink : Type 0 where
  pub printed : List ℕ
  pub buf : List ℕ

unfoldable pub until_nul : List ℕ → List ℕ
until_nul [] = []
until_nul (c ∷ cs) = if c == 0 then [] else c ∷ until_nul cs

unfoldable pub sink_flush : PrintfSink → PrintfSink
sink_flush s =
    if ltb 0 (length s.buf) then record { printed = s.printed ++ until_nul s.buf; buf = [] } else s

unfoldable pub sink_putc : ℕ → PrintfSink → PrintfSink
sink_putc c s =
    let s1 = if leb 31 (length s.buf) then sink_flush s else s in
    record s1 { buf = s1.buf ++ c ∷ [] }

unfoldable pub sink_puts : List ℕ → PrintfSink → PrintfSink
sink_puts [] s = s
sink_puts (c ∷ cs) s = sink_puts cs (sink_putc c s)

-- The arguments after the format: a word, a text, or NULL.
pub data Arg : Type 0 where
  word : ℕ → Arg
  text : List ℕ → Arg
  null : Arg

-- Where the loop over the format is: in the text, behind `%`, or behind `%` and a pad and a width.
pub data Mode : Type 0 where
  plain : Mode
  flag : Mode
  width : ℕ → ℕ → Mode

abbrev pub signed : ℕ → ℕ → ℕ → List ℕ
signed n w pad =
    if leb (2 ^ 31) n
    then 45 ∷ put_uint (2 ^ 32 - n) 10 lower (if ltb 0 w then w - 1 else 0) pad
    else put_uint n 10 lower w pad

-- The conversions of a word, by the letter: c, d, u, x, X.
unfoldable pub of_word : ℕ → ℕ → ℕ → ℕ → List ℕ
of_word c w pad n =
    if c == 99
    then n % 256 ∷ []
    else (if c == 100
        then signed n w pad
        else (if c == 117
            then put_uint n 10 lower w pad
            else (if c == 120 then put_uint n 16 lower w pad else put_uint n 16 upper w pad)))

abbrev pub wants_word : ℕ → Bool
wants_word c =
    if c == 99
    then true
    else (if c == 100
        then true
        else (if c == 117 then true else (if c == 120 then true else c == 88)))

-- The text of a conversion and the arguments that are left. An argument of another kind is undefined.
unfoldable pub take_word : ℕ → ℕ → ℕ → List Arg → Option (List ℕ × List Arg)
take_word c w pad [] = none
take_word c w pad (word n ∷ args) = some (of_word c w pad n, args)
take_word c w pad (text s ∷ args) = none
take_word c w pad (null ∷ args) = none

unfoldable pub take_text : List Arg → Option (List ℕ × List Arg)
take_text [] = none
take_text (word n ∷ args) = none
take_text (text s ∷ args) = some (s, args)
take_text (null ∷ args) = some (40 ∷ 110 ∷ 117 ∷ 108 ∷ 108 ∷ 41 ∷ [], args)

unfoldable pub convert : ℕ → ℕ → ℕ → List Arg → Option (List ℕ × List Arg)
convert c w pad args =
    if wants_word c
    then take_word c w pad args
    else (if c == 115
        then take_text args
        else (if c == 37 then some (37 ∷ [], args) else some (37 ∷ c ∷ [], args)))

abbrev pub is_digit : ℕ → Bool
is_digit c = leb 48 c && leb c 57

-- One character of the format: where the loop is then, what is put into the sink, the arguments that are left.
unfoldable pub converted : Option (List ℕ × List Arg) → Option (Mode × List ℕ × List Arg)
converted none = none
converted (some (t, args)) = some (plain, t, args)

unfoldable pub in_width : ℕ → ℕ → ℕ → List Arg → Option (Mode × List ℕ × List Arg)
in_width pad w c args =
    if is_digit c
    then some (width pad (w * 10 + (c - 48)), [], args)
    else converted (convert c w pad args)

unfoldable pub turn : Mode → ℕ → List Arg → Option (Mode × List ℕ × List Arg)
turn plain c args = if c == 37 then some (flag, [], args) else some (plain, c ∷ [], args)
turn flag c args = if c == 48 then some (width 48 0, [], args) else in_width 32 0 c args
turn (width pad w) c args = in_width pad w c args

-- What a character of the format comes to, with the rest of the loop.
unfoldable pub after_turn :
    (Mode → List Arg → PrintfSink → Run PrintfSink)
    → PrintfSink
    → Option (Mode × List ℕ × List Arg)
    → Run PrintfSink
after_turn loop s none = fault
after_turn loop s (some (m, t, args)) = loop m args (sink_puts t s)

-- uart_vprintf from a place in the format on. A format that ends inside a conversion is read past its end.
unfoldable pub vprintf : List ℕ → Mode → List Arg → PrintfSink → Run PrintfSink
vprintf [] plain args s = done (sink_flush s)
vprintf [] flag args s = fault
vprintf [] (width pad w) args s = fault
vprintf (c ∷ f) m args s = after_turn (vprintf f) s (turn m c args)

-- ===== src/Uart/Print/Chunks.antt =====
-- Printing in chunks prints the text.
use rpitos.Prelude.{
  ℕ, ◌≤◌, ◌≡◌, false, ◌==◌, ltb, leb, List, [], ◌∷◌, ◌++◌, length, length-append, Option, none,
  some, arith, refl, sym, ap, ◌∙◌, Bool-cases, inl, inr,
}
use mathlib.Core.List.{append_assoc, append-nil}
use mathlib.Core.Path.{subst}
use rpitos.Status.{Run, done}
use rpitos.Uart.Print.{
  until_nul, PrintfSink, sink_flush, sink_putc, sink_puts, Arg, Mode, plain, flag, width, turn,
  after_turn, vprintf,
}

abbrev pub before : List ℕ → Option (List ℕ) → Option (List ℕ)
before t none = none
before t (some u) = some (t ++ u)

-- The text of a format with its arguments, without a sink.
abbrev pub more :
    (Mode → List Arg → Option (List ℕ)) → Option (Mode × List ℕ × List Arg) → Option (List ℕ)
more rest none = none
more rest (some (m, t, args)) = before t (rest m args)

unfoldable pub render : List ℕ → Mode → List Arg → Option (List ℕ)
render [] plain args = some []
render [] flag args = none
render [] (width pad w) args = none
render (c ∷ f) m args = more (render f) (turn m c args)

-- No NUL.
abbrev pub IsText : List ℕ → Type 0
IsText [] = Unit
IsText (c ∷ cs) = ((c == 0) ≡ false) × IsText cs

until_nul_lem : (cs : List ℕ) → IsText cs → until_nul cs ≡ cs
unfolding until_nul
until_nul_lem [] v = refl
until_nul_lem (c ∷ cs) v = rw (v.0, until_nul_lem cs v.1) refl

IsText-append : (xs ys : List ℕ) → IsText xs → IsText ys → IsText (xs ++ ys)
IsText-append [] ys v w = w
IsText-append (x ∷ xs) ys v w = (v.0, IsText-append xs ys v.1 w)

IsText-split : (xs ys : List ℕ) → IsText (xs ++ ys) → IsText xs × IsText ys
IsText-split [] ys v = (tt, v)
IsText-split (x ∷ xs) ys v = let (a, b) = IsText-split xs ys v.1 in ((v.0, a), b)

-- What was printed and what is still in the buffer, which has room.
abbrev pub all_of : PrintfSink → List ℕ
all_of s = s.printed ++ s.buf

pub record IsSink (s : PrintfSink) : Type 0 where
  clean : IsText s.buf
  room : length s.buf ≤ 31

abbrev put_in : List ℕ → List ℕ → PrintfSink
put_in b p = record { printed = p; buf = b }

nothing_left :
    (p b : List ℕ)
    → ltb 0 (length b) ≡ false
    → ◌≡◌ {A = PrintfSink} (record { printed = p; buf = b }) (record { printed = p ++ b; buf = [] })
nothing_left p [] e = ap (put_in []) (sym (append-nil p))
nothing_left p (x ∷ xs) e = absurd (ground arith)

sink_flush_lem :
    (s : PrintfSink) → IsSink s → (sink_flush s ≡ record { printed = all_of s; buf = [] })
unfolding sink_flush
sink_flush_lem s i = elim (Bool-cases (ltb 0 (length s.buf))) [
  | inl e ↦ rw (e, until_nul_lem s.buf i.clean) refl
  | inr e ↦ rw e (nothing_left s.printed s.buf e)
]

sink_putc_lem :
    (c : ℕ) (s : PrintfSink)
    → (c == 0) ≡ false
    → IsSink s
    → IsSink (sink_putc c s) × (all_of (sink_putc c s) ≡ all_of s ++ c ∷ [])
unfolding sink_putc
sink_putc_lem c s v i = elim (Bool-cases (leb 31 (length s.buf))) [
  | inl e ↦ rw (e, sink_flush_lem s i) (record { clean = (v, tt); room = omega arith }, refl)
  | inr e ↦ rw e (
    record {
      clean = IsText-append s.buf (c ∷ []) i.clean (v, tt);
      room = ground (arith, length-append s.buf (c ∷ []));
    },
    sym (append_assoc s.printed s.buf (c ∷ [])),
  )
]

sink_puts_lem :
    (cs : List ℕ) (s : PrintfSink)
    → IsText cs
    → IsSink s
    → IsSink (sink_puts cs s) × (all_of (sink_puts cs s) ≡ all_of s ++ cs)
unfolding sink_puts
sink_puts_lem [] s v i = (i, sym (append-nil (all_of s)))
sink_puts_lem (c ∷ cs) s v i =
    let (i1, e1) = sink_putc_lem c s v.0 i in
    let (i2, e2) = sink_puts_lem cs (sink_putc c s) v.1 i1 in
    (i2, e2 ∙ ap (λ xs. xs ++ cs) e1 ∙ append_assoc (all_of s) (c ∷ []) cs)

before_some :
    (t u : List ℕ) (r : Option (List ℕ))
    → before t r ≡ some u
    → (v : List ℕ) × (r ≡ some v) × (t ++ v ≡ u)
before_some t u none e = cc
before_some t u (some v) e = (v, refl, cc)

abbrev shown : PrintfSink → List ℕ → Run PrintfSink
shown s u = done (put_in [] (all_of s ++ u))

after_turn-shown :
    (f : List ℕ) (s : PrintfSink) (u : List ℕ) (o : Option (Mode × List ℕ × List Arg))
    → IsSink s
    → more (render f) o ≡ some u
    → IsText u
    → ((m : Mode) (args : List Arg) (s : PrintfSink) (u : List ℕ)
        → IsSink s
        → render f m args ≡ some u
        → IsText u
        → vprintf f m args s ≡ shown s u)
    → after_turn (vprintf f) s o ≡ shown s u
unfolding after_turn
after_turn-shown f s u none i e v h = cc
after_turn-shown f s u (some (m, t, args)) i e v h =
    let (rest, r, sum) = before_some t u (render f m args) e in
    let (vt, vr) = IsText-split t rest (subst IsText (sym sum) v) in
    let (i2, e2) = sink_puts_lem t s vt i in
    h m args (sink_puts t s) rest i2 r vr
    ∙ ap (λ xs. done (put_in [] (xs ++ rest))) e2
    ∙ ap (λ xs. done (put_in [] xs))
        (append_assoc (all_of s) t rest ∙ ap (λ xs. all_of s ++ xs) sum)

pub vprintf-shown :
    (f : List ℕ) (m : Mode) (args : List Arg) (s : PrintfSink) (u : List ℕ)
    → IsSink s
    → render f m args ≡ some u
    → IsText u
    → vprintf f m args s ≡ shown s u
unfolding render vprintf
vprintf-shown [] plain args s u i e v =
    let empty : [] ≡ u = cc in
    ap done (sink_flush_lem s i)
    ∙ ap (λ xs. done (put_in [] xs)) (sym (append-nil (all_of s)) ∙ ap (λ xs. all_of s ++ xs) empty)
vprintf-shown [] flag args s u i e v = cc
vprintf-shown [] (width pad w) args s u i e v = cc
vprintf-shown (c ∷ f) m args s u i e v =
    after_turn-shown f s u (turn m c args) i e v (vprintf-shown f)

abbrev pub empty_sink : PrintfSink
empty_sink = record { printed = []; buf = [] }

pub empty-IsSink : IsSink empty_sink
empty-IsSink = record { clean = tt; room = omega arith }

-- ===== src/Telemetry/Stream.antt =====
-- What a receiver makes of the bytes on the line.
use rpitos.Prelude.{
  ℕ, zero, suc, ◌+◌, ◌%◌, ◌<◌, ◌≤◌, ◌≡◌, Bool, true, false, ◌&&◌, ◌==◌, leb, if◌then◌else◌, update,
  List, [], ◌∷◌, ◌++◌, length, Option, none, some, arith, refl, sym, ap, ◌∙◌, Bool-cases, inl, inr,
}
use mathlib.Core.List.{append_assoc, append-nil}
use rpitos.Crc.{hw_update, half, word, start, finish}
use rpitos.Crc.Bytes.{IsBytes, hw_update-append}
use rpitos.Telemetry.{
  Line, telemetry_trailer, num_telemetry_packet_types, header, little_endian, checksum, frame,
  send_framed,
}

-- A packet as it is received: its type, sequence number and payload.
abbrev pub Packet : Type 0
Packet = ℕ × ℕ × List ℕ

abbrev first : ℕ → List ℕ → List ℕ
first zero xs = []
first (suc n) [] = []
first (suc n) (x ∷ xs) = x ∷ first n xs

abbrev behind : ℕ → List ℕ → List ℕ
behind zero xs = xs
behind (suc n) [] = []
behind (suc n) (x ∷ xs) = behind n xs

first-append : (xs ys : List ℕ) → first (length xs) (xs ++ ys) ≡ xs
first-append [] ys = refl
first-append (x ∷ xs) ys = ap (λ zs. x ∷ zs) (first-append xs ys)

behind-append : (xs ys : List ℕ) → behind (length xs) (xs ++ ys) ≡ ys
behind-append [] ys = refl
behind-append (x ∷ xs) ys = behind-append xs ys

abbrev same_bytes : List ℕ → List ℕ → Bool
same_bytes [] [] = true
same_bytes (x ∷ xs) (y ∷ ys) = (x == y) && same_bytes xs ys
same_bytes _ _ = false

-- The checksum and the trailer, and what is behind them.
abbrev closed : List ℕ → Packet → List ℕ → Option (Packet × List ℕ)
closed crc p (a ∷ b ∷ c ∷ d ∷ e ∷ rest) =
    if same_bytes (a ∷ b ∷ c ∷ d ∷ []) crc && (e == 0x5A) then some (p, rest) else none
closed crc p _ = none

module _ (crc32b crc32h crc32w : ℕ → ℕ → ℕ) where
  -- The checksum is taken over the header and the payload in one.
  unfoldable pub decode : List ℕ → Option (Packet × List ℕ)
  decode (m ∷ type ∷ seq ∷ msb ∷ len ∷ rest) =
      let payload = first len rest in
      let crc =
        finish (hw_update crc32b crc32h crc32w start (m ∷ type ∷ seq ∷ msb ∷ len ∷ payload)) in
      if (m == 0xA5) && (msb == 0)
      then closed (little_endian crc) (type, seq, payload) (behind len rest)
      else none
  decode _ = none

  abbrev pub received :
      (List ℕ → Option (List Packet)) → Option (Packet × List ℕ) → Option (List Packet)
  received more none = none
  received more (some (p, rest)) = elim (more rest) [ none ↦ none | some ps ↦ some (p ∷ ps) ]

  -- So many packets, with nothing in front of them, between them or behind them.
  unfoldable pub receive : ℕ → List ℕ → Option (List Packet)
  receive zero [] = some []
  receive zero (b ∷ bs) = none
  receive (suc n) bs = received (receive n) (decode bs)

  -- telemetry_send_framed, for one packet after the other.
  unfoldable pub sends : List (ℕ × List ℕ) → Line → Line
  sends [] l = l
  sends ((type, payload) ∷ ps) l = sends ps (send_framed crc32b crc32h crc32w type payload l)

-- The packets with their numbers, counted for each type modulo 256.
abbrev pub numbered : (ℕ → ℕ) → List (ℕ × List ℕ) → List Packet
numbered seq [] = []
numbered seq ((type, payload) ∷ ps) =
    (type, seq type, payload) ∷ numbered (update seq type ((seq type + 1) % 256)) ps

-- Types of packets that there are, with payloads of at most 255 bytes.
abbrev pub IsSendable : List (ℕ × List ℕ) → Type 0
IsSendable [] = Unit
IsSendable ((type, payload) ∷ ps) =
    (type < num_telemetry_packet_types) × IsBytes payload × (length payload ≤ 255) × IsSendable ps

same_bytes_refl : (xs : List ℕ) → same_bytes xs xs ≡ true
same_bytes_refl [] = refl
same_bytes_refl (x ∷ xs) = let e : (x == x) ≡ true = ground arith in rw e (same_bytes_refl xs)

closed_lem :
    (n : ℕ) (p : Packet) (rest : List ℕ)
    → closed (little_endian n) p ((little_endian n ++ telemetry_trailer ∷ []) ++ rest)
      ≡ some (p, rest)
closed_lem n p rest = rw (same_bytes_refl (little_endian n)) refl

module _ (crc32b crc32h crc32w : ℕ → ℕ → ℕ)
    (halves : (crc a b : ℕ) → a < 256 → b < 256 → crc32h crc (half a b) ≡ crc32b (crc32b crc a) b)
    (words : (crc a b c d : ℕ)
      → a < 256
      → b < 256
      → c < 256
      → d < 256
      → crc32w crc (word a b c d) ≡ crc32b (crc32b (crc32b (crc32b crc a) b) c) d) where
  whole :
      (head payload : List ℕ)
      → IsBytes head
      → IsBytes payload
      → finish (hw_update crc32b crc32h crc32w start (head ++ payload))
        ≡ checksum crc32b crc32h crc32w head payload
  unfolding checksum
  whole head [] v w = rw (append-nil head) refl
  whole head (x ∷ xs) v w =
      let some_bytes : (suc (length xs) == 0) ≡ false = ground arith in
      rw some_bytes (
        ap finish
          (sym (hw_update-append crc32b crc32h crc32w halves words start head (x ∷ xs) v w)))

  decode-frame :
      (type seq : ℕ) (payload rest : List ℕ)
      → type < num_telemetry_packet_types
      → seq < 256
      → IsBytes payload
      → length payload ≤ 255
      → decode crc32b crc32h crc32w (frame crc32b crc32h crc32w type seq payload ++ rest)
        ≡ some ((type, seq, payload), rest)
  unfolding decode frame
  decode-frame type seq payload rest p q v w =
      let head = header type seq (length payload) in
      let n = checksum crc32b crc32h crc32w head payload in
      let crc =
        whole head payload (omega arith, (omega arith, (q, (omega arith, (omega arith, tt))))) v in
      let trailer = telemetry_trailer ∷ [] in
      let shape : payload ++ little_endian n ++ trailer ++ rest
          ≡ payload ++ (little_endian n ++ trailer ++ rest) =
        ap (λ x. x ++ rest) (append_assoc payload (little_endian n) trailer)
        ∙ append_assoc payload (little_endian n ++ trailer) rest in
      rw
        (
          shape,
          first-append payload ((little_endian n ++ telemetry_trailer ∷ []) ++ rest),
          behind-append payload ((little_endian n ++ telemetry_trailer ∷ []) ++ rest),
          crc,
        )
        (closed_lem n (type, seq, payload) rest)

  -- The frames of packets, one behind the other.
  abbrev stream : (ℕ → ℕ) → List (ℕ × List ℕ) → List ℕ
  stream seq [] = []
  stream seq ((type, payload) ∷ ps) =
      frame crc32b crc32h crc32w type (seq type) payload
      ++ stream (update seq type ((seq type + 1) % 256)) ps

  sends-stream :
      (ps : List (ℕ × List ℕ)) (l : Line)
      → IsSendable ps
      → (sends crc32b crc32h crc32w ps l).sent ≡ l.sent ++ stream l.seq_counters ps
  unfolding sends send_framed
  sends-stream [] l v = sym (append-nil l.sent)
  sends-stream ((type, payload) ∷ ps) l v =
      let known : leb num_telemetry_packet_types type ≡ false = ground (arith, v.0) in
      let f = frame crc32b crc32h crc32w type (l.seq_counters type) payload in
      let next : Line = record {
        seq_counters = update l.seq_counters type ((l.seq_counters type + 1) % 256);
        sent = l.sent ++ f;
      } in
      let step : send_framed crc32b crc32h crc32w type payload l ≡ next = rw known refl in
      ap (λ x. (sends crc32b crc32h crc32w ps x).sent) step
      ∙ sends-stream ps next v.3
      ∙ append_assoc l.sent f (stream next.seq_counters ps)

  bounded :
      (seq : ℕ → ℕ) (type : ℕ)
      → ((t : ℕ) → seq t < 256)
      → (t : ℕ) → update seq type ((seq type + 1) % 256) t < 256
  bounded seq type q t = elim (Bool-cases (t == type)) [
    | inl e ↦ rw e (omega arith)
    | inr e ↦ rw e (q t)
  ]

  receive-stream :
      (ps : List (ℕ × List ℕ)) (seq : ℕ → ℕ)
      → ((type : ℕ) → seq type < 256)
      → IsSendable ps
      → receive crc32b crc32h crc32w (length ps) (stream seq ps) ≡ some (numbered seq ps)
  unfolding receive
  receive-stream [] seq q v = refl
  receive-stream ((type, payload) ∷ ps) seq q v =
      let later = update seq type ((seq type + 1) % 256) in
      rw
        (
          decode-frame type (seq type) payload (stream later ps) v.0 (q type) v.1 v.2,
          receive-stream ps later (bounded seq type q) v.3,
        )
        refl

  -- Instructions where crc32h and crc32w fold their bytes as crc32b does, and packets of the types that there
  -- are with payloads of at most 255 bytes, sent one after the other on an empty line: a receiver that checks
  -- each frame takes exactly those packets from the line, in order, each with the number that counts the packets
  -- of its type modulo 256.
  pub receive-sends :
      (ps : List (ℕ × List ℕ)) (seq : ℕ → ℕ)
      → ((type : ℕ) → seq type < 256)
      → IsSendable ps
      → receive crc32b crc32h crc32w
          (length ps)
          (sends crc32b crc32h crc32w ps (record { seq_counters = seq; sent = [] })).sent
        ≡ some (numbered seq ps)
  receive-sends ps seq q v =
      ap (receive crc32b crc32h crc32w (length ps))
        (sends-stream ps (record { seq_counters = seq; sent = [] }) v)
      ∙ receive-stream ps seq q v

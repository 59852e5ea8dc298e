-- ===== src/Boot/Dfu/Packet/Framing.antt =====
-- A packet that is sent whole is received, and one longer than DATA overruns it.
use rpitos.Prelude.{
  ℕ, zero, suc, ◌+◌, ◌-◌, ◌*◌, ◌/◌, ◌%◌, ◌^◌, ◌≤◌, ◌<◌, ◌≡◌, true, false, ◌==◌, ltb, leb, List, [],
  ◌∷◌, ◌++◌, length, length-append, arith, update, Bool-cases, inl, inr, bytes_of, refl, ap, ◌∙◌,
}
use mathlib.Core.Path.{subst}
use rpitos.Boot.Dfu.Packet.{
  Event, byte, quiet, DfuPacket, at_start, at_crc, goes_on, overrun, Outcome, received, overran,
  fill, length_lsb, crc_b4, crc_b3, crc_b2, packet_turn, next_turn, after_turn, packet_loop,
  packet_receive,
}

abbrev pub bytes : List ℕ → List Event → List Event
bytes [] es = es
bytes (x ∷ xs) es = byte x ∷ bytes xs es

abbrev crc_and_end : ℕ → List Event → List Event
crc_and_end crc es =
    byte (crc / 16777216)
    ∷ byte (crc / 65536 % 256)
    ∷ byte (crc / 256 % 256)
    ∷ byte (crc % 256)
    ∷ byte 0xBB
    ∷ es

-- A packet on the line: the start, the command, the length and the payload, the checksum and the end.
abbrev pub encode : ℕ → List ℕ → ℕ → List Event → List Event
encode cmd xs crc es =
    byte 0xAA
    ∷ byte cmd
    ∷ byte (length xs / 256)
    ∷ byte (length xs % 256)
    ∷ bytes xs (crc_and_end crc es)

-- Bytes of which none starts a packet, and silences.
abbrev pub IsNoise : List Event → Type 0
IsNoise [] = Unit
IsNoise (byte b ∷ es) = ((b == 0xAA) ≡ false) × IsNoise es
IsNoise (quiet ∷ es) = IsNoise es

abbrev store : (ℕ → ℕ) → ℕ → List ℕ → ℕ → ℕ
store f i [] = f
store f i (x ∷ xs) = store (update f i x) (i + 1) xs

store-below : (f : ℕ → ℕ) (i : ℕ) (xs : List ℕ) (j : ℕ) → j < i → store f i xs j ≡ f j
store-below f i [] j p = refl
store-below f i (x ∷ xs) j p =
    let e : (j == i) ≡ false = ground arith in
    store-below (update f i x) (i + 1) xs j (omega arith) ∙ rw e refl

bytes_of-store : (f : ℕ → ℕ) (i : ℕ) (xs : List ℕ) → bytes_of (store f i xs) i (length xs) ≡ xs
bytes_of-store f i [] = refl
bytes_of-store f i (x ∷ xs) =
    let e : (i == i) ≡ true = ground arith in
    let head : store (update f i x) (i + 1) xs i ≡ x =
      store-below (update f i x) (i + 1) xs i (omega arith) ∙ rw e refl in
    rw (head, bytes_of-store (update f i x) (i + 1) xs) refl

fill-bytes :
    (xs : List ℕ) (i : ℕ) (p : DfuPacket) (es : List Event)
    → i + length xs ≤ 256
    → fill (length xs) i p (bytes xs es)
      ≡ goes_on at_crc (record p { payload = store p.payload i xs }) es
unfolding fill
fill-bytes [] i p es e = refl
fill-bytes (x ∷ xs) i p es e =
    let q = record p { payload = update p.payload i x } in
    let b : ltb i 256 ≡ true = ground arith in rw b (fill-bytes xs (i + 1) q es (omega arith))

fill-overrun :
    (xs : List ℕ) (i : ℕ) (p : DfuPacket) (es : List Event)
    → i ≤ 256
    → 256 < i + length xs
    → fill (length xs) i p (bytes xs es) ≡ overrun
unfolding fill
fill-overrun [] i p es e l = absurd (omega arith)
fill-overrun (x ∷ xs) i p es e l =
    let q = record p { payload = update p.payload i x } in
    elim (Bool-cases (ltb i 256)) [
      | inl b ↦ rw b (fill-overrun xs (i + 1) q es (ground arith) (omega arith))
      | inr b ↦ rw b refl
    ]

-- The packet once the payload is read.
abbrev read_packet : DfuPacket → ℕ → List ℕ → DfuPacket
read_packet p cmd xs = record p { cmd = cmd; len = length xs; payload = store p.payload 0 xs }

loop-payload :
    (n cmd x : ℕ) (xs : List ℕ) (p : DfuPacket) (es : List Event)
    → 1 ≤ cmd
    → cmd < 9
    → packet_loop (suc (suc (suc (suc n)))) at_start p (
        byte 0xAA
        ∷ byte cmd
        ∷ byte (suc (length xs) / 256)
        ∷ byte (suc (length xs) % 256)
        ∷ byte x
        ∷ es)
      ≡ after_turn (packet_loop n) (
          fill
            (length xs)
            1
            (record p { cmd = cmd; len = suc (length xs); payload = update p.payload 0 x })
            es)
unfolding packet_loop next_turn packet_turn after_turn length_lsb
loop-payload n cmd x xs p es l u =
    let e1 : leb 1 cmd ≡ true = ground arith in
    let e2 : ltb cmd 9 ≡ true = ground arith in
    let e3 : suc (length xs) / 256 * 256 + suc (length xs) % 256 ≡ suc (length xs) = omega arith in
    let e4 : suc (length xs) - 1 ≡ length xs = omega arith in rw (e1, e2, e3, e4) refl

loop-crc :
    (n crc : ℕ) (p : DfuPacket) (es : List Event)
    → crc < 2 ^ 32
    → packet_loop (suc (suc n)) at_crc p (crc_and_end crc es) ≡ received (record p { crc = crc }) es
unfolding packet_loop next_turn packet_turn after_turn crc_b2 crc_b3 crc_b4
loop-crc n crc p es l =
    let e : ((crc / 16777216 * 256 + crc / 65536 % 256) * 256 + crc / 256 % 256) * 256 + crc % 256
        ≡ crc =
      omega arith in
    rw e refl

loop-encode :
    (n cmd : ℕ) (xs : List ℕ) (crc : ℕ) (p : DfuPacket) (es : List Event)
    → 1 ≤ cmd
    → cmd < 9
    → 1 ≤ length xs
    → length xs ≤ 256
    → crc < 2 ^ 32
    → packet_loop (suc (suc (suc (suc (suc (suc n)))))) at_start p (encode cmd xs crc es)
      ≡ received (record (read_packet p cmd xs) { crc = crc }) es
unfolding after_turn
loop-encode n cmd [] crc p es l u v w b = absurd (omega (arith, v))
loop-encode n cmd (x ∷ xs) crc p es l u v w b =
    let q = record p { cmd = cmd; len = suc (length xs); payload = update p.payload 0 x } in
    let rest = crc_and_end crc es in
    loop-payload (suc (suc n)) cmd x xs p (bytes xs rest) l u
    ∙ ap (after_turn (packet_loop (suc (suc n)))) (fill-bytes xs 1 q rest (omega (arith, w)))
    ∙ loop-crc n crc (record q { payload = store q.payload 1 xs }) es b

loop-overrun :
    (n cmd : ℕ) (xs : List ℕ) (crc : ℕ) (p : DfuPacket) (es : List Event)
    → 1 ≤ cmd
    → cmd < 9
    → 256 < length xs
    → packet_loop (suc (suc (suc (suc n)))) at_start p (encode cmd xs crc es) ≡ overran
unfolding after_turn
loop-overrun n cmd [] crc p es l u v = absurd (omega (arith, v))
loop-overrun n cmd (x ∷ xs) crc p es l u v =
    let q = record p { cmd = cmd; len = suc (length xs); payload = update p.payload 0 x } in
    let rest = crc_and_end crc es in
    loop-payload n cmd x xs p (bytes xs rest) l u
    ∙ ap (after_turn (packet_loop n)) (fill-overrun xs 1 q rest (omega arith) (omega (arith, v)))

loop-encode_le :
    (k cmd : ℕ) (xs : List ℕ) (crc : ℕ) (p : DfuPacket) (es : List Event)
    → 6 ≤ k
    → 1 ≤ cmd
    → cmd < 9
    → 1 ≤ length xs
    → length xs ≤ 256
    → crc < 2 ^ 32
    → packet_loop k at_start p (encode cmd xs crc es)
      ≡ received (record (read_packet p cmd xs) { crc = crc }) es
loop-encode_le k cmd xs crc p es e l u v w b =
    let s : suc (suc (suc (suc (suc (suc (k - 6)))))) ≡ k = omega arith in
    subst
      (λ n.
        packet_loop n at_start p (encode cmd xs crc es)
        ≡ received (record (read_packet p cmd xs) { crc = crc }) es)
      s (loop-encode (k - 6) cmd xs crc p es l u v w b)

loop-overrun_le :
    (k cmd : ℕ) (xs : List ℕ) (crc : ℕ) (p : DfuPacket) (es : List Event)
    → 6 ≤ k
    → 1 ≤ cmd
    → cmd < 9
    → 256 < length xs
    → packet_loop k at_start p (encode cmd xs crc es) ≡ overran
loop-overrun_le k cmd xs crc p es e l u v =
    let s : suc (suc (suc (suc (k - 4)))) ≡ k = omega arith in
    subst (λ n. packet_loop n at_start p (encode cmd xs crc es) ≡ overran) s
      (loop-overrun (k - 4) cmd xs crc p es l u v)

-- Noise is skipped.
loop-noise :
    (n : ℕ) (noise : List Event) (p : DfuPacket) (es : List Event) (o : Outcome)
    → IsNoise noise
    → ((k : ℕ) → n ≤ k → packet_loop k at_start p es ≡ o)
    → (k : ℕ) → n + length noise ≤ k
    → packet_loop k at_start p (noise ++ es) ≡ o
unfolding packet_loop next_turn packet_turn after_turn
loop-noise n [] p es o v h k l = h k (omega arith)
loop-noise n (byte b ∷ noise) p es o v h zero l = absurd (omega arith)
loop-noise n (byte b ∷ noise) p es o v h (suc k) l =
    rw (v.0) (loop-noise n noise p es o v.1 h k (omega arith))
loop-noise n (quiet ∷ noise) p es o v h zero l = absurd (omega arith)
loop-noise n (quiet ∷ noise) p es o v h (suc k) l =
    loop-noise n noise p es o v h (suc k) (omega arith)

length-bytes : (xs : List ℕ) (es : List Event) → length (bytes xs es) ≡ length xs + length es
length-bytes [] es = omega arith
length-bytes (x ∷ xs) es = omega (arith, length-bytes xs es)

-- Enough turns for a packet in noise.
fuel-encode :
    (noise : List Event) (cmd : ℕ) (xs : List ℕ) (crc : ℕ) (es : List Event)
    → 6 + length noise ≤ suc (length (noise ++ encode cmd xs crc es))
fuel-encode noise cmd xs crc es =
    omega (arith, length-append noise (encode cmd xs crc es), length-bytes xs (crc_and_end crc es))

-- A packet with a command of the protocol, a payload of 1 to 256 bytes and a checksum of 32 bits, sent without a
-- silence, after bytes of which none is 0xAA and silences: dfu_packet_receive returns it, with its command,
-- length, payload and checksum, whatever the packet held, and leaves what follows on the line.
pub packet_receive-encode :
    (noise : List Event) (cmd : ℕ) (xs : List ℕ) (crc : ℕ) (p : DfuPacket) (es : List Event)
    → IsNoise noise
    → 1 ≤ cmd
    → cmd < 9
    → 1 ≤ length xs
    → length xs ≤ 256
    → crc < 2 ^ 32
    → (q : DfuPacket) × (packet_receive p (noise ++ encode cmd xs crc es) ≡ received q es)
      × (q.cmd ≡ cmd)
      × (q.len ≡ length xs)
      × (bytes_of q.payload 0 q.len ≡ xs)
      × (q.crc ≡ crc)
packet_receive-encode noise cmd xs crc p es v l u w b c =
    let q = record (read_packet p cmd xs) { crc = crc } in
    (
      q,
      loop-noise 6 noise p (encode cmd xs crc es) (received q es) v
          (λ k e. loop-encode_le k cmd xs crc p es e l u w b c)
          (suc (length (noise ++ encode cmd xs crc es))) (fuel-encode noise cmd xs crc es),
      refl,
      refl,
      bytes_of-store p.payload 0 xs,
      refl,
    )

-- A packet as before, but with a payload of 257 bytes or more: dfu_packet_receive writes past the end of DATA.
pub packet_receive-overruns :
    (noise : List Event) (cmd : ℕ) (xs : List ℕ) (crc : ℕ) (p : DfuPacket) (es : List Event)
    → IsNoise noise
    → 1 ≤ cmd
    → cmd < 9
    → 256 < length xs
    → length xs < 65536
    → packet_receive p (noise ++ encode cmd xs crc es) ≡ overran
packet_receive-overruns noise cmd xs crc p es v l u w b =
    loop-noise 6 noise p (encode cmd xs crc es) overran v
      (λ k e. loop-overrun_le k cmd xs crc p es e l u w)
      (suc (length (noise ++ encode cmd xs crc es))) (fuel-encode noise cmd xs crc es)

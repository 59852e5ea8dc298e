-- ===== src/Uart/Drain.antt =====
-- Both drains send what was put in, in order.
use rpitos.Prelude.{
  ℕ, zero, suc, ◌+◌, ◌-◌, ◌%◌, ◌<◌, ◌≤◌, ◌≡◌, ◌⊎◌, refl, sym, ap, ◌∙◌, arith, true, false, ◌==◌,
  ltb, Bool-cases, inl, inr, update, bytes_of, List, [], ◌∷◌, ◌++◌,
}
use rpitos.Uart.{TxRing, channel_tx, drain_pio, drain_dma, dma_run}

-- The number of entries to be sent, and the entries.
abbrev pub count : TxRing → ℕ
count r = (r.right + 2056 - r.left) % 2056

abbrev pub pending : (ℕ → ℕ) → ℕ → ℕ → List ℕ
pending buf l zero = []
pending buf l (suc n) = buf ((l + 1) % 2056) ∷ pending buf ((l + 1) % 2056) n

pub record IsRing (r : TxRing) : Type 0 where
  pub left : r.left < 2056
  pub right : r.right < 2056

abbrev ended : (ℕ → ℕ) → ℕ → ℕ → List ℕ × TxRing
ended buf e l = ([], record { buf = buf; left = l; right = e })

drain_pio_at :
    (n k : ℕ) (buf : ℕ → ℕ) (l e : ℕ)
    → n ≤ k
    → l < 2056
    → e < 2056
    → (e + 2056 - l) % 2056 ≡ n
    → drain_pio k (record { buf = buf; left = l; right = e })
      ≡ (pending buf l n, record { buf = buf; left = e; right = e })
unfolding drain_pio
drain_pio_at zero zero buf l e p q r z = let same : l ≡ e = omega arith in ap (ended buf e) same
drain_pio_at zero (suc k) buf l e p q r z =
    let same : l ≡ e = omega arith in
    let d : (e == l) ≡ true = ground arith in rw d (ap (ended buf e) same)
drain_pio_at (suc n) zero buf l e p q r z = absurd (omega arith)
drain_pio_at (suc n) (suc k) buf l e p q r z =
    let d : (e == l) ≡ false = ground arith in
    let i = drain_pio_at n k buf ((l + 1) % 2056) e (omega arith) (omega arith) r (omega arith) in
    rw (d, i) refl

pending-run :
    (buf : ℕ → ℕ) (l m : ℕ)
    → (l + 1) % 2056 + m ≤ 2056
    → pending buf l m ≡ bytes_of buf ((l + 1) % 2056) m
pending-run buf l zero p = refl
pending-run buf l (suc zero) p = refl
pending-run buf l (suc (suc m)) p =
    let at = (l + 1) % 2056 in
    let next : (at + 1) % 2056 ≡ at + 1 = omega arith in
    ap (λ xs. buf at ∷ xs)
      (pending-run buf at (suc m) (omega arith) ∙ ap (λ x. bytes_of buf x (suc m)) next)

pending-append :
    (buf : ℕ → ℕ) (l m n : ℕ)
    → l < 2056
    → pending buf l (m + n) ≡ pending buf l m ++ pending buf ((l + m) % 2056) n
pending-append buf l zero n p =
    let a : 0 + n ≡ n = omega arith in
    let b : l ≡ (l + 0) % 2056 = omega arith in ap (pending buf l) a ∙ ap (λ x. pending buf x n) b
pending-append buf l (suc m) n p =
    let at = (l + 1) % 2056 in
    let a : suc m + n ≡ suc (m + n) = omega arith in
    let b : (at + m) % 2056 ≡ (l + suc m) % 2056 = omega arith in
    ap (pending buf l) a
    ∙ ap (λ xs. buf at ∷ xs)
        (pending-append buf at m n (omega arith) ∙ ap (λ x. pending buf at m ++ pending buf x n) b)

-- A run is not longer than what is to be sent, nor than the rest of the buffer, and not empty.
record IsRun (l e n m : ℕ) : Type 0 where
  some : 0 < m
  most : m ≤ n
  fits : (l + 1) % 2056 + m ≤ 2056
  left : (e + 2056 - (l + m) % 2056) % 2056 ≡ n - m

dma_run-IsRun :
    (buf : ℕ → ℕ) (l e n : ℕ)
    → l < 2056
    → e < 2056
    → (e + 2056 - l) % 2056 ≡ n
    → 0 < n
    → IsRun l e n (dma_run (record { buf = buf; left = l; right = e }))
unfolding dma_run
dma_run-IsRun buf l e n q r z s =
    elim (Bool-cases (ltb 2056 ((l + 1) % 2056 + (e + 2056 - l) % 2056))) [
      | inl t ↦ rw t (record {
        some = omega arith;
        most = ground arith;
        fits = omega arith;
        left = ground arith;
      })
      | inr t ↦ rw t (record {
        some = omega arith;
        most = omega arith;
        fits = ground arith;
        left = omega arith;
      })
    ]

run-sent :
    (buf : ℕ → ℕ) (l e n m : ℕ)
    → l < 2056
    → IsRun l e n m
    → bytes_of buf ((l + 1) % 2056) m ++ pending buf ((l + m) % 2056) (n - m) ≡ pending buf l n
run-sent buf l e n m q i =
    let a : m + (n - m) ≡ n = omega (arith, i.most) in
    ap (λ xs. xs ++ pending buf ((l + m) % 2056) (n - m)) (sym (pending-run buf l m i.fits))
    ∙ sym (pending-append buf l m (n - m) q)
    ∙ ap (pending buf l) a

drain_dma_at :
    (k n : ℕ) (buf : ℕ → ℕ) (l e : ℕ)
    → n ≤ k
    → l < 2056
    → e < 2056
    → (e + 2056 - l) % 2056 ≡ n
    → drain_dma k (record { buf = buf; left = l; right = e })
      ≡ (pending buf l n, record { buf = buf; left = e; right = e })
unfolding drain_dma
drain_dma_at zero zero buf l e p q r z = let same : l ≡ e = omega arith in ap (ended buf e) same
drain_dma_at zero (suc n) buf l e p q r z = absurd (omega arith)
drain_dma_at (suc k) zero buf l e p q r z =
    let same : l ≡ e = omega arith in
    let d : (e == l) ≡ true = ground arith in rw d (ap (ended buf e) same)
drain_dma_at (suc k) (suc n) buf l e p q r z =
    let d : (e == l) ≡ false = ground arith in
    let m = dma_run (record { buf = buf; left = l; right = e }) in
    let i = dma_run-IsRun buf l e (suc n) q r z (omega arith) in
    let c =
      drain_dma_at k (suc n - m) buf ((l + m) % 2056) e (omega (arith, i.some)) (omega arith) r
        i.left in
    rw (d, c, run-sent buf l e (suc n) m q i) refl

-- With indices inside the buffer and as many turns as bytes to be sent: draining by DMA runs sends exactly the
-- bytes that are to be sent, in order, and empties the ring, and draining byte by byte does the same.
pub drain_dma-drain_pio :
    (r : TxRing) (k : ℕ)
    → IsRing r
    → count r ≤ k
    → (drain_dma k r ≡ (pending r.buf r.left (count r), record r { left = r.right }))
      × (drain_pio k r ≡ drain_dma k r)
drain_dma-drain_pio r k v p =
    let a = drain_dma_at k (count r) r.buf r.left r.right p v.left v.right refl in
    (a, drain_pio_at (count r) k r.buf r.left r.right p v.left v.right refl ∙ sym a)

pending-update :
    (buf : ℕ → ℕ) (nx b n l : ℕ)
    → l < 2056
    → nx < 2056
    → n ≤ (nx + 2056 - l - 1) % 2056
    → pending (update buf nx b) l n ≡ pending buf l n
pending-update buf nx b zero l p q r = refl
pending-update buf nx b (suc n) l p q r =
    let at = (l + 1) % 2056 in
    let d : (at == nx) ≡ false = ground arith in
    rw (d, pending-update buf nx b n at (omega arith) q (omega arith)) refl

pending-snoc :
    (buf : ℕ → ℕ) (l e b n : ℕ)
    → l < 2056
    → e < 2056
    → (e + 2056 - l) % 2056 ≡ n
    → n < 2055
    → pending (update buf ((e + 1) % 2056) b) l (n + 1) ≡ pending buf l n ++ b ∷ []
pending-snoc buf l e b n p q z u =
    let nx = (e + 1) % 2056 in
    let f = update buf nx b in
    let t : (((l + n) % 2056 + 1) % 2056 == nx) ≡ true = ground arith in
    let last : f (((l + n) % 2056 + 1) % 2056) ≡ b = rw t refl in
    pending-append f l n 1 p
    ∙ ap (λ xs. xs ++ pending f ((l + n) % 2056) 1)
        (pending-update buf nx b n l p (omega arith) (omega arith))
    ∙ ap (λ x. pending buf l n ++ x ∷ []) last

-- With indices inside the buffer: uart_channel_tx on a buffered channel drops the byte and leaves the ring as it
-- was where 2055 bytes are to be sent, and else puts the byte behind those that are to be sent.
pub channel_tx-pending :
    (b : ℕ) (r : TxRing)
    → IsRing r
    → ((count r ≡ 2055) × (channel_tx b r ≡ r))
      ⊎ ((count r < 2055)
          × (pending (channel_tx b r).buf (channel_tx b r).left (count (channel_tx b r))
              ≡ pending r.buf r.left (count r) ++ b ∷ []))
unfolding channel_tx
channel_tx-pending b r v = elim (Bool-cases ((r.right + 1) % 2056 == r.left)) [
  | inl e ↦ inl (ground (arith, v.left, v.right), rw e refl)
  | inr e ↦
      let u : count r < 2055 = ground (arith, v.left, v.right) in
      let c : ((r.right + 1) % 2056 + 2056 - r.left) % 2056 ≡ count r + 1 =
        ground (arith, v.left, v.right) in
      inr (u, rw (e, c) (pending-snoc r.buf r.left r.right b (count r) v.left v.right refl u))
]

-- ===== src/Emmc/Adma/Table.antt =====
-- The table covers the buffer.
use rpitos.Prelude.{
  ℕ, zero, suc, ◌+◌, ◌-◌, ◌*◌, ◌%◌, ◌^◌, ◌<◌, ◌≤◌, ◌≡◌, ◌⊎◌, true, false, ◌==◌, ltb, update, List,
  ◌++◌, some, arith, refl, sym, ap, ◌∙◌, Bool-cases, inl, inr,
}
use rpitos.Status.{done, fault}
use rpitos.Emmc.Adma.{
  Adma2Desc, line, end_line, end_at, Filled, too_large, filled, fill, mark_last, build_adma2_table,
  adma2_max_descriptors,
}
use rpitos.Emmc.Adma.Walk.{bytes, walk, bytes-append, line-ends}

-- The loop has filled `k + 1` lines from line `n` on, which stand for `r` bytes from address `a` on.
record IsFilled (room n a r : ℕ) (t : ℕ → Adma2Desc) (x : Filled) : Type 0 where
  k : ℕ
  table : ℕ → Adma2Desc
  is : x ≡ filled (n + suc k) table
  fits : k < room
  below : (i : ℕ) → i < n → table i ≡ t i
  walks : walk (suc k) (end_at table (n + k)) n ≡ some (bytes a r)

fill-empty : (room a n : ℕ) (t : ℕ → Adma2Desc) → fill room a 0 n t ≡ filled n t
unfolding fill
fill-empty zero a n t = refl
fill-empty (suc room) a n t = refl

same : (n : ℕ) → (n == n) ≡ true
same n = ground arith

elsewhere : (t : ℕ → Adma2Desc) (n j : ℕ) (d : Adma2Desc) → j < n → update t n d j ≡ t j
elsewhere t n j d l = let e : (j == n) ≡ false = ground arith in rw e refl

walk-last :
    (t : ℕ → Adma2Desc) (n a c : ℕ)
    → 0 < c
    → c ≤ 65536
    → t n ≡ line a c
    → walk 1 (end_at t n) n ≡ some (bytes a c)
unfolding walk
walk-last t n a c p q e =
    let (l, tran, end) = line-ends a c p q in
    let at : end_at t n n ≡ end_line (line a c) = rw (same n) (ap end_line e) in
    rw at (rw tran (rw end (ap (λ m. some (bytes a m)) l)))

walk-more :
    (t : ℕ → Adma2Desc) (k n a : ℕ) (xs : List ℕ)
    → t n ≡ line a 65536
    → walk k t (n + 1) ≡ some xs
    → walk (suc k) t n ≡ some (bytes a 65536 ++ xs)
unfolding walk
walk-more t k n a xs e w = rw (e, w) refl

fill-small :
    (room n a r : ℕ) (t : ℕ → Adma2Desc)
    → 0 < r
    → ltb 65536 r ≡ false
    → fill (suc room) a r n t ≡ filled (n + 1) (update t n (line a r))
unfolding fill
fill-small room n a r t p e =
    let some_left : (r == 0) ≡ false = ground arith in
    let none_left : r - r ≡ 0 = omega arith in
    rw (e, some_left, none_left)
      (fill-empty room ((a + r) % 2 ^ 32) (n + 1) (update t n (line a r)))

fill-big :
    (room n a r : ℕ) (t : ℕ → Adma2Desc)
    → ltb 65536 r ≡ true
    → a + r ≤ 2 ^ 32
    → fill (suc room) a r n t
      ≡ fill room (a + 65536) (r - 65536) (n + 1) (update t n (line a 65536))
unfolding fill
fill-big room n a r t e w =
    let some_left : (r == 0) ≡ false = ground arith in
    let no_wrap : (a + 65536) % 2 ^ 32 ≡ a + 65536 = ground arith in rw (e, some_left, no_wrap) refl

-- The lines behind line `n` and that one, which stands for a full chunk.
one_more :
    (room n a r : ℕ) (t : ℕ → Adma2Desc) (x : Filled)
    → 65536 < r
    → IsFilled room (n + 1) (a + 65536) (r - 65536) (update t n (line a 65536)) x
    → IsFilled (suc room) n a r t x
one_more room n a r t x p i =
    let moved : n + 1 + suc i.k ≡ n + suc (suc i.k) = omega arith in
    let last : n + 1 + i.k ≡ n + suc i.k = omega arith in
    let other : (n == n + suc i.k) ≡ false = ground arith in
    let first : end_at i.table (n + suc i.k) n ≡ line a 65536 =
      rw other (i.below n (omega arith) ∙ rw (same n) refl) in
    let all : 65536 + (r - 65536) ≡ r = omega arith in
    record {
      k = suc i.k;
      table = i.table;
      is = i.is ∙ ap (λ m. filled m i.table) moved;
      fits = ground arith;
      below = λ j l. i.below j (omega (arith, l)) ∙ elsewhere t n j (line a 65536) l;
      walks =
          walk-more (end_at i.table (n + suc i.k)) (suc i.k) n a (bytes (a + 65536) (r - 65536))
            first (ap (λ m. walk (suc i.k) (end_at i.table m) (n + 1)) (sym last) ∙ i.walks)
          ∙ ap some (sym (bytes-append 65536 (r - 65536) a) ∙ ap (bytes a) all);
    }

fill-IsFilled :
    (room n a r : ℕ) (t : ℕ → Adma2Desc)
    → 0 < r
    → r ≤ room * 65536
    → a + r ≤ 2 ^ 32
    → IsFilled room n a r t (fill room a r n t)
fill-IsFilled zero n a r t p q w = absurd (omega arith)
fill-IsFilled (suc room) n a r t p q w = elim (Bool-cases (ltb 65536 r)) [
  | inl e ↦ rw (fill-big room n a r t e w) (
      one_more room n a r t _ (ground arith) (
        fill-IsFilled room (n + 1) (a + 65536) (r - 65536) (update t n (line a 65536))
          (ground arith) (omega arith) (ground arith)))
  | inr e ↦
      let z : n + 0 ≡ n = omega arith in
      record {
        k = 0;
        table = update t n (line a r);
        is = fill-small room n a r t p e;
        fits = omega arith;
        below = λ j l. elsewhere t n j (line a r) l;
        walks = rw z (walk-last (update t n (line a r)) n a r p (ground arith) (rw (same n) refl));
      }
]

fill-too_large :
    (room n a r : ℕ) (t : ℕ → Adma2Desc)
    → room * 65536 < r
    → (u : ℕ → Adma2Desc) × (fill room a r n t ≡ too_large u)
unfolding fill
fill-too_large zero n a r t p =
    let some_left : (r == 0) ≡ false = ground arith in (t, rw some_left refl)
fill-too_large (suc room) n a r t p =
    let some_left : (r == 0) ≡ false = ground arith in
    let full : ltb 65536 r ≡ true = ground arith in
    let (u, e) =
      fill-too_large room (n + 1) ((a + 65536) % 2 ^ 32) (r - 65536) (update t n (line a 65536))
        (omega arith) in
    (u, rw (some_left, full) e)

-- emmc_build_adma2_table, with a buffer that does not wrap round the end of the memory, whatever the table held
-- before. At least one and at most 130 * 65536 bytes: the table is filled with at most as many lines as it has,
-- and the controller that walks it goes over every byte of the buffer once, in order, and stops there. More
-- bytes: the result is 0, on which the caller falls back to PIO. No bytes at all: the last line is marked in
-- front of the table.
pub build_adma2_table_lem :
    (buf total : ℕ) (t : ℕ → Adma2Desc)
    → buf + total ≤ 2 ^ 32
    → ((0 < total)
        × (total ≤ 130 * 65536)
        × (n : ℕ) × (u : ℕ → Adma2Desc) × (build_adma2_table buf total t ≡ done (n, u))
        × (0 < n)
        × (n ≤ adma2_max_descriptors)
        × (walk n u 0 ≡ some (bytes buf total)))
      ⊎ ((130 * 65536 < total)
          × (u : ℕ → Adma2Desc) × (build_adma2_table buf total t ≡ done (0, u)))
      ⊎ ((total ≡ 0) × (build_adma2_table buf total t ≡ fault))
unfolding build_adma2_table mark_last
build_adma2_table_lem buf total t w = elim (Bool-cases (total == 0)) [
  | inl e ↦ let z : total ≡ 0 = ground arith in inr (inr (z, rw (z, fill-empty 130 buf 0 t) refl))
  | inr e ↦ elim (Bool-cases (ltb (130 * 65536) total)) [
    | inl f ↦
        let (u, g) = fill-too_large 130 0 buf total t (ground arith) in
        inr (inl (ground arith, u, ap mark_last g))
    | inr f ↦
        let p : 0 < total = ground arith in
        let q : total ≤ 130 * 65536 = ground arith in
        let i = fill-IsFilled 130 0 buf total t p q w in
        let z : 0 + suc i.k ≡ suc i.k = omega arith in
        let y : 0 + i.k ≡ i.k = omega arith in
        inl (
          p,
          q,
          suc i.k,
          end_at i.table i.k,
          ap mark_last (i.is ∙ ap (λ m. filled m i.table) z),
          omega arith,
          ground arith,
          ap (λ m. walk (suc i.k) (end_at i.table m) 0) (sym y) ∙ i.walks,
        )
  ]
]

-- ===== src/Emmc/Adma/Walk.antt =====
-- What the controller does with the descriptor table.
use rpitos.Prelude.{
  ℕ, zero, suc, ◌+◌, ◌*◌, ◌/◌, ◌%◌, ◌<◌, ◌≤◌, ◌≡◌, Bool, true, false, ◌&&◌, ◌==◌, if◌then◌else◌,
  List, [], ◌∷◌, ◌++◌, Option, none, some, arith, refl, ap, Bool-cases, inl, inr,
}
use rpitos.Emmc.Adma.{Adma2Desc, line, end_line}

-- Addresses from one on.
unfoldable pub bytes : ℕ → ℕ → List ℕ
bytes a zero = []
bytes a (suc n) = a ∷ bytes (a + 1) n

abbrev pub length_of : Adma2Desc → ℕ
length_of d = if d.attr_len / 65536 == 0 then 65536 else d.attr_len / 65536

abbrev pub is_tran : Adma2Desc → Bool
is_tran d = (d.attr_len % 2 == 1) && (d.attr_len / 16 % 4 == 2)

abbrev pub is_end : Adma2Desc → Bool
is_end d = d.attr_len / 2 % 2 == 1

abbrev pub onto : List ℕ → Option (List ℕ) → Option (List ℕ)
onto xs none = none
onto xs (some ys) = some (xs ++ ys)

abbrev pub at_end : (ℕ → Option (List ℕ)) → ℕ → List ℕ → Bool → Option (List ℕ)
at_end rest i xs true = some xs
at_end rest i xs false = onto xs (rest (i + 1))

abbrev pub at_line : (ℕ → Option (List ℕ)) → ℕ → Adma2Desc → Bool → Option (List ℕ)
at_line rest i d true = at_end rest i (bytes d.address (length_of d)) (is_end d)
at_line rest i d false = none

-- The addresses that a controller goes over from line `i` on, up to the line that is marked as the last; none
-- where it meets a line that is not valid or there is no last one among so many lines.
unfoldable pub walk : ℕ → (ℕ → Adma2Desc) → ℕ → Option (List ℕ)
walk zero t i = none
walk (suc k) t i = at_line (walk k t) i (t i) (is_tran (t i))

pub bytes-append : (m k a : ℕ) → bytes a (m + k) ≡ bytes a m ++ bytes (a + m) k
unfolding bytes
bytes-append zero k a =
    let e : 0 + k ≡ k = omega arith in let f : a + 0 ≡ a = omega arith in rw (e, f) refl
bytes-append (suc m) k a =
    let e : suc m + k ≡ suc (m + k) = omega arith in
    let f : a + suc m ≡ a + 1 + m = omega arith in
    rw (e, f) (ap (λ xs. a ∷ xs) (bytes-append m k (a + 1)))

-- The attributes of a line with a length.
abbrev attr : ℕ → ℕ → ℕ
attr l flags = l * 65536 + flags

pub attr-length : (l flags : ℕ) → flags < 65536 → attr l flags / 65536 ≡ l
attr-length l flags p = omega arith

-- The lines of the last chunk and of those before it.
pub line-ends :
    (a c : ℕ)
    → 0 < c
    → c ≤ 65536
    → (length_of (end_line (line a c)) ≡ c)
      × (is_tran (end_line (line a c)) ≡ true)
      × (is_end (end_line (line a c)) ≡ true)
line-ends a c p q = elim (Bool-cases (c == 65536)) [
  | inl e ↦ rw e (ground arith, refl, refl)
  | inr e ↦ rw e (ground arith, ground arith, ground arith)
]

pub line-full :
    (a : ℕ)
    → (length_of (line a 65536) ≡ 65536)
      × (is_tran (line a 65536) ≡ true)
      × (is_end (line a 65536) ≡ false)
line-full a = (refl, refl, refl)

-- ===== src/Crc/Bytes.antt =====
-- The checksum does not depend on how the bytes are grouped.
use rpitos.Prelude.{ℕ, ◌<◌, ◌≡◌, refl, sym, ap, ◌∙◌, List, [], ◌∷◌, ◌++◌}
use rpitos.Crc.{half, word, hw_update}

-- One crc32b for each byte.
abbrev pub by_byte : (ℕ → ℕ → ℕ) → ℕ → List ℕ → ℕ
by_byte f crc [] = crc
by_byte f crc (a ∷ xs) = by_byte f (f crc a) xs

abbrev pub IsBytes : List ℕ → Type 0
IsBytes [] = Unit
IsBytes (a ∷ xs) = (a < 256) × IsBytes xs

by_byte-append :
    (f : ℕ → ℕ → ℕ) (crc : ℕ) (xs ys : List ℕ)
    → by_byte f crc (xs ++ ys) ≡ by_byte f (by_byte f crc xs) ys
by_byte-append f crc [] ys = refl
by_byte-append f crc (x ∷ xs) ys = by_byte-append f (f crc x) xs ys

IsBytes-append : (xs ys : List ℕ) → IsBytes xs → IsBytes ys → IsBytes (xs ++ ys)
IsBytes-append [] ys p q = q
IsBytes-append (x ∷ xs) ys p q = (p.0, IsBytes-append xs ys p.1 q)

module _ (crc32b crc32h crc32w : ℕ → ℕ → ℕ)
    (halves : (crc a b : ℕ) → a < 256 → b < 256 → crc32h crc (half a b) ≡ crc32b (crc32b crc a) b)
    (words : (crc a b c d : ℕ)
      → a < 256
      → b < 256
      → c < 256
      → d < 256
      → crc32w crc (word a b c d) ≡ crc32b (crc32b (crc32b (crc32b crc a) b) c) d) where
  hw_update-by_byte :
      (crc : ℕ) (xs : List ℕ)
      → IsBytes xs
      → hw_update crc32b crc32h crc32w crc xs ≡ by_byte crc32b crc xs
  unfolding hw_update
  hw_update-by_byte crc [] v = refl
  hw_update-by_byte crc (a ∷ []) v = refl
  hw_update-by_byte crc (a ∷ b ∷ []) v = halves crc a b v.0 v.1.0
  hw_update-by_byte crc (a ∷ b ∷ c ∷ []) v = ap (λ x. crc32b x c) (halves crc a b v.0 v.1.0)
  hw_update-by_byte crc (a ∷ b ∷ c ∷ d ∷ xs) v =
      hw_update-by_byte (crc32w crc (word a b c d)) xs v.1.1.1.1
      ∙ ap (λ x. by_byte crc32b x xs) (words crc a b c d v.0 v.1.0 v.1.1.0 v.1.1.1.0)

  -- Where crc32h and crc32w fold their bytes as crc32b does, lowest first: crc32_update over two pieces of
  -- bytes, one after the other, gives what it gives over the whole.
  pub hw_update-append :
      (crc : ℕ) (xs ys : List ℕ)
      → IsBytes xs
      → IsBytes ys
      → hw_update crc32b crc32h crc32w (hw_update crc32b crc32h crc32w crc xs) ys
        ≡ hw_update crc32b crc32h crc32w crc (xs ++ ys)
  hw_update-append crc xs ys p q =
      let f = hw_update crc32b crc32h crc32w in
      ap (λ c. f c ys) (hw_update-by_byte crc xs p)
      ∙ hw_update-by_byte (by_byte crc32b crc xs) ys q
      ∙ sym (by_byte-append crc32b crc xs ys)
      ∙ sym (hw_update-by_byte crc (xs ++ ys) (IsBytes-append xs ys p q))

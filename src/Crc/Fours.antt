-- ===== src/Crc/Fours.antt =====
-- Pieces of whole words can be folded one after the other, whatever the instructions compute.
use rpitos.Prelude.{
  ℕ, zero, suc, ◌+◌, ◌*◌, ◌/◌, ◌%◌, ◌≡◌, refl, List, [], ◌∷◌, ◌++◌, bytes_of, arith,
}
use mathlib.Core.Path.{subst}
use rpitos.Crc.{word, hw_update}

-- Four at a time.
abbrev pub IsFours : List ℕ → Type 0
IsFours [] = Unit
IsFours (a ∷ []) = ⊥
IsFours (a ∷ b ∷ []) = ⊥
IsFours (a ∷ b ∷ c ∷ []) = ⊥
IsFours (a ∷ b ∷ c ∷ d ∷ xs) = IsFours xs

pub hw_update-fours :
    (b h w : ℕ → ℕ → ℕ) (crc : ℕ) (xs ys : List ℕ)
    → IsFours xs
    → hw_update b h w crc (xs ++ ys) ≡ hw_update b h w (hw_update b h w crc xs) ys
unfolding hw_update
hw_update-fours b h w crc [] ys f = refl
hw_update-fours b h w crc (_ ∷ []) ys f = absurd f
hw_update-fours b h w crc (_ ∷ _ ∷ []) ys f = absurd f
hw_update-fours b h w crc (_ ∷ _ ∷ _ ∷ []) ys f = absurd f
hw_update-fours b h w crc (x ∷ y ∷ z ∷ t ∷ xs) ys f =
    hw_update-fours b h w (w crc (word x y z t)) xs ys f

unfoldable times_four : ℕ → ℕ
times_four zero = 0
times_four (suc n) = suc (suc (suc (suc (times_four n))))

times_four-IsFours : (f : ℕ → ℕ) (i k : ℕ) → IsFours (bytes_of f i (times_four k))
unfolding times_four
times_four-IsFours f i zero = tt
times_four-IsFours f i (suc k) = times_four-IsFours f (i + 1 + 1 + 1 + 1) k

times_four-quarter : (k : ℕ) → times_four k ≡ k * 4
unfolding times_four
times_four-quarter zero = refl
times_four-quarter (suc k) = omega (arith, times_four-quarter k)

pub bytes_of-IsFours : (f : ℕ → ℕ) (i n : ℕ) → n % 4 ≡ 0 → IsFours (bytes_of f i n)
bytes_of-IsFours f i n e =
    let q : times_four (n / 4) ≡ n = omega (arith, times_four-quarter (n / 4)) in
    subst (λ k. IsFours (bytes_of f i k)) q (times_four-IsFours f i (n / 4))

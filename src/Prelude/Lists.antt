-- ===== src/Prelude/Lists.antt =====
-- Lists measured by native numbers, membership as a test, and the ends of a list.
use Prim.Native.Nat.{ℕ, zero, suc, ◌+◌, ◌<◌, ◌≤◌}
use mathlib.Core.Path.{◌≡◌, refl, ap, ◌∙◌}
use mathlib.Core.Bool.{Bool, true, false, ◌||◌, or_assoc}
use mathlib.Core.Logic.{inl, inr}
use mathlib.Core.List.{List, [], ◌∷◌, ◌++◌}
use mathlib.Core.Option.{Option, some}
use native.Mathlib.Omega.{arith}
use rpitos.Prelude.Tests.{◌==◌, if◌then◌else◌, Bool-cases}

module _ {ℓ} {A : Type ℓ} where
  abbrev pub length : List A → ℕ
  length [] = 0
  length (x ∷ xs) = suc (length xs)

  pub length-append : (xs ys : List A) → length (xs ++ ys) ≡ length xs + length ys
  length-append [] ys = omega arith
  length-append (x ∷ xs) ys = omega (arith, length-append xs ys)

  -- The first item, or what follows the list where it is empty.
  abbrev pub head_or : Option A → List A → Option A
  head_or n [] = n
  head_or n (x ∷ xs) = some x

  -- The last item, or what precedes the list where it is empty.
  abbrev pub last_or : Option A → List A → Option A
  last_or p [] = p
  last_or p (x ∷ xs) = last_or (some x) xs

abbrev pub has : ℕ → List ℕ → Bool
has a [] = false
has a (x ∷ xs) = (a == x) || has a xs

abbrev pub Distinct : List ℕ → Type 0
Distinct [] = Unit
Distinct (x ∷ xs) = (has x xs ≡ false) × Distinct xs

-- The list less the first copy of an item.
unfoldable pub erase : ℕ → List ℕ → List ℕ
erase a [] = []
erase a (x ∷ xs) = if a == x then xs else x ∷ erase a xs

pub has-append : (a : ℕ) (xs ys : List ℕ) → has a (xs ++ ys) ≡ (has a xs || has a ys)
has-append a [] ys = refl
has-append a (x ∷ xs) ys = rw (has-append a xs ys, or_assoc)

pub has-erase :
    (a b : ℕ) (xs : List ℕ)
    → Distinct xs
    → has a (erase b xs) ≡ (if a == b then false else has a xs)
unfolding erase
has-erase a b [] d = ground arith
has-erase a b (x ∷ xs) d = ground (arith, has-erase a b xs)

pub Distinct-erase : (b : ℕ) (xs : List ℕ) → Distinct xs → Distinct (erase b xs)
unfolding erase
Distinct-erase b [] d = tt
Distinct-erase b (x ∷ xs) d = ground (arith, has-erase x b xs, Distinct-erase b xs)

pub length-erase : (b : ℕ) (xs : List ℕ) → has b xs ≡ true → length (erase b xs) + 1 ≡ length xs
unfolding erase
length-erase b [] h = cc
length-erase b (x ∷ xs) h = ground (arith, length-erase b xs)

-- The two parts of a list of distinct items share none.
pub Distinct-append :
    (xs ys : List ℕ)
    → Distinct (xs ++ ys)
    → Distinct xs × Distinct ys × ((a : ℕ) → has a xs ≡ true → has a ys ≡ false)
Distinct-append [] ys d = (tt, d, λ a h. cc)
Distinct-append (x ∷ xs) ys d =
    let (d1, d2, apart) = Distinct-append xs ys d.1 in
    (ground (arith, has-append x xs ys), d2, λ a h. ground (arith, has-append x xs ys, apart a))

pub Distinct-snoc : (x : ℕ) (xs : List ℕ) → Distinct xs → has x xs ≡ false → Distinct (xs ++ x ∷ [])
Distinct-snoc x [] d h = (refl, tt)
Distinct-snoc x (y ∷ xs) d h =
    (ground (arith, has-append y xs (x ∷ [])), Distinct-snoc x xs d.1 (ground arith))

-- A list around one of its items.
pub record Around (x : ℕ) (xs : List ℕ) : Type 0 where
  pub front : List ℕ
  pub back : List ℕ
  pub whole : xs ≡ front ++ x ∷ back
  pub rest : erase x xs ≡ front ++ back

pub has-Around : (x : ℕ) (xs : List ℕ) → has x xs ≡ true → Around x xs
unfolding erase
has-Around x [] h = cc
has-Around x (y ∷ xs) h = elim (Bool-cases (x == y)) [
  | inl e ↦ record { front = []; back = xs; whole = ground arith; rest = rw e }
  | inr e ↦
      let r = has-Around x xs (ground arith) in
      record {
        front = y ∷ r.front;
        back = r.back;
        whole = ap (λ l. y ∷ l) r.whole;
        rest = rw (e, r.rest);
      }
]

pub has-ne : (x z : ℕ) (xs : List ℕ) → has z xs ≡ true → has x xs ≡ false → (x == z) ≡ false
has-ne x z [] h k = cc
has-ne x z (y ∷ xs) h k = ground (arith, has-ne x z xs)

pub has-ne' : (a i : ℕ) (xs : List ℕ) → has a xs ≡ true → has i xs ≡ false → (a == i) ≡ false
has-ne' a i xs h k = elim (Bool-cases (a == i)) [
  | inl e ↦ absurd (ground (arith, has-ne i a xs h k))
  | inr e ↦ e
]

-- What is not in a list is in neither part of it.
pub not_has-append :
    (a i : ℕ) (ys zs : List ℕ)
    → has a (ys ++ i ∷ zs) ≡ false
    → (has a ys ≡ false) × ((a == i) ≡ false) × (has a zs ≡ false)
not_has-append a i [] zs h = ground arith
not_has-append a i (y ∷ ys) zs h = ground (arith, not_has-append a i ys zs)

not_below-zero : (xs : List ℕ) → ((a : ℕ) → has a xs ≡ true → a < 0) → length xs ≡ 0
not_below-zero [] h = refl
not_below-zero (x ∷ xs) h = absurd (omega (arith, h x (ground arith)))

-- Distinct numbers below `n` are at most `n` in number.
pub length-le_of_below :
    (n : ℕ) (xs : List ℕ) → Distinct xs → ((a : ℕ) → has a xs ≡ true → a < n) → length xs ≤ n
length-le_of_below zero xs d h = omega (arith, not_below-zero xs h)
length-le_of_below (suc n) xs d h = elim (Bool-cases (has n xs)) [
  | inl e ↦ omega (
    arith,
    length-erase n xs e,
    length-le_of_below n (erase n xs) (Distinct-erase n xs d)
        (λ a k. ground (arith, has-erase a n xs d, h a)),
  )
  | inr e ↦
      omega (arith, length-le_of_below n xs d (λ a k. ground (arith, has-ne' a n xs k e, h a)))
]

pub not_has-parts :
    (a : ℕ) (ys zs : List ℕ) → has a (ys ++ zs) ≡ false → (has a ys ≡ false) × (has a zs ≡ false)
not_has-parts a [] zs h = (refl, h)
not_has-parts a (y ∷ ys) zs h = ground (arith, not_has-parts a ys zs)

pub Distinct-insert :
    (x : ℕ) (ys zs : List ℕ)
    → Distinct (ys ++ zs)
    → has x (ys ++ zs) ≡ false
    → Distinct (ys ++ x ∷ zs)
Distinct-insert x [] zs d h = (h, d)
Distinct-insert x (y ∷ ys) zs d h = (
  ground (arith, has-append y ys (x ∷ zs), has-append y ys zs),
  Distinct-insert x ys zs d.1 (ground arith),
)

-- Apart in one direction is apart in the other.
pub Distinct-apart :
    (a : ℕ) (ys zs : List ℕ)
    → ((b : ℕ) → has b ys ≡ true → has b zs ≡ false)
    → has a zs ≡ true
    → has a ys ≡ false
Distinct-apart a ys zs apart h = elim (Bool-cases (has a ys)) [
  | inl e ↦ absurd (ground (arith, apart a e))
  | inr e ↦ e
]

-- The bytes of an array from `i` on, `n` of them.
abbrev pub bytes_of : (ℕ → ℕ) → ℕ → ℕ → List ℕ
bytes_of f i zero = []
bytes_of f i (suc n) = f i ∷ bytes_of f (i + 1) n

bytes_of-head : (f g : ℕ → ℕ) (i k : ℕ) → f (i + 0) ≡ g (k + 0) → f i ≡ g k
bytes_of-head f g i k e =
    let l : i ≡ i + 0 = omega arith in let r : k + 0 ≡ k = omega arith in ap f l ∙ e ∙ ap g r

bytes_of-step :
    (f g : ℕ → ℕ) (i k j : ℕ) → f (i + suc j) ≡ g (k + suc j) → f (i + 1 + j) ≡ g (k + 1 + j)
bytes_of-step f g i k j e =
    let l : i + 1 + j ≡ i + suc j = omega arith in
    let r : k + suc j ≡ k + 1 + j = omega arith in ap f l ∙ e ∙ ap g r

pub bytes_of-cong :
    (f g : ℕ → ℕ) (i k n : ℕ)
    → ((j : ℕ) → j < n → f (i + j) ≡ g (k + j))
    → bytes_of f i n ≡ bytes_of g k n
bytes_of-cong f g i k zero e = refl
bytes_of-cong f g i k (suc n) e =
    rw
      (
        bytes_of-head f g i k (e 0 (omega arith)),
        bytes_of-cong f g (i + 1) (k + 1) n
            (λ j p. bytes_of-step f g i k j (e (suc j) (omega arith))),
      )
      refl

pub bytes_of-append :
    (f : ℕ → ℕ) (i m n : ℕ) → bytes_of f i (m + n) ≡ bytes_of f i m ++ bytes_of f (i + m) n
bytes_of-append f i zero n =
    let z : 0 + n ≡ n = omega arith in
    let r : i ≡ i + 0 = omega arith in ap (bytes_of f i) z ∙ ap (λ k. bytes_of f k n) r
bytes_of-append f i (suc m) n =
    let s : suc m + n ≡ suc (m + n) = omega arith in
    let e : i + 1 + m ≡ i + suc m = omega arith in
    ap (bytes_of f i) s
    ∙ ap (λ l. f i ∷ l)
        (bytes_of-append f (i + 1) m n ∙ ap (λ k. bytes_of f (i + 1) m ++ bytes_of f k n) e)

-- The byte at an index, 0 outside.
abbrev pub byte_at : List ℕ → ℕ → ℕ
byte_at [] i = 0
byte_at (x ∷ xs) zero = x
byte_at (x ∷ xs) (suc i) = byte_at xs i

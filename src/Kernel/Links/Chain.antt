-- ===== src/Kernel/Links/Chain.antt =====
-- What a list in memory stands for: a run of items that point at one another.
use rpitos.Prelude.{
  ℕ, ◌<◌, ◌^◌, ◌≡◌, refl, true, false, Option, none, some, List, [], ◌∷◌, ◌++◌, arith, update,
  same_ptr, has, has-ne, Distinct, head_or, last_or, length,
}
use rpitos.Kernel.Links.{ListItem, Links}

-- The items `xs` of list `c`, in order: behind `p`, and before `n`.
abbrev pub IsSeg : (ℕ → ListItem) → ℕ → Option ℕ → Option ℕ → List ℕ → Type 0
IsSeg f c p n [] = Unit
IsSeg f c p n (x ∷ xs) =
    ((f x).prev ≡ p)
    × ((f x).next ≡ head_or n xs)
    × ((f x).container ≡ some c)
    × IsSeg f c (some x) n xs

-- List `c` holds exactly the items `xs`, in this order.
pub record IsList (m : Links) (c : ℕ) (xs : List ℕ) : Type 0 where
  pub head : (m.list c).head ≡ head_or none xs
  pub list_end : (m.list c).list_end ≡ last_or none xs
  pub count : (m.list c).num_items ≡ length xs
  pub small : length xs < 2 ^ 16
  pub chain : IsSeg m.item c none none xs
  pub distinct : Distinct xs
  pub complete : (a : ℕ) → (m.item a).container ≡ some c → has a xs ≡ true

pub last_or-append :
    (p : Option ℕ) (xs ys : List ℕ) → last_or p (xs ++ ys) ≡ last_or (last_or p xs) ys
last_or-append p [] ys = refl
last_or-append p (x ∷ xs) ys = last_or-append (some x) xs ys

pub head_or-append :
    (n : Option ℕ) (xs ys : List ℕ) → head_or n (xs ++ ys) ≡ head_or (head_or n ys) xs
head_or-append n [] ys = refl
head_or-append n (x ∷ xs) ys = refl

pub has-last : (x y : ℕ) (r : List ℕ) → last_or (some x) r ≡ some y → has y (x ∷ r) ≡ true
has-last x y [] h = ground arith
has-last x y (z ∷ r) h = ground (arith, has-last z y r)

module _ (c : ℕ) where
  pub IsSeg-append :
      (f : ℕ → ListItem) (p n : Option ℕ) (xs ys : List ℕ)
      → IsSeg f c p (head_or n ys) xs
      → IsSeg f c (last_or p xs) n ys
      → IsSeg f c p n (xs ++ ys)
  IsSeg-append f p n [] ys s t = t
  IsSeg-append f p n (x ∷ xs) ys (a, b, d, s) t =
      (a, rw head_or-append b, d, IsSeg-append f (some x) n xs ys s t)

  pub IsSeg-split :
      (f : ℕ → ListItem) (p n : Option ℕ) (xs ys : List ℕ)
      → IsSeg f c p n (xs ++ ys)
      → IsSeg f c p (head_or n ys) xs × IsSeg f c (last_or p xs) n ys
  IsSeg-split f p n [] ys s = (tt, s)
  IsSeg-split f p n (x ∷ xs) ys (a, b, d, s) =
      let (s1, s2) = IsSeg-split f (some x) n xs ys s in ((a, rw head_or-append at b, d, s1), s2)

  -- A segment survives a change that spares its own items.
  pub IsSeg-frame :
      (f g : ℕ → ListItem) (p n : Option ℕ) (xs : List ℕ)
      → ((a : ℕ) → has a xs ≡ true → g a ≡ f a)
      → IsSeg f c p n xs
      → IsSeg g c p n xs
  IsSeg-frame f g p n [] same s = tt
  IsSeg-frame f g p n (x ∷ xs) same (a, b, d, s) =
      let e = same x (ground arith) in
      (rw e a, rw e b, rw e d, IsSeg-frame f g (some x) n xs (λ y h. same y (ground arith)) s)

  pub IsSeg-container :
      (f : ℕ → ListItem) (p n : Option ℕ) (a : ℕ) (xs : List ℕ)
      → IsSeg f c p n xs
      → has a xs ≡ true
      → (f a).container ≡ some c
  IsSeg-container f p n a [] s h = cc
  IsSeg-container f p n a (x ∷ xs) s h = ground (arith, IsSeg-container f (some x) n a xs)

-- `a->next = v`, if there is such an item.
abbrev pub write_next : Option ℕ → Option ℕ → (ℕ → ListItem) → ℕ → ListItem
write_next none v f = f
write_next (some a) v f = update f a (record (f a) { next = v })

abbrev pub write_prev : Option ℕ → Option ℕ → (ℕ → ListItem) → ℕ → ListItem
write_prev none v f = f
write_prev (some a) v f = update f a (record (f a) { prev = v })

pub last_or-some : (x : ℕ) (xs : List ℕ) → (y : ℕ) × (last_or (some x) xs ≡ some y)
last_or-some x [] = (x, refl)
last_or-some x (y ∷ xs) = last_or-some y xs

module _ (c : ℕ) (f : ℕ → ListItem) where
  -- A write to the last item leads the segment elsewhere.
  pub IsSeg-write_next :
      (p n n' : Option ℕ) (x : ℕ) (xs : List ℕ)
      → Distinct (x ∷ xs)
      → IsSeg f c p n (x ∷ xs)
      → IsSeg (write_next (last_or (some x) xs) n' f) c p n' (x ∷ xs)
  IsSeg-write_next p n n' x [] d s = ground arith
  IsSeg-write_next p n n' x (y ∷ xs) d (a, b, e, s) =
      let (z, last) = last_or-some y xs in
      let ih = IsSeg-write_next (some x) n n' y xs d.1 s in
      let found = has-last y z xs last in
      let other = has-ne x z (y ∷ xs) found d.0 in
      let same : write_next (last_or (some y) xs) n' f x ≡ f x = rw (last, other) in
      (rw same a, rw same b, rw same e, ih)

  -- A write to the first item changes what the segment stands behind.
  pub IsSeg-write_prev :
      (p n p' : Option ℕ) (xs : List ℕ)
      → Distinct xs
      → IsSeg f c p n xs
      → IsSeg (write_prev (head_or none xs) p' f) c p' n xs
  IsSeg-write_prev p n p' [] d s = tt
  IsSeg-write_prev p n p' (x ∷ xs) d (a, b, e, s) =
      let g = write_prev (some x) p' f in
      (
        ground arith,
        ground arith,
        ground arith,
        IsSeg-frame c f g (some x) n xs (λ y h. ground arith) s,
      )

-- An item that is not the one written stays as it was.
pub write_next_other :
    (o v : Option ℕ) (f : ℕ → ListItem) (a : ℕ)
    → same_ptr (some a) o ≡ false
    → write_next o v f a ≡ f a
write_next_other none v f a h = refl
write_next_other (some z) v f a h = rw h

pub write_prev_other :
    (o v : Option ℕ) (f : ℕ → ListItem) (a : ℕ)
    → same_ptr (some a) o ≡ false
    → write_prev o v f a ≡ f a
write_prev_other none v f a h = refl
write_prev_other (some z) v f a h = rw h

pub write_prev-ap :
    (o v : Option ℕ) (f g : ℕ → ListItem) (a : ℕ)
    → f a ≡ g a
    → write_prev o v f a ≡ write_prev o v g a
write_prev-ap none v f g a h = h
write_prev-ap (some z) v f g a h = ground arith

pub head_ne : (a : ℕ) (xs : List ℕ) → has a xs ≡ false → same_ptr (some a) (head_or none xs) ≡ false
head_ne a [] h = refl
head_ne a (x ∷ xs) h = ground arith

pub last_ne : (a : ℕ) (xs : List ℕ) → has a xs ≡ false → same_ptr (some a) (last_or none xs) ≡ false
last_ne a [] h = refl
last_ne a (x ∷ []) h = ground arith
last_ne a (x ∷ y ∷ xs) h = last_ne a (y ∷ xs) (ground arith)

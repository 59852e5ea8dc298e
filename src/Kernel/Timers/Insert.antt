-- ===== src/Kernel/Timers/Insert.antt =====
-- A timer that is armed goes to its place in the list that counts down.
use rpitos.Prelude.{
  ℕ, zero, suc, ◌<◌, ◌≤◌, ◌≡◌, refl, ◌∙◌, true, false, none, some, List, [], ◌∷◌, arith, has,
  has-ne', Distinct, head_or, length, ltb, ltb→lt, ◌||◌, leb, if◌then◌else◌, ◌==◌, Bool-cases, inl,
  inr,
}
use rpitos.Status.{Run, done}
use rpitos.Kernel.Timers.{Timer, Timers, find_place, put_behind}

-- The timers `xs` are linked, in order.
abbrev pub IsChain : (ℕ → Timer) → List ℕ → Type 0
IsChain f [] = Unit
IsChain f (x ∷ xs) = ((f x).next ≡ head_or none xs) × IsChain f xs

abbrev pub expiry_of : Timers → ℕ → ℕ
expiry_of s x = (s.timer x).expiry_tick

-- The list `xs` with `t` before the first timer of a later expiry than `e`.
unfoldable pub place : (ℕ → ℕ) → ℕ → ℕ → List ℕ → List ℕ
place f e t [] = t ∷ []
place f e t (x ∷ xs) = if ltb e (f x) then t ∷ x ∷ xs else x ∷ place f e t xs

-- By ascending expiry.
abbrev pub IsAscending : (ℕ → ℕ) → List ℕ → Type 0
IsAscending f [] = Unit
IsAscending f (x ∷ []) = Unit
IsAscending f (x ∷ y ∷ xs) = (f x ≤ f y) × IsAscending f (y ∷ xs)

pub IsChain-frame :
    (f g : ℕ → Timer) (xs : List ℕ)
    → ((a : ℕ) → has a xs ≡ true → (g a).next ≡ (f a).next)
    → IsChain f xs
    → IsChain g xs
IsChain-frame f g [] same c = tt
IsChain-frame f g (x ∷ xs) same c =
    (same x (ground arith) ∙ c.0, IsChain-frame f g xs (λ a h. same a (ground arith)) c.1)

pub next-put_behind :
    (s : Timers) (t i a : ℕ)
    → ((put_behind t i s).timer a).next
      ≡ (if a == i then some t else if a == t then (s.timer i).next else (s.timer a).next)
next-put_behind s t i a = ground arith

-- Where the walk of software_timer_add_to_blocked_list ends.
pub record IsPlace (s : Timers) (t e x : ℕ) (xs : List ℕ) (r : Run ℕ) : Type 0 where
  pub last : ℕ
  pub result : r ≡ done last
  pub inside : has last (x ∷ xs) ≡ true
  pub chain : IsChain (put_behind t last s).timer (x ∷ place (expiry_of s) e t xs)

not_both : (x z : ℕ) (xs : List ℕ) → has x xs ≡ false → has z xs ≡ true → (x == z) ≡ false
not_both x z xs h k = ground (arith, has-ne' z x xs k h)

later_of : (s : Timers) (e y : ℕ) → leb (expiry_of s y) e ≡ false → ltb e (expiry_of s y) ≡ true
later_of s e y h = ground (arith, h)

module _ (s : Timers) (t e : ℕ) where
  IsChain-here :
      (x y : ℕ) (xs : List ℕ)
      → IsChain s.timer (x ∷ y ∷ xs)
      → Distinct (x ∷ y ∷ xs)
      → has t (x ∷ y ∷ xs) ≡ false
      → IsChain (put_behind t x s).timer (x ∷ t ∷ y ∷ xs)
  IsChain-here x y xs c d out =
      let off : has t (y ∷ xs) ≡ false = ground (arith, out) in
      (
        next-put_behind s t x x ∙ ground arith,
        (
          next-put_behind s t x t ∙ ground (arith, c.0, out),
          IsChain-frame s.timer (put_behind t x s).timer (y ∷ xs)
              (λ a h.
                next-put_behind s t x a
                ∙ rw (has-ne' a x (y ∷ xs) h d.0, has-ne' a t (y ∷ xs) h off) refl)
              c.1,
        ),
      )

  pub find_place-IsPlace :
      (fuel x : ℕ) (xs : List ℕ)
      → IsChain s.timer (x ∷ xs)
      → length xs < fuel
      → Distinct (x ∷ xs)
      → has t (x ∷ xs) ≡ false
      → IsPlace s t e x xs (find_place fuel x e s)
  unfolding find_place place
  find_place-IsPlace zero x xs c room d out = absurd (omega arith)
  find_place-IsPlace (suc fuel) x [] c room d out = record {
    last = x;
    result = rw (c.0, find_place);
    inside = ground arith;
    chain = (
      ground (arith, next-put_behind s t x x),
      (next-put_behind s t x t ∙ ground (arith, c.0), tt),
    );
  }
  find_place-IsPlace (suc fuel) x (y ∷ xs) c room d out =
      elim (Bool-cases (leb (expiry_of s y) e)) [
        | inl h ↦
            let rest = find_place-IsPlace fuel y xs c.1 (omega arith) d.1 (ground arith) in
            let far : (x == rest.last) ≡ false = not_both x rest.last (y ∷ xs) d.0 rest.inside in
            let no_later : ltb e (expiry_of s y) ≡ false = ground (arith, h) in
            record {
              last = rest.last;
              result = rw (c.0, find_place) (rw h rest.result);
              inside = ground (arith, rest.inside);
              chain =
                  rw no_later
                    (next-put_behind s t rest.last x ∙ ground (arith, far, c.0), rest.chain);
            }
        | inr h ↦ record {
          last = x;
          result = rw (c.0, find_place) (rw h refl);
          inside = ground arith;
          chain = rw (later_of s e y h) (IsChain-here x y xs c d out);
        }
      ]

has-place : (t e a : ℕ) (f : ℕ → ℕ) (xs : List ℕ) → has a (place f e t xs) ≡ ((a == t) || has a xs)
unfolding place
has-place t e a f [] = refl
has-place t e a f (x ∷ xs) = ground (arith, has-place t e a f xs)

-- The place keeps the list in ascending order.
pub IsAscending-place :
    (f : ℕ → ℕ) (t : ℕ) (xs : List ℕ) → IsAscending f xs → IsAscending f (place f (f t) t xs)
unfolding place
IsAscending-place f t [] v = tt
IsAscending-place f t (x ∷ []) v = elim (Bool-cases (ltb (f t) (f x))) [
  | inl e ↦ rw e (omega (arith, ltb→lt (f t) (f x) e), tt)
  | inr e ↦ rw e (ground (arith, e), tt)
]
IsAscending-place f t (x ∷ y ∷ xs) v =
    let rest = IsAscending-place f t (y ∷ xs) v.1 in
    elim (Bool-cases (ltb (f t) (f x))) [
      | inl e ↦ rw e (omega (arith, ltb→lt (f t) (f x) e), v)
      | inr e ↦ elim (Bool-cases (ltb (f t) (f y))) [
        | inl e' ↦ rw (e, e') (ground (arith, e), rw e' at rest)
        | inr e' ↦ rw (e, e') (v.0, rw e' at rest)
      ]
    ]

pub Distinct-place :
    (t e : ℕ) (f : ℕ → ℕ) (xs : List ℕ) → Distinct xs → has t xs ≡ false → Distinct (place f e t xs)
unfolding place
Distinct-place t e f [] d out = (refl, tt)
Distinct-place t e f (x ∷ xs) d out = ground (arith, has-place t e x f xs, Distinct-place t e f xs)

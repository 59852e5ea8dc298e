-- ===== src/Kernel/Links/Contents.antt =====
-- The lists of the whole memory: what each holds, and how an append and a removal change that.
use rpitos.Prelude.{
  ℕ, ◌+◌, ◌/◌, ◌<◌, ◌^◌, ◌≡◌, refl, Bool, true, false, Option, none, some, List, [], ◌∷◌, ◌++◌,
  arith, ◌==◌, update, has, erase, length, Bool-cases, inl, inr,
}
use mathlib.Core.Path.{subst}
use rpitos.Kernel.Links.{in_list, Links, unlink, unlink_ready, push_back, push_back_ready}
use rpitos.Kernel.Links.Chain.{IsList, IsSeg-container}
use rpitos.Kernel.Links.Unlink.{
  unlink-IsList, unlink-IsList_ne, unlink_keeps, unlink_ready-IsList, unlink_ready-IsList_ne,
  unlink_ready_keeps,
}
use rpitos.Kernel.Links.PushBack.{
  push_back-IsList, push_back-IsList_ne, push_back_keeps, push_back_ready-IsList,
  push_back_ready-IsList_ne, push_back_ready_keeps,
}

-- List `c` holds `s c`, for every list, and a listed item's owner is the task that it lies in.
pub record Holds (m : Links) (s : ℕ → List ℕ) : Type 0 where
  pub lists : (c : ℕ) → IsList m c (s c)
  pub owners : (a c : ℕ) → (m.item a).container ≡ some c → (m.item a).owner ≡ a / 2

pub container-has :
    {m : Links} {s : ℕ → List ℕ}
    → Holds m s
    → (a c : ℕ) → (m.item a).container ≡ some c
    → has a (s c) ≡ true
container-has w a c = (w.lists c).complete a

pub has-container :
    {m : Links} {s : ℕ → List ℕ}
    → Holds m s
    → (a c : ℕ) → has a (s c) ≡ true
    → (m.item a).container ≡ some c
has-container {m} {s} w a c = IsSeg-container c m.item none none a (s c) (w.lists c).chain

in_list_iff :
    (o : Option ℕ) (l : ℕ) (b : Bool)
    → (o ≡ some l → b ≡ true)
    → (b ≡ true → o ≡ some l)
    → in_list o l ≡ b
in_list_iff none l true h g = ground arith
in_list_iff none l false h g = refl
in_list_iff (some c) l true h g = ground arith
in_list_iff (some c) l false h g = ground arith

-- The test of an item's container tells whether the item is in the list.
pub in_list-eq-has :
    {m : Links} {s : ℕ → List ℕ}
    → Holds m s
    → (a c : ℕ) → in_list (m.item a).container c ≡ has a (s c)
in_list-eq-has {m} {s} w a c =
    in_list_iff (m.item a).container c (has a (s c)) (container-has w a c) (has-container w a c)

pub update-IsList :
    (m : Links) (s : ℕ → List ℕ) (c : ℕ) (xs : List ℕ)
    → IsList m c xs
    → ((d : ℕ) → (d == c) ≡ false → IsList m d (s d))
    → (d : ℕ) → IsList m d (update s c xs d)
update-IsList m s c xs l others d = elim (Bool-cases (d == c)) [
  | inl e ↦ rw e (subst (λ k. IsList m k xs) (ground arith) l)
  | inr e ↦ rw e (others d e)
]

module _ (m : Links) (s : ℕ → List ℕ) (w : Holds m s) (i c : ℕ) where
  pub unlink-Holds : has i (s c) ≡ true → Holds (unlink i c m) (update s c (erase i (s c)))
  unlink-Holds h = record {
    lists =
        update-IsList (unlink i c m) s c (erase i (s c)) (unlink-IsList m i c (s c) (w.lists c) h)
          (λ d ne. unlink-IsList_ne m i c (s c) (w.lists c) h d (s d) ne (w.lists d));
    owners = λ a d e. ground (arith, unlink_keeps m i c (s c) (w.lists c) h a, w.owners a d);
  }

  pub unlink_ready-Holds :
      has i (s c) ≡ true → Holds (unlink_ready i c m) (update s c (erase i (s c)))
  unlink_ready-Holds h = record {
    lists =
        update-IsList (unlink_ready i c m) s c (erase i (s c))
          (unlink_ready-IsList m i c (s c) (w.lists c) h)
          (λ d ne. unlink_ready-IsList_ne m i c (s c) (w.lists c) h d (s d) ne (w.lists d));
    owners = λ a d e. ground (arith, unlink_ready_keeps m i c (s c) (w.lists c) h a, w.owners a d);
  }

  module _ (owner : ℕ) (free : (m.item i).container ≡ none) (own : owner ≡ i / 2)
      (room : length (s c) + 1 < 2 ^ 16) where
    pub push_back-Holds : Holds (push_back i owner c m) (update s c (s c ++ i ∷ []))
    push_back-Holds = record {
      lists =
          update-IsList (push_back i owner c m) s c (s c ++ i ∷ [])
            (push_back-IsList m i owner c (s c) (w.lists c) free room)
            (λ d ne. push_back-IsList_ne m i owner c (s c) (w.lists c) free d (s d) ne (w.lists d));
      owners = λ a d e.
          ground (arith, push_back_keeps m i owner c (s c) (w.lists c) free a, w.owners a d);
    }

    pub push_back_ready-Holds : Holds (push_back_ready i owner c m) (update s c (s c ++ i ∷ []))
    push_back_ready-Holds = record {
      lists =
          update-IsList (push_back_ready i owner c m) s c (s c ++ i ∷ [])
            (push_back_ready-IsList m i owner c (s c) (w.lists c) free room)
            (λ d ne.
              push_back_ready-IsList_ne m i owner c (s c) (w.lists c) free d (s d) ne (w.lists d));
      owners = λ a d e.
          ground (arith, push_back_ready_keeps m i owner c (s c) (w.lists c) free a, w.owners a d);
    }

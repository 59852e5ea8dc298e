-- ===== src/Kernel/Links/Index.antt =====
-- The `index` of a ready list: the task whose turn it is.
use rpitos.Prelude.{
  ℕ, ◌≡◌, refl, ap, ◌∙◌, true, false, Option, none, some, List, [], ◌∷◌, ◌++◌, arith, ◌==◌,
  if◌then◌else◌, same_ptr, has, has-append, has-erase, erase, Distinct, head_or, last_or,
  Bool-cases, inl, inr,
}
use mathlib.Core.Path.{subst}
use rpitos.Kernel.Links.{ListItem, Links, unlink_ready, push_back_ready}
use rpitos.Kernel.Links.Chain.{IsSeg, IsList, last_or-some}
use rpitos.Kernel.Links.Unlink.{unlink_ready-IsList, prev_ne}
use rpitos.Kernel.Links.PushBack.{list-push_back_ready}

-- The items behind the first `i`.
unfoldable pub after : ℕ → List ℕ → List ℕ
after i [] = []
after i (x ∷ xs) = if i == x then xs else after i xs

-- Whose turn follows that of `i`: the next item, or else the first.
unfoldable pub successor : ℕ → List ℕ → Option ℕ
successor i xs = head_or (head_or none xs) (after i xs)

-- The index of an empty list is NULL, that of another list is one of its items.
abbrev pub IsTurn : List ℕ → Option ℕ → Type 0
IsTurn xs none = xs ≡ []
IsTurn xs (some i) = has i xs ≡ true

has-after : (a i : ℕ) (xs : List ℕ) → has a (after i xs) ≡ true → has a xs ≡ true
unfolding after
has-after a i [] h = cc
has-after a i (x ∷ xs) h = ground (arith, has-after a i xs)

-- The first of some items of a list, or else the first of the list, is a turn.
IsTurn-head_or :
    (xs ys : List ℕ)
    → ((a : ℕ) → has a ys ≡ true → has a xs ≡ true)
    → IsTurn xs (head_or (head_or none xs) ys)
IsTurn-head_or [] [] sub = refl
IsTurn-head_or (x ∷ xs) [] sub = ground arith
IsTurn-head_or xs (y ∷ ys) sub = sub y (ground arith)

-- Some item of the list follows each.
pub successor-IsTurn : (i : ℕ) (xs : List ℕ) → IsTurn xs (successor i xs)
unfolding successor
successor-IsTurn i xs = IsTurn-head_or xs (after i xs) (λ a. has-after a i xs)

-- `next` leads to what stands behind an item.
pub next-eq-after :
    (f : ℕ → ListItem) (c i : ℕ) (p n : Option ℕ) (xs : List ℕ)
    → IsSeg f c p n xs
    → has i xs ≡ true
    → (f i).next ≡ head_or n (after i xs)
unfolding after
next-eq-after f c i p n [] s h = cc
next-eq-after f c i p n (x ∷ xs) s h = elim (Bool-cases (i == x)) [
  | inl e ↦ rw e (subst (λ k. (f k).next ≡ head_or n xs) (ground arith) s.1)
  | inr e ↦ rw e (next-eq-after f c i (some x) n xs s.3 (ground arith))
]

has-erase_of_after :
    (a i : ℕ) (xs : List ℕ) → Distinct xs → has a (after i xs) ≡ true → has a (erase i xs) ≡ true
unfolding after erase
has-erase_of_after a i [] d h = cc
has-erase_of_after a i (x ∷ xs) d h = ground (arith, has-erase_of_after a i xs)

-- `index` after a removal: it moves on where the removed item had its turn.
pub index-unlink_ready :
    (i c : ℕ) (m : Links)
    → same_ptr (some i) (m.item i).prev ≡ false
    → ((unlink_ready i c m).list c).index ≡ (
        if same_ptr (m.list c).index (some i)
        then (elim ((m.item i).next) [
          | none ↦ ((unlink_ready i c m).list c).head
          | some n ↦ some n
        ])
        else (m.list c).index)
unfolding unlink_ready
index-unlink_ready i c m h = ground arith

pub or_else :
    (d : Option ℕ) (ys : List ℕ)
    → elim (head_or none ys) [ none ↦ d | some n ↦ some n ] ≡ head_or d ys
or_else d [] = refl
or_else d (y ∷ ys) = refl

IsTurn-kept :
    (i : ℕ) (xs : List ℕ) (o : Option ℕ)
    → Distinct xs
    → has i xs ≡ true
    → IsTurn xs o
    → IsTurn
        (erase i xs)
        (if same_ptr o (some i) then head_or (head_or none (erase i xs)) (after i xs) else o)
IsTurn-kept i xs none d h t = absurd (ground arith)
IsTurn-kept i xs (some j) d h t = elim (Bool-cases (j == i)) [
  | inl e ↦ rw e (IsTurn-head_or (erase i xs) (after i xs) (λ a k. has-erase_of_after a i xs d k))
  | inr e ↦ rw e (ground (arith, has-erase j i xs d))
]

IsTurn-push :
    (i : ℕ) (xs : List ℕ) (o : Option ℕ)
    → IsTurn xs o
    → IsTurn (xs ++ i ∷ []) (elim (last_or none xs) [ none ↦ some i | some _ ↦ o ])
IsTurn-push i [] o t = ground arith
IsTurn-push i (x ∷ xs) none t = absurd (ground arith)
IsTurn-push i (x ∷ xs) (some j) t =
    rw ((last_or-some x xs).1) (ground (arith, has-append j (x ∷ xs) (i ∷ [])))

module _ (i c : ℕ) (m : Links) (xs : List ℕ) (l : IsList m c xs) where
  -- The turn passes to the item behind the removed one, or else to the first that is left.
  pub index-unlink_ready_lem :
      has i xs ≡ true
      → ((unlink_ready i c m).list c).index ≡ (
          if same_ptr (m.list c).index (some i)
          then head_or (head_or none (erase i xs)) (after i xs)
          else (m.list c).index)
  index-unlink_ready_lem h =
      let rest = unlink_ready-IsList m i c xs l h in
      let moved = or_else ((unlink_ready i c m).list c).head (after i xs) in
      let next = next-eq-after m.item c i none none xs l.chain h in
      index-unlink_ready i c m (prev_ne m i c xs l h) ∙ rw (next, moved, rest.head)

  pub unlink_ready-IsTurn :
      has i xs ≡ true
      → IsTurn xs (m.list c).index
      → IsTurn (erase i xs) ((unlink_ready i c m).list c).index
  unlink_ready-IsTurn h t =
      rw (index-unlink_ready_lem h) (IsTurn-kept i xs (m.list c).index l.distinct h t)

  pub push_back_ready-IsTurn :
      (owner : ℕ)
      → IsTurn xs (m.list c).index
      → IsTurn (xs ++ i ∷ []) ((push_back_ready i owner c m).list c).index
  push_back_ready-IsTurn owner t =
      let e = ap (λ k. k.index) (list-push_back_ready i owner c m) in
      rw (e, l.list_end) (IsTurn-push i xs (m.list c).index t)

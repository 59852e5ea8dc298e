-- ===== src/Kernel/Links/PushBack.antt =====
-- Appending to a list, as scheduler_add_to_ready_list, mutex_add_to_blocked_list and
-- semaphore_add_to_blocked_list write it.
use rpitos.Prelude.{
  ℕ, ◌+◌, ◌<◌, ◌^◌, ◌≡◌, sym, ap, ◌∙◌, true, false, Option, none, some, List, [], ◌∷◌, ◌++◌, arith,
  ◌==◌, if◌then◌else◌, update, same_ptr, has, has-ne', has-append, Distinct, Distinct-snoc, head_or,
  last_or, length, length-append, inl, inr, Bool-cases,
}
use rpitos.Kernel.Links.{ListItem, TaskList, Links, push_back, push_back_ready, inc16}
use rpitos.Kernel.Links.Chain.{
  IsSeg, IsList, IsSeg-append, IsSeg-frame, IsSeg-container, write_next, write_next_other,
  IsSeg-write_next, last_or-some, last_or-append, last_ne,
}

-- What an append does to the items.
abbrev joined : (ℕ → ListItem) → ℕ → ℕ → ℕ → Option ℕ → ℕ → ListItem
joined f i owner c e =
    update (write_next e (some i) f) i
      (record { next = none; prev = e; owner = owner; container = some c })

module _ (i owner c : ℕ) (m : Links) (apart : same_ptr (some i) (m.list c).list_end ≡ false) where
  item-push_back :
      (a : ℕ) → (push_back i owner c m).item a ≡ joined m.item i owner c (m.list c).list_end a
  unfolding push_back
  item-push_back a = ground arith

  item-push_back_ready :
      (a : ℕ) → (push_back_ready i owner c m).item a ≡ joined m.item i owner c (m.list c).list_end a
  unfolding push_back_ready
  item-push_back_ready a = ground arith

abbrev pub joined_list : TaskList → ℕ → TaskList
joined_list l i = record l {
  head = elim (l.list_end) [ none ↦ some i | some _ ↦ l.head ];
  list_end = some i;
  num_items = inc16 l.num_items;
}

module _ (i owner c : ℕ) (m : Links) where
  list-push_back : (push_back i owner c m).list c ≡ joined_list (m.list c) i
  unfolding push_back
  list-push_back = ground arith

  pub list-push_back_ready :
      (push_back_ready i owner c m).list c ≡ record (joined_list (m.list c) i) {
        index = elim ((m.list c).list_end) [ none ↦ some i | some _ ↦ (m.list c).index ];
      }
  unfolding push_back_ready
  list-push_back_ready = ground arith

  pub list-push_back_ne : (d : ℕ) → (d == c) ≡ false → (push_back i owner c m).list d ≡ m.list d
  unfolding push_back
  list-push_back_ne d h = ground arith

  pub list-push_back_ready_ne :
      (d : ℕ) → (d == c) ≡ false → (push_back_ready i owner c m).list d ≡ m.list d
  unfolding push_back_ready
  list-push_back_ready_ne d h = ground arith

joined_keeps :
    (f : ℕ → ListItem) (i owner c : ℕ) (e : Option ℕ) (a : ℕ)
    → ((joined f i owner c e a).container ≡ (if a == i then some c else (f a).container))
      × ((joined f i owner c e a).owner ≡ (if a == i then owner else (f a).owner))
joined_keeps f i owner c none a = ground arith
joined_keeps f i owner c (some e) a = ground arith

joined_self :
    (f : ℕ → ListItem) (i owner c : ℕ) (e : Option ℕ)
    → IsSeg (joined f i owner c e) c e none (i ∷ [])
joined_self f i owner c e = ground arith

found_snoc :
    (a i c : ℕ) (xs : List ℕ) (o : Option ℕ)
    → (if a == i then some c else o) ≡ some c
    → (o ≡ some c → has a xs ≡ true)
    → has a (xs ++ i ∷ []) ≡ true
found_snoc a i c xs o k old = ground (arith, has-append a xs (i ∷ []))

joined-head :
    (l : TaskList) (i : ℕ) (xs : List ℕ)
    → l.head ≡ head_or none xs
    → l.list_end ≡ last_or none xs
    → (joined_list l i).head ≡ head_or none (xs ++ i ∷ [])
joined-head l i [] h e = ground arith
joined-head l i (x ∷ xs) h e = ground (arith, last_or-some x xs)

module _ (m : Links) (i owner c : ℕ) (xs : List ℕ) (l : IsList m c xs) where
  last_apart : has i xs ≡ false → same_ptr (some i) (m.list c).list_end ≡ false
  last_apart h = rw l.list_end (last_ne i xs h)

  joined-before :
      (ys : List ℕ)
      → IsSeg m.item c none none ys
      → Distinct ys
      → has i ys ≡ false
      → IsSeg (joined m.item i owner c (last_or none ys)) c none (some i) ys
  joined-before [] s d h = tt
  joined-before (y ∷ ys) s d h =
      IsSeg-frame c (write_next (last_or (some y) ys) (some i) m.item)
        (joined m.item i owner c (last_or (some y) ys)) none (some i) (y ∷ ys)
        (λ a k. rw (has-ne' a i (y ∷ ys) k h))
        (IsSeg-write_next c m.item none none (some i) y ys d s)

  joined-IsList :
      (m' : Links)
      → has i xs ≡ false
      → length xs + 1 < 2 ^ 16
      → ((a : ℕ) → m'.item a ≡ joined m.item i owner c (last_or none xs) a)
      → ((m'.list c).head ≡ (joined_list (m.list c) i).head)
      → ((m'.list c).list_end ≡ some i)
      → ((m'.list c).num_items ≡ inc16 (m.list c).num_items)
      → IsList m' c (xs ++ i ∷ [])
  joined-IsList m' h room items e1 e2 e3 = record {
    head = e1 ∙ joined-head (m.list c) i xs l.head l.list_end;
    list_end = rw last_or-append e2;
    count = e3 ∙ ground (arith, l.count, length-append xs (i ∷ []));
    small = omega (arith, length-append xs (i ∷ []));
    chain =
        IsSeg-frame c (joined m.item i owner c (last_or none xs)) m'.item none none (xs ++ i ∷ [])
          (λ a _. items a)
          (IsSeg-append c (joined m.item i owner c (last_or none xs)) none none xs (i ∷ [])
            (joined-before xs l.chain l.distinct h)
            (joined_self m.item i owner c (last_or none xs)));
    distinct = Distinct-snoc i xs l.distinct h;
    complete = λ a k.
        found_snoc a i c xs (m.item a).container
          (sym (joined_keeps m.item i owner c (last_or none xs) a).0
            ∙ ap (λ x. x.container) (sym (items a))
            ∙ k)
          (l.complete a);
  }

  -- The items of other lists stay as they were, for a joining item that was in none.
  joined_elsewhere :
      (a d : ℕ)
      → (d == c) ≡ false
      → (m.item i).container ≡ none
      → (m.item a).container ≡ some d
      → joined m.item i owner c (last_or none xs) a ≡ m.item a
  joined_elsewhere a d ne free k =
      let out : has a xs ≡ false = elim (Bool-cases (has a xs)) [
        | inl e ↦ absurd (ground (arith, IsSeg-container c m.item none none a xs l.chain e))
        | inr e ↦ e
      ] in
      let other : (a == i) ≡ false = elim (Bool-cases (a == i)) [
        | inl e ↦ absurd (ground arith)
        | inr e ↦ e
      ] in
      rw other (write_next_other (last_or none xs) (some i) m.item a (last_ne a xs out))

  joined-IsList_ne :
      (m' : Links) (d : ℕ) (zs : List ℕ)
      → (d == c) ≡ false
      → (m.item i).container ≡ none
      → ((a : ℕ) → m'.item a ≡ joined m.item i owner c (last_or none xs) a)
      → m'.list d ≡ m.list d
      → IsList m d zs
      → IsList m' d zs
  joined-IsList_ne m' d zs ne free items same k = record {
    head = rw same k.head;
    list_end = rw same k.list_end;
    count = rw same k.count;
    small = k.small;
    chain =
        IsSeg-frame d m.item m'.item none none zs
          (λ a e.
            items a
            ∙ joined_elsewhere a d ne free (IsSeg-container d m.item none none a zs k.chain e))
          k.chain;
    distinct = k.distinct;
    complete = λ a e.
        ground (arith, items a, joined_keeps m.item i owner c (last_or none xs) a, k.complete a);
  }

module _ (m : Links) (i owner c : ℕ) (xs : List ℕ) (l : IsList m c xs)
    (free : (m.item i).container ≡ none) where
  not_in : has i xs ≡ false
  not_in = elim (Bool-cases (has i xs)) [
    | inl e ↦ absurd (ground (arith, IsSeg-container c m.item none none i xs l.chain e))
    | inr e ↦ e
  ]

  push_back-items :
      (a : ℕ) → (push_back i owner c m).item a ≡ joined m.item i owner c (last_or none xs) a
  push_back-items a =
      rw (← l.list_end) (item-push_back i owner c m (last_apart m i owner c xs l not_in) a)

  push_back_ready-items :
      (a : ℕ) → (push_back_ready i owner c m).item a ≡ joined m.item i owner c (last_or none xs) a
  push_back_ready-items a =
      rw (← l.list_end) (item-push_back_ready i owner c m (last_apart m i owner c xs l not_in) a)

  -- The item becomes the last of its list.
  pub push_back-IsList : length xs + 1 < 2 ^ 16 → IsList (push_back i owner c m) c (xs ++ i ∷ [])
  push_back-IsList room =
      let e = list-push_back i owner c m in
      joined-IsList m i owner c xs l (push_back i owner c m) not_in room push_back-items
        (ap (λ t. t.head) e) (ap (λ t. t.list_end) e) (ap (λ t. t.num_items) e)

  pub push_back_ready-IsList :
      length xs + 1 < 2 ^ 16 → IsList (push_back_ready i owner c m) c (xs ++ i ∷ [])
  push_back_ready-IsList room =
      let e = list-push_back_ready i owner c m in
      joined-IsList m i owner c xs l (push_back_ready i owner c m) not_in room push_back_ready-items
        (ap (λ t. t.head) e) (ap (λ t. t.list_end) e) (ap (λ t. t.num_items) e)

  -- The other lists stay as they were.
  pub push_back-IsList_ne :
      (d : ℕ) (zs : List ℕ) → (d == c) ≡ false → IsList m d zs → IsList (push_back i owner c m) d zs
  push_back-IsList_ne d zs ne =
      joined-IsList_ne m i owner c xs l (push_back i owner c m) d zs ne free push_back-items
        (list-push_back_ne i owner c m d ne)

  pub push_back_ready-IsList_ne :
      (d : ℕ) (zs : List ℕ)
      → (d == c) ≡ false
      → IsList m d zs
      → IsList (push_back_ready i owner c m) d zs
  push_back_ready-IsList_ne d zs ne =
      joined-IsList_ne m i owner c xs l (push_back_ready i owner c m) d zs ne free
        push_back_ready-items (list-push_back_ready_ne i owner c m d ne)

  pub push_back_ready_keeps :
      (a : ℕ)
      → (((push_back_ready i owner c m).item a).container
          ≡ (if a == i then some c else (m.item a).container))
        × (((push_back_ready i owner c m).item a).owner
            ≡ (if a == i then owner else (m.item a).owner))
  push_back_ready_keeps a =
      rw (push_back_ready-items a) (joined_keeps m.item i owner c (last_or none xs) a)

  pub push_back_keeps :
      (a : ℕ)
      → (((push_back i owner c m).item a).container
          ≡ (if a == i then some c else (m.item a).container))
        × (((push_back i owner c m).item a).owner ≡ (if a == i then owner else (m.item a).owner))
  push_back_keeps a = rw (push_back-items a) (joined_keeps m.item i owner c (last_or none xs) a)

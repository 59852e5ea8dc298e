-- ===== src/Kernel/Links/Splice.antt =====
-- The net effect of linking an item in between two parts of a list, as
-- scheduler_add_to_blocked_list does it.
use rpitos.Prelude.{
  ℕ, ◌+◌, ◌<◌, ◌^◌, ◌≡◌, refl, sym, ap, ◌∙◌, true, false, Option, none, some, List, [], ◌∷◌, ◌++◌,
  arith, ◌==◌, if◌then◌else◌, update, same_ptr, has, has-ne', has-append, Distinct, Distinct-append,
  Distinct-insert, Distinct-apart, head_or, last_or, length, length-append, inl, inr, Bool-cases,
  not_has-parts,
}
use rpitos.Kernel.Links.{ListItem, TaskList, Links, inc16}
use rpitos.Kernel.Links.Chain.{
  IsSeg, IsList, IsSeg-append, IsSeg-split, IsSeg-frame, IsSeg-container, write_next, write_prev,
  write_next_other, write_prev_other, write_prev-ap, IsSeg-write_next, IsSeg-write_prev,
  last_or-some, last_or-append, last_ne, head_ne,
}

abbrev pub spliced : (ℕ → ListItem) → ℕ → ℕ → ℕ → Option ℕ → Option ℕ → ℕ → ListItem
spliced f i owner c p n =
    update (write_prev n (some i) (write_next p (some i) f)) i
      (record { next = n; prev = p; owner = owner; container = some c })

pub spliced_keeps :
    (f : ℕ → ListItem) (i owner c : ℕ) (p n : Option ℕ) (a : ℕ)
    → ((spliced f i owner c p n a).container ≡ (if a == i then some c else (f a).container))
      × ((spliced f i owner c p n a).owner ≡ (if a == i then owner else (f a).owner))
spliced_keeps f i owner c none none a = ground arith
spliced_keeps f i owner c none (some n) a = ground arith
spliced_keeps f i owner c (some p) none a = ground arith
spliced_keeps f i owner c (some p) (some n) a = ground arith

module _ (f : ℕ → ListItem) (i owner c : ℕ) where
  -- In front, only the last item's `next` changes; behind, only the first item's `prev`.
  spliced-before :
      (ys : List ℕ) (n o : Option ℕ)
      → IsSeg f c none o ys
      → Distinct ys
      → has i ys ≡ false
      → ((a : ℕ) → has a ys ≡ true → same_ptr (some a) n ≡ false)
      → IsSeg (spliced f i owner c (last_or none ys) n) c none (some i) ys
  spliced-before [] n o s d h apart = tt
  spliced-before (y ∷ ys) n o s d h apart =
      IsSeg-frame c (write_next (last_or (some y) ys) (some i) f)
        (spliced f i owner c (last_or (some y) ys) n) none (some i) (y ∷ ys)
        (λ a k.
          rw (has-ne' a i (y ∷ ys) k h) (
            write_prev_other n (some i) (write_next (last_or (some y) ys) (some i) f) a
              (apart a k)))
        (IsSeg-write_next c f none o (some i) y ys d s)

  spliced-after :
      (zs : List ℕ) (p o : Option ℕ)
      → IsSeg f c o none zs
      → Distinct zs
      → has i zs ≡ false
      → ((a : ℕ) → has a zs ≡ true → same_ptr (some a) p ≡ false)
      → IsSeg (spliced f i owner c p (head_or none zs)) c (some i) none zs
  spliced-after zs p o s d h apart =
      IsSeg-frame c (write_prev (head_or none zs) (some i) f)
        (spliced f i owner c p (head_or none zs)) (some i) none zs
        (λ a k. rw (has-ne' a i zs k h) (
          write_prev-ap (head_or none zs) (some i) (write_next p (some i) f) f a
            (write_next_other p (some i) f a (apart a k))))
        (IsSeg-write_prev c f o none (some i) zs d s)

spliced_self :
    (f : ℕ → ListItem) (i owner c : ℕ) (p n : Option ℕ)
    → ((spliced f i owner c p n i).prev ≡ p)
      × ((spliced f i owner c p n i).next ≡ n)
      × ((spliced f i owner c p n i).container ≡ some c)
spliced_self f i owner c p n = ground arith

abbrev pub spliced_list : TaskList → ℕ → Option ℕ → Option ℕ → TaskList
spliced_list l i p n = record l {
  head = elim p [ none ↦ some i | some _ ↦ l.head ];
  list_end = elim n [ none ↦ some i | some _ ↦ l.list_end ];
  num_items = inc16 l.num_items;
}

found_between :
    (a i c : ℕ) (ys zs : List ℕ) (o : Option ℕ)
    → (if a == i then some c else o) ≡ some c
    → (o ≡ some c → has a (ys ++ zs) ≡ true)
    → has a (ys ++ i ∷ zs) ≡ true
found_between a i c ys zs o k old = ground (arith, has-append a ys (i ∷ zs), has-append a ys zs)

spliced-head :
    (l : TaskList) (i : ℕ) (ys zs : List ℕ)
    → l.head ≡ head_or none (ys ++ zs)
    → (spliced_list l i (last_or none ys) (head_or none zs)).head ≡ head_or none (ys ++ i ∷ zs)
spliced-head l i [] zs h = refl
spliced-head l i (y ∷ ys) zs h = ground (arith, last_or-some y ys)

spliced-list_end :
    (l : TaskList) (i : ℕ) (ys zs : List ℕ)
    → l.list_end ≡ last_or none (ys ++ zs)
    → (spliced_list l i (last_or none ys) (head_or none zs)).list_end ≡ last_or none (ys ++ i ∷ zs)
spliced-list_end l i ys [] h = rw last_or-append
spliced-list_end l i ys (z ∷ zs) h =
    ground (arith, last_or-append none ys (z ∷ zs), last_or-append none ys (i ∷ z ∷ zs))

module _ (m : Links) (i owner c : ℕ) (ys zs : List ℕ) (l : IsList m c (ys ++ zs))
    (free : (m.item i).container ≡ none) where
  not_in_list : has i (ys ++ zs) ≡ false
  not_in_list = elim (Bool-cases (has i (ys ++ zs))) [
    | inl e ↦ absurd (ground (arith, IsSeg-container c m.item none none i (ys ++ zs) l.chain e))
    | inr e ↦ e
  ]

  -- A memory with the spliced items and list holds the list with the item in between.
  pub spliced-IsList :
      (m' : Links)
      → length (ys ++ zs) + 1 < 2 ^ 16
      → ((a : ℕ) → m'.item a ≡ spliced m.item i owner c (last_or none ys) (head_or none zs) a)
      → m'.list c ≡ spliced_list (m.list c) i (last_or none ys) (head_or none zs)
      → IsList m' c (ys ++ i ∷ zs)
  spliced-IsList m' room items e =
      let g = spliced m.item i owner c (last_or none ys) (head_or none zs) in
      let (s, t) = IsSeg-split c m.item none none ys zs l.chain in
      let (d1, d2, apart) = Distinct-append ys zs l.distinct in
      let (n1, n2) = not_has-parts i ys zs not_in_list in
      let back =
        spliced-before m.item i owner c ys (head_or none zs) (head_or none zs) s d1 n1
          (λ a h. head_ne a zs (apart a h)) in
      let front =
        spliced-after m.item i owner c zs (last_or none ys) (last_or none ys) t d2 n2
          (λ a h. last_ne a ys (Distinct-apart a ys zs apart h)) in
      let self = spliced_self m.item i owner c (last_or none ys) (head_or none zs) in
      record {
        head = ap (λ x. x.head) e ∙ spliced-head (m.list c) i ys zs l.head;
        list_end = ap (λ x. x.list_end) e ∙ spliced-list_end (m.list c) i ys zs l.list_end;
        count =
            ap (λ x. x.num_items) e
            ∙ ground (arith, l.count, length-append ys zs, length-append ys (i ∷ zs));
        small = omega (arith, length-append ys zs, length-append ys (i ∷ zs));
        chain =
            IsSeg-frame c g m'.item none none (ys ++ i ∷ zs) (λ a _. items a)
              (IsSeg-append c g none none ys (i ∷ zs) back (self.0, self.1, self.2, front));
        distinct = Distinct-insert i ys zs l.distinct not_in_list;
        complete = λ a k.
            found_between a i c ys zs (m.item a).container
              (sym (spliced_keeps m.item i owner c (last_or none ys) (head_or none zs) a).0
                ∙ ap (λ x. x.container) (sym (items a))
                ∙ k)
              (l.complete a);
      }

  spliced_elsewhere :
      (a d : ℕ)
      → (d == c) ≡ false
      → (m.item a).container ≡ some d
      → spliced m.item i owner c (last_or none ys) (head_or none zs) a ≡ m.item a
  spliced_elsewhere a d ne k =
      let out : has a (ys ++ zs) ≡ false = elim (Bool-cases (has a (ys ++ zs))) [
        | inl e ↦ absurd (ground (arith, IsSeg-container c m.item none none a (ys ++ zs) l.chain e))
        | inr e ↦ e
      ] in
      let other : (a == i) ≡ false = elim (Bool-cases (a == i)) [
        | inl e ↦ absurd (ground arith)
        | inr e ↦ e
      ] in
      let (o1, o2) = not_has-parts a ys zs out in
      rw other (
        write_prev_other (head_or none zs) (some i) (write_next (last_or none ys) (some i) m.item) a
          (head_ne a zs o2)
        ∙ write_next_other (last_or none ys) (some i) m.item a (last_ne a ys o1))

  pub spliced-IsList_ne :
      (m' : Links) (d : ℕ) (xs : List ℕ)
      → (d == c) ≡ false
      → ((a : ℕ) → m'.item a ≡ spliced m.item i owner c (last_or none ys) (head_or none zs) a)
      → m'.list d ≡ m.list d
      → IsList m d xs
      → IsList m' d xs
  spliced-IsList_ne m' d xs ne items same k = record {
    head = rw same k.head;
    list_end = rw same k.list_end;
    count = rw same k.count;
    small = k.small;
    chain =
        IsSeg-frame d m.item m'.item none none xs
          (λ a e.
            items a ∙ spliced_elsewhere a d ne (IsSeg-container d m.item none none a xs k.chain e))
          k.chain;
    distinct = k.distinct;
    complete = λ a e. ground (
      arith,
      items a,
      spliced_keeps m.item i owner c (last_or none ys) (head_or none zs) a,
      k.complete a,
    );
  }

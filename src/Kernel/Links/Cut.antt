-- ===== src/Kernel/Links/Cut.antt =====
-- The net effect of a removal from the middle of a list: what becomes of the items and of the list.
use rpitos.Prelude.{
  ℕ, ◌≡◌, sym, ap, ◌∙◌, true, false, Option, none, some, List, [], ◌∷◌, ◌++◌, arith, ◌==◌,
  if◌then◌else◌, update, same_ptr, has, has-ne', has-erase, Distinct, Distinct-append,
  Distinct-erase, length-erase, erase, has-Around, head_or, last_or, inl, inr, Bool-cases,
}
use mathlib.Core.Path.{subst}
use rpitos.Kernel.Links.{ListItem, TaskList, Links, dec16}
use rpitos.Kernel.Links.Chain.{
  IsSeg, IsList, IsSeg-append, IsSeg-split, IsSeg-frame, write_next, write_prev, write_prev_other,
  write_next_other, write_prev-ap, head_ne, last_ne, IsSeg-write_next, IsSeg-write_prev,
  last_or-some, last_or-append,
}

-- What a removal does to the items.
abbrev pub cut : (ℕ → ListItem) → ℕ → ℕ → ListItem
cut f i =
    update (write_prev (f i).next (f i).prev (write_next (f i).prev (f i).next f)) i
      (record (f i) { next = none; prev = none; container = none })

-- What a removal does to the list's ends and its count.
abbrev pub cut_list : TaskList → ListItem → TaskList
cut_list l x = record l {
  head = elim (x.prev) [ none ↦ x.next | some _ ↦ l.head ];
  list_end = elim (x.next) [ none ↦ x.prev | some _ ↦ l.list_end ];
  num_items = dec16 l.num_items;
}

-- The neighbours of an item in the middle of a list.
pub record Neighbours (m : Links) (i c : ℕ) (ys zs : List ℕ) : Type 0 where
  pub prev : (m.item i).prev ≡ last_or none ys
  pub next : (m.item i).next ≡ head_or none zs
  pub before : IsSeg m.item c none (some i) ys
  pub after : IsSeg m.item c (some i) none zs
  pub front : Distinct ys
  pub back : Distinct zs
  pub apart : (a : ℕ) → has a ys ≡ true → has a zs ≡ false
  pub not_before : has i ys ≡ false
  pub not_after : has i zs ≡ false

pub IsList-Neighbours :
    (m : Links) (i c : ℕ) (ys zs : List ℕ) → IsList m c (ys ++ i ∷ zs) → Neighbours m i c ys zs
IsList-Neighbours m i c ys zs l =
    let (s, t) = IsSeg-split c m.item none none ys (i ∷ zs) l.chain in
    let (d1, d2, apart) = Distinct-append ys (i ∷ zs) l.distinct in
    record {
      prev = t.0;
      next = t.1;
      before = s;
      after = t.3;
      front = d1;
      back = d2.1;
      apart = λ a h. ground (arith, apart a);
      not_before = elim (Bool-cases (has i ys)) [
        | inl e ↦ absurd (ground (arith, apart i e))
        | inr e ↦ e
      ];
      not_after = d2.0;
    }

cut-eq-write_next :
    (f : ℕ → ListItem) (i a : ℕ)
    → (a == i) ≡ false
    → same_ptr (some a) (f i).next ≡ false
    → cut f i a ≡ write_next (f i).prev (f i).next f a
cut-eq-write_next f i a h k = rw h (write_prev_other (f i).next (f i).prev _ a k)

cut-eq-write_prev :
    (f : ℕ → ListItem) (i a : ℕ) (n p : Option ℕ)
    → (f i).next ≡ n
    → (f i).prev ≡ p
    → (a == i) ≡ false
    → same_ptr (some a) p ≡ false
    → cut f i a ≡ write_prev n p f a
cut-eq-write_prev f i a n p en ep h k =
    rw (h, en, ep) (write_prev-ap n p (write_next p n f) f a (write_next_other p n f a k))

pub cut_other :
    (f : ℕ → ListItem) (i a : ℕ)
    → (a == i) ≡ false
    → same_ptr (some a) (f i).next ≡ false
    → same_ptr (some a) (f i).prev ≡ false
    → cut f i a ≡ f a
cut_other f i a h n p = cut-eq-write_next f i a h n ∙ write_next_other (f i).prev (f i).next f a p

-- A removal changes no owner, and takes the removed item alone out of its list.
pub cut_keeps :
    (f : ℕ → ListItem) (i a : ℕ)
    → ((cut f i a).owner ≡ (f a).owner)
      × ((cut f i a).container ≡ (if a == i then none else (f a).container))
cut_keeps f i a = ground arith

module _ (m : Links) (i c : ℕ) where
  -- Before the item, only the last `next` changes.
  cut-before :
      (ys zs : List ℕ) → Neighbours m i c ys zs → IsSeg (cut m.item i) c none (head_or none zs) ys
  cut-before [] zs b = tt
  cut-before (y ∷ ys) zs b =
      IsSeg-frame c (write_next (last_or (some y) ys) (head_or none zs) m.item) (cut m.item i) none
        (head_or none zs) (y ∷ ys)
        (λ a h.
          rw (← b.prev, ← b.next)
            (cut-eq-write_next m.item i a (has-ne' a i (y ∷ ys) h b.not_before)
              (rw b.next (head_ne a zs (b.apart a h)))))
        (IsSeg-write_next c m.item none (some i) (head_or none zs) y ys b.front b.before)

  cut-after :
      (ys zs : List ℕ) → Neighbours m i c ys zs → IsSeg (cut m.item i) c (last_or none ys) none zs
  cut-after ys [] b = tt
  cut-after ys (z ∷ zs) b =
      IsSeg-frame c (write_prev (some z) (last_or none ys) m.item) (cut m.item i) (last_or none ys)
        none (z ∷ zs)
        (λ a h.
          cut-eq-write_prev m.item i a (some z) (last_or none ys) b.next b.prev
            (has-ne' a i (z ∷ zs) h b.not_after) (last_ne a ys (not_in_front a h)))
        (IsSeg-write_prev c m.item (some i) none (last_or none ys) (z ∷ zs) b.back b.after)
    where
      not_in_front : (a : ℕ) → has a (z ∷ zs) ≡ true → has a ys ≡ false
      not_in_front a h = elim (Bool-cases (has a ys)) [
        | inl e ↦ absurd (ground (arith, b.apart a e))
        | inr e ↦ e
      ]

  cut-head :
      (ys zs : List ℕ)
      → Neighbours m i c ys zs
      → (m.list c).head ≡ head_or none (ys ++ i ∷ zs)
      → (cut_list (m.list c) (m.item i)).head ≡ head_or none (ys ++ zs)
  cut-head [] zs b e = ground arith
  cut-head (y ∷ ys) zs b e = ground (arith, last_or-some y ys)

  cut-list_end :
      (ys zs : List ℕ)
      → Neighbours m i c ys zs
      → (m.list c).list_end ≡ last_or none (ys ++ i ∷ zs)
      → (cut_list (m.list c) (m.item i)).list_end ≡ last_or none (ys ++ zs)
  cut-list_end ys [] b e = ground (arith, last_or-append none ys [])
  cut-list_end ys (z ∷ zs) b e =
      ground (arith, last_or-append none ys (z ∷ zs), last_or-append none ys (i ∷ z ∷ zs))

  -- A memory with the items and the list of the cut holds the list less the item.
  pub cut-IsList :
      (m' : Links) (xs : List ℕ)
      → IsList m c xs
      → has i xs ≡ true
      → ((a : ℕ) → m'.item a ≡ cut m.item i a)
      → ((m'.list c).head ≡ (cut_list (m.list c) (m.item i)).head)
      → ((m'.list c).list_end ≡ (cut_list (m.list c) (m.item i)).list_end)
      → ((m'.list c).num_items ≡ (cut_list (m.list c) (m.item i)).num_items)
      → IsList m' c (erase i xs)
  cut-IsList m' xs l h items e1 e2 e3 =
      let r = has-Around i xs h in
      let b = IsList-Neighbours m i c r.front r.back (subst (IsList m c) r.whole l) in
      record {
        head = rw r.rest (e1 ∙ cut-head r.front r.back b (l.head ∙ ap (head_or none) r.whole));
        list_end =
            rw r.rest (e2 ∙ cut-list_end r.front r.back b (l.list_end ∙ ap (last_or none) r.whole));
        count = e3 ∙ ground (arith, l.count, l.small, length-erase i xs h);
        small = ground (arith, l.small, length-erase i xs h);
        chain = subst (IsSeg m'.item c none none) (sym r.rest) (
            IsSeg-frame c (cut m.item i) m'.item none none (r.front ++ r.back) (λ a _. items a)
              (IsSeg-append c (cut m.item i) none none r.front r.back (cut-before r.front r.back b)
                (cut-after r.front r.back b)));
        distinct = Distinct-erase i xs l.distinct;
        complete = λ a k.
            ground
              (arith, items a, cut_keeps m.item i a, l.complete a, has-erase a i xs l.distinct);
      }

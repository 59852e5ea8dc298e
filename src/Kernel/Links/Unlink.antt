-- ===== src/Kernel/Links/Unlink.antt =====
-- Removal from the middle of a list, as timer_tick_handler, mutex_unlock and the two removals of
-- scheduler.c write it.
use rpitos.Prelude.{
  ℕ, ◌≡◌, sym, ap, ◌∙◌, true, false, none, some, List, arith, ◌==◌, if◌then◌else◌, same_ptr, has,
  not_has-append, erase, has-Around, inl, inr, Bool-cases,
}
use mathlib.Core.Path.{subst}
use rpitos.Kernel.Links.{Links, unlink, unlink_ready}
use rpitos.Kernel.Links.Chain.{IsList, IsSeg-frame, IsSeg-container, head_ne, last_ne}
use rpitos.Kernel.Links.Cut.{cut, cut_list, cut_keeps, cut_other, cut-IsList, IsList-Neighbours}

module _ (i c : ℕ) (m : Links) (no_loop : same_ptr (some i) (m.item i).prev ≡ false) where
  pub item-unlink : (a : ℕ) → (unlink i c m).item a ≡ cut m.item i a
  unfolding unlink
  item-unlink a = ground arith

  pub list-unlink : (unlink i c m).list c ≡ cut_list (m.list c) (m.item i)
  unfolding unlink
  list-unlink = ground arith

  pub list-unlink_ne : (d : ℕ) → (d == c) ≡ false → (unlink i c m).list d ≡ m.list d
  unfolding unlink
  list-unlink_ne d h = ground arith

  pub item-unlink_ready : (a : ℕ) → (unlink_ready i c m).item a ≡ cut m.item i a
  unfolding unlink_ready
  item-unlink_ready a = ground arith

  -- The removal from a ready list is the other removal, but for `index`.
  pub list-unlink_ready :
      (unlink_ready i c m).list c
      ≡ record (cut_list (m.list c) (m.item i)) { index = ((unlink_ready i c m).list c).index }
  unfolding unlink_ready
  list-unlink_ready = ground arith

  pub list-unlink_ready_ne : (d : ℕ) → (d == c) ≡ false → (unlink_ready i c m).list d ≡ m.list d
  unfolding unlink_ready
  list-unlink_ready_ne d h = ground arith

module _ (m : Links) (i c : ℕ) (xs : List ℕ) (l : IsList m c xs) (h : has i xs ≡ true) where
  pub prev_ne : same_ptr (some i) (m.item i).prev ≡ false
  prev_ne =
      let r = has-Around i xs h in
      let b = IsList-Neighbours m i c r.front r.back (subst (IsList m c) r.whole l) in
      rw b.prev (last_ne i r.front b.not_before)

  next_ne : same_ptr (some i) (m.item i).next ≡ false
  next_ne =
      let r = has-Around i xs h in
      let b = IsList-Neighbours m i c r.front r.back (subst (IsList m c) r.whole l) in
      rw b.next (head_ne i r.back b.not_after)

  -- unlink takes the item out of its list, and the rest stay in order.
  pub unlink-IsList : IsList (unlink i c m) c (erase i xs)
  unlink-IsList =
      let e = list-unlink i c m prev_ne in
      cut-IsList m i c (unlink i c m) xs l h (item-unlink i c m prev_ne) (ap (λ t. t.head) e)
        (ap (λ t. t.list_end) e) (ap (λ t. t.num_items) e)

  pub unlink_ready-IsList : IsList (unlink_ready i c m) c (erase i xs)
  unlink_ready-IsList =
      let e = list-unlink_ready i c m prev_ne in
      cut-IsList m i c (unlink_ready i c m) xs l h (item-unlink_ready i c m prev_ne)
        (ap (λ t. t.head) e) (ap (λ t. t.list_end) e) (ap (λ t. t.num_items) e)

  -- An item of another list is not a neighbour, and stays as it was.
  cut_elsewhere :
      (a d : ℕ) → (d == c) ≡ false → (m.item a).container ≡ some d → cut m.item i a ≡ m.item a
  cut_elsewhere a d ne k =
      let r = has-Around i xs h in
      let b = IsList-Neighbours m i c r.front r.back (subst (IsList m c) r.whole l) in
      let out : has a xs ≡ false = elim (Bool-cases (has a xs)) [
        | inl e ↦ absurd (ground (arith, IsSeg-container c m.item none none a xs l.chain e))
        | inr e ↦ e
      ] in
      let (p0, p1, p2) = not_has-append a i r.front r.back (ap (has a) (sym r.whole) ∙ out) in
      cut_other m.item i a p1 (rw b.next (head_ne a r.back p2)) (rw b.prev (last_ne a r.front p0))

  cut-IsList_ne :
      (m' : Links) (d : ℕ) (zs : List ℕ)
      → (d == c) ≡ false
      → ((a : ℕ) → m'.item a ≡ cut m.item i a)
      → m'.list d ≡ m.list d
      → IsList m d zs
      → IsList m' d zs
  cut-IsList_ne m' d zs ne items same k = record {
    head = rw same k.head;
    list_end = rw same k.list_end;
    count = rw same k.count;
    small = k.small;
    chain =
        IsSeg-frame d m.item m'.item none none zs
          (λ a e.
            items a ∙ cut_elsewhere a d ne (IsSeg-container d m.item none none a zs k.chain e))
          k.chain;
    distinct = k.distinct;
    complete = λ a e. ground (arith, items a, cut_keeps m.item i a, k.complete a);
  }

  -- The other lists stay as they were.
  pub unlink-IsList_ne :
      (d : ℕ) (zs : List ℕ) → (d == c) ≡ false → IsList m d zs → IsList (unlink i c m) d zs
  unlink-IsList_ne d zs ne =
      cut-IsList_ne (unlink i c m) d zs ne (item-unlink i c m prev_ne)
        (list-unlink_ne i c m prev_ne d ne)

  pub unlink_ready-IsList_ne :
      (d : ℕ) (zs : List ℕ) → (d == c) ≡ false → IsList m d zs → IsList (unlink_ready i c m) d zs
  unlink_ready-IsList_ne d zs ne =
      cut-IsList_ne (unlink_ready i c m) d zs ne (item-unlink_ready i c m prev_ne)
        (list-unlink_ready_ne i c m prev_ne d ne)

  -- What becomes of owners and containers.
  pub unlink_keeps :
      (a : ℕ)
      → (((unlink i c m).item a).owner ≡ (m.item a).owner)
        × (((unlink i c m).item a).container ≡ (if a == i then none else (m.item a).container))
  unlink_keeps a = rw (item-unlink i c m prev_ne a) (cut_keeps m.item i a)

  pub unlink_ready_keeps :
      (a : ℕ)
      → (((unlink_ready i c m).item a).owner ≡ (m.item a).owner)
        × (((unlink_ready i c m).item a).container
            ≡ (if a == i then none else (m.item a).container))
  unlink_ready_keeps a = rw (item-unlink_ready i c m prev_ne a) (cut_keeps m.item i a)

-- Only the named list changes.
pub list-unlink_other :
    (i c d : ℕ) (m : Links) → (d == c) ≡ false → (unlink i c m).list d ≡ m.list d
unfolding unlink
list-unlink_other i c d m h = ground arith

-- ===== src/Kernel/Scheduler/Blocked/Insert.antt =====
-- The three insertions of scheduler_add_to_blocked_list are splices of the item into the list.
use rpitos.Prelude.{ℕ, ◌≡◌, true, false, Option, none, some, arith, ◌==◌, same_ptr, leb, ◌∙◌, ap}
use rpitos.Kernel.Links.{Links, set_item}
use rpitos.Kernel.Links.Splice.{spliced, spliced_list}
use rpitos.Status.{done}
use rpitos.Kernel.Links.{state_item}
use rpitos.Kernel.State.{Kernel, set_links}
use rpitos.Kernel.Scheduler.Blocked.{
  walk, insert_at, insert_by_head, insert_blocked, insert_only, insert_first, insert_behind,
  count_item,
}

-- The item before it is linked in.
abbrev pub prepared : Links → ℕ → ℕ → ℕ → Links
prepared m i owner l =
    set_item i (record { next = none; prev = none; owner = owner; container = some l }) m

-- The memory `m'` is `m` with the item spliced into list `l` between `p` and `n`.
pub record IsSplice (m m' : Links) (i owner l : ℕ) (p n : Option ℕ) : Type 0 where
  pub items : (a : ℕ) → m'.item a ≡ spliced m.item i owner l p n a
  pub list : m'.list l ≡ spliced_list (m.list l) i p n
  pub others : (d : ℕ) → (d == l) ≡ false → m'.list d ≡ m.list d

module _ (m : Links) (i owner l : ℕ) where
  pub insert_only-IsSplice :
      IsSplice m (count_item l (insert_only i l (prepared m i owner l))) i owner l none none
  unfolding insert_only
  insert_only-IsSplice = record {
    items = λ a. ground arith;
    list = ground arith;
    others = λ d h. ground arith;
  }

  pub insert_first-IsSplice :
      (h : ℕ)
      → (i == h) ≡ false
      → IsSplice m
          (count_item l (insert_first i l h (prepared m i owner l)))
          i
          owner
          l
          none
          (some h)
  unfolding insert_first
  insert_first-IsSplice h ne = record {
    items = λ a. ground arith;
    list = ground arith;
    others = λ d e. ground arith;
  }

  pub insert_behind-IsSplice :
      (j : ℕ)
      → (i == j) ≡ false
      → same_ptr (some i) (m.item j).next ≡ false
      → IsSplice m
          (count_item l (insert_behind i l j (prepared m i owner l)))
          i
          owner
          l
          (some j)
          (m.item j).next
  unfolding insert_behind
  insert_behind-IsSplice j ne ne' = record {
    items = λ a. ground arith;
    list = ground arith;
    others = λ d e. ground arith;
  }

-- The branches of the insertion.
pub insert_blocked-none :
    (t w l : ℕ) (k : Kernel)
    → (k.links.list l).head ≡ none
    → insert_blocked t w l k
      ≡ done (set_links (count_item l (insert_only (state_item t) l k.links)) k)
unfolding insert_blocked
insert_blocked-none t w l k e = ap (insert_by_head t w l k) e

pub insert_blocked-first :
    (t w l h : ℕ) (k : Kernel)
    → (k.links.list l).head ≡ some h
    → leb w (k.tcb (k.links.item h).owner).wakeup_time ≡ true
    → insert_blocked t w l k
      ≡ done (set_links (count_item l (insert_first (state_item t) l h k.links)) k)
unfolding insert_blocked
insert_blocked-first t w l h k e b = ap (insert_by_head t w l k) e ∙ rw b

pub insert_blocked-behind :
    (t w l h j : ℕ) (k : Kernel)
    → (k.links.list l).head ≡ some h
    → leb w (k.tcb (k.links.item h).owner).wakeup_time ≡ false
    → walk (k.links.list l).num_items h w k ≡ some j
    → insert_blocked t w l k
      ≡ done (set_links (count_item l (insert_behind (state_item t) l j k.links)) k)
unfolding insert_blocked
insert_blocked-behind t w l h j k e b r =
    ap (insert_by_head t w l k) e ∙ rw b (ap (insert_at t l k) r)

-- ===== src/Kernel/Scheduler/Blocked/Valid.antt =====
-- scheduler_add_to_blocked_list keeps the blocked list sorted and the state well formed.
use rpitos.Prelude.{
  ℕ, ◌+◌, ◌<◌, ◌^◌, ◌≡◌, refl, true, false, none, some, List, [], ◌∷◌, ◌++◌, arith, has, ◌==◌, leb,
  leb→le, lt_of_leb, length, inl, inr, ◌∙◌, ap, sym, Bool-cases, update, head_or, last_or,
  not_has-append,
}
use mathlib.Core.Path.{subst}
use mathlib.Core.List.{append_assoc}
use rpitos.Status.{Status, e_ok, Run, done, ◌>>=◌}
use rpitos.Kernel.Links.{ListItem, Links, state_item}
use rpitos.Kernel.Links.Chain.{
  IsSeg, IsList, IsSeg-frame, IsSeg-container, IsSeg-split, head_ne, last_or-append,
}
use rpitos.Kernel.Links.Splice.{spliced_keeps, spliced-IsList, spliced-IsList_ne}
use rpitos.Kernel.Links.Contents.{Holds, has-container, update-IsList}
use rpitos.Kernel.State.{Tcb, Kernel, max_cores, blocked_task_list}
use rpitos.Kernel.Scheduler.Valid.{IsPlaced, IsValid, IsSorted, tcb_end, task_of, room}
use rpitos.Kernel.Scheduler.Placed.{turns_elsewhere}
use rpitos.Kernel.Scheduler.Blocked.{
  walk, insert_blocked, add_to_blocked_list, prepare_blocked, count_item, insert_only, insert_first,
  insert_behind,
}
use rpitos.Kernel.Scheduler.Blocked.Insert.{
  IsSplice, prepared, insert_only-IsSplice, insert_first-IsSplice, insert_behind-IsSplice,
  insert_blocked-none, insert_blocked-first, insert_blocked-behind,
}
use rpitos.Kernel.Scheduler.Blocked.Walk.{
  wake_time, IsLater, IsStop, walk-IsStop, IsSorted-insert, IsSorted-first, IsSorted-frame,
}

-- The tasks with the wake-up time of one written.
abbrev pub timed : Kernel → ℕ → ℕ → ℕ → Tcb
timed k t w = update k.tcb t (record (k.tcb t) { wakeup_time = w })

abbrev answer : Run Kernel → Run (Status × Kernel)
answer r = r >>= λ k1. done (e_ok, k1)

-- The call returns E_OK; the task `t` stands in its core's blocked list, somewhere between its former items, and wakes
-- up at `w`; no other task changes, and the state is well formed.
pub record IsQueued (k : Kernel) (s : ℕ → List ℕ) (t w : ℕ) (r : Run (Status × Kernel))
    : Type 0 where
  pub state : Kernel
  pub front : List ℕ
  pub back : List ℕ
  pub result : r ≡ done (e_ok, state)
  pub parts : s (blocked_task_list (k.tcb t).core_id) ≡ front ++ back
  pub valid :
      IsValid state (update s (blocked_task_list (k.tcb t).core_id) (front ++ state_item t ∷ back))
  pub tasks : state.tcb ≡ timed k t w

module _ (k : Kernel) (s : ℕ → List ℕ) (v : IsValid k s) (t w : ℕ) (task : t < tcb_end)
    (cb : (k.tcb t).core_id < max_cores)
    (free : (k.links.item (state_item t)).container ≡ none) where
  abbrev list : ℕ
  list = blocked_task_list (k.tcb t).core_id

  abbrev item : ℕ
  item = state_item t

  timed_ne : (u : ℕ) → (u == t) ≡ false → timed k t w u ≡ k.tcb u
  timed_ne u h = rw h

  -- The written task has no item in a list of a core.
  listed_ne : (a c : ℕ) → c < 28 → has a (s c) ≡ true → (task_of a == t) ≡ false
  listed_ne a c b h =
      let inside = has-container v.placed.holds a c h in
      let even = v.placed.states a c b inside in
      elim (Bool-cases (task_of a == t)) [
        | inl e ↦ absurd (outside a c inside (ground arith))
        | inr e ↦ e
      ]
    where
      outside : (a c : ℕ) → (k.links.item a).container ≡ some c → a ≡ item → ⊥
      outside a c inside e = let f = ap (λ j. (k.links.item j).container) e in ground arith

  wake_time-other :
      (a c : ℕ) → c < 28 → has a (s c) ≡ true → wake_time (timed k t w) a ≡ wake_time k.tcb a
  wake_time-other a c b h =
      ap (λ (d : Tcb). d.wakeup_time) (timed_ne (task_of a) (listed_ne a c b h))

  module _ (m' : Links) (ys zs : List ℕ) (parts : s list ≡ ys ++ zs)
      (p : IsSplice k.links m' item t list (last_or none ys) (head_or none zs)) where
    is_list : IsList k.links list (ys ++ zs)
    is_list = subst (IsList k.links list) parts (v.placed.holds.lists list)

    splice-Holds : Holds m' (update s list (ys ++ item ∷ zs))
    splice-Holds = record {
      lists =
          update-IsList m' s list (ys ++ item ∷ zs)
            (spliced-IsList k.links item t list ys zs is_list free m'
              (subst (λ l. length l + 1 < 2 ^ 16) parts (room v.placed list)) p.items p.list)
            (λ d ne.
              spliced-IsList_ne k.links item t list ys zs is_list free m' d (s d) ne p.items
                (p.others d ne) (v.placed.holds.lists d));
      owners = λ a d e. ground (
        arith,
        p.items a,
        spliced_keeps k.links.item item t list (last_or none ys) (head_or none zs) a,
        v.placed.holds.owners a d,
      );
    }

    splice-IsPlaced : IsPlaced m' (update s list (ys ++ item ∷ zs))
    splice-IsPlaced = record {
      holds = splice-Holds;
      bounded = λ a c e. ground (
        arith,
        p.items a,
        spliced_keeps k.links.item item t list (last_or none ys) (head_or none zs) a,
        v.placed.bounded a c,
      );
      states = λ a c h e. ground (
        arith,
        p.items a,
        spliced_keeps k.links.item item t list (last_or none ys) (head_or none zs) a,
        v.placed.states a c,
      );
      turns =
          turns_elsewhere k.links m' s v.placed list (ys ++ item ∷ zs)
            (λ core q cb' qb. omega arith) p.others;
    }

    splice-IsValid :
        IsSorted (timed k t w) (ys ++ item ∷ zs)
        → IsValid (record k { links = m'; tcb = timed k t w }) (update s list (ys ++ item ∷ zs))
    splice-IsValid sorted = record {
      placed = splice-IsPlaced;
      listed = λ u core q cb' qb e. ground (
        arith,
        p.items (state_item u),
        spliced_keeps k.links.item item t list (last_or none ys) (head_or none zs) (state_item u),
        v.listed u core q cb' qb,
      );
      blocked = λ u core cb' e. ground (
        arith,
        p.items (state_item u),
        spliced_keeps k.links.item item t list (last_or none ys) (head_or none zs) (state_item u),
        v.blocked u core cb',
      );
      sorted = λ core cb'. elim (Bool-cases (blocked_task_list core == list)) [
        | inl e ↦ rw e sorted
        | inr e ↦ rw e (
            IsSorted-frame k.tcb (timed k t w) (s (blocked_task_list core))
              (λ a h. wake_time-other a (blocked_task_list core) (omega arith) h)
              (v.sorted core cb'))
      ];
      current = λ u e. ground (arith, v.current u);
    }

  own_time : wake_time (timed k t w) item ≡ w
  own_time = ground arith

  into : Links → Kernel
  into m = record k { links = m; tcb = timed k t w }

  before : Links
  before = prepared k.links item t list

  insert_empty :
      s list ≡ [] → IsQueued k s t w (answer (insert_blocked t w list (prepare_blocked t w k)))
  unfolding into before
  insert_empty e =
      let l = v.placed.holds.lists list in
      let m' = count_item list (insert_only item list before) in
      record {
        state = into m';
        front = [];
        back = [];
        result =
            ap answer
              (insert_blocked-none t w list (prepare_blocked t w k) (l.head ∙ ap (head_or none) e));
        parts = e;
        valid = splice-IsValid m' [] [] e (insert_only-IsSplice k.links item t list) tt;
        tasks = refl;
      }

  not_listed : (xs : List ℕ) → IsList k.links list xs → has item xs ≡ false
  not_listed xs l = elim (Bool-cases (has item xs)) [
    | inl e ↦ absurd (ground (arith, IsSeg-container list k.links.item none none item xs l.chain e))
    | inr e ↦ e
  ]

  module _ (x : ℕ) (xs : List ℕ) (e : s list ≡ x ∷ xs) where
    head_here : has x (s list) ≡ true
    head_here = rw e (ground arith)

    item_ne : (a : ℕ) → has a (s list) ≡ true → (item == a) ≡ false
    item_ne a h = let other = listed_ne a list (omega arith) h in ground arith

    head_some : (k.links.list list).head ≡ some x
    head_some = (v.placed.holds.lists list).head ∙ ap (head_or none) e

    prepared_same : (a : ℕ) → has a (s list) ≡ true → before.item a ≡ k.links.item a
    unfolding before
    prepared_same a h = let ne = item_ne a h in ground arith

    head_time : (timed k t w (before.item x).owner).wakeup_time ≡ wake_time (timed k t w) x
    head_time =
        let inside = has-container v.placed.holds x list head_here in
        ap (λ (u : ℕ). (timed k t w u).wakeup_time)
          (ap (λ (y : ListItem). y.owner) (prepared_same x head_here)
            ∙ v.placed.holds.owners x list inside)

    IsSorted-here : IsSorted (timed k t w) (x ∷ xs)
    IsSorted-here = subst (IsSorted (timed k t w)) e (
        IsSorted-frame k.tcb (timed k t w) (s list) (λ a h. wake_time-other a list (omega arith) h)
          (v.sorted (k.tcb t).core_id cb))

    insert_early :
        leb w (wake_time (timed k t w) x) ≡ true
        → IsQueued k s t w (answer (insert_blocked t w list (prepare_blocked t w k)))
    unfolding into before
    insert_early h =
        let m' = count_item list (insert_first item list x before) in
        record {
          state = into m';
          front = [];
          back = x ∷ xs;
          result = ap answer (
              insert_blocked-first t w list x (prepare_blocked t w k) head_some
                (ap (leb w) head_time ∙ h));
          parts = e;
          valid =
              splice-IsValid m' [] (x ∷ xs) e
                (insert_first-IsSplice k.links item t list x (item_ne x head_here))
                (IsSorted-first (timed k t w) item x xs
                  (rw own_time (leb→le w (wake_time (timed k t w) x) h)) IsSorted-here);
          tasks = refl;
        }

    stop :
        leb w (wake_time (timed k t w) x) ≡ false
        → IsStop
            (timed k t w)
            w
            (x ∷ xs)
            (walk (k.links.list list).num_items x w (prepare_blocked t w k))
    unfolding before
    stop h =
        let l = v.placed.holds.lists list in
        walk-IsStop (prepare_blocked t w k) list w
          (λ a c. ground (arith, v.placed.holds.owners a list)) (k.links.list list).num_items x none
          xs
          (subst (IsSeg before.item list none none) e
            (IsSeg-frame list k.links.item before.item none none (s list) prepared_same l.chain))
          (omega (arith, l.count, ap length e))
          (omega (arith, lt_of_leb w (wake_time (timed k t w) x) h))

    -- Between the item that the walk stops at and those behind it.
    IsSplice-at_stop :
        (front back : List ℕ) (j : ℕ)
        → x ∷ xs ≡ front ++ j ∷ back
        → IsSplice k.links
            (count_item list (insert_behind item list j before))
            item
            t
            list
            (last_or none (front ++ j ∷ []))
            (head_or none back)
    unfolding before
    IsSplice-at_stop front back j parts =
        let here = subst (IsList k.links list) (e ∙ parts) (v.placed.holds.lists list) in
        let (s1, s2) = IsSeg-split list k.links.item none none front (j ∷ back) here.chain in
        let out = not_listed (s list) (v.placed.holds.lists list) in
        let (o1, o2, o3) =
          not_has-append item j front back (ap (has item) (sym (e ∙ parts)) ∙ out) in
        rw (last_or-append, ← s2.1)
          (insert_behind-IsSplice k.links item t list j o2 (rw s2.1 (head_ne item back o3)))

    insert_late :
        leb w (wake_time (timed k t w) x) ≡ false
        → IsQueued k s t w (answer (insert_blocked t w list (prepare_blocked t w k)))
    unfolding into before
    insert_late h =
        let st = stop h in
        let m' = count_item list (insert_behind item list st.last before) in
        let ys = st.front ++ st.last ∷ [] in
        let parts = e ∙ st.parts ∙ sym (append_assoc st.front (st.last ∷ []) st.back) in
        record {
          state = into m';
          front = ys;
          back = st.back;
          result = ap answer (
              insert_blocked-behind t w list x st.last (prepare_blocked t w k) head_some
                (ap (leb w) head_time ∙ h) st.result);
          parts = parts;
          valid =
              splice-IsValid m' ys st.back parts
                (IsSplice-at_stop st.front st.back st.last st.parts)
                (IsSorted-insert (timed k t w) item st.last st.front st.back
                  (subst (IsSorted (timed k t w)) st.parts IsSorted-here) (rw own_time st.due)
                  (subst (λ (n : ℕ). IsLater (timed k t w) n st.back) (sym own_time) st.later));
          tasks = refl;
        }

  insert_cases :
      (xs : List ℕ)
      → s list ≡ xs
      → IsQueued k s t w (answer (insert_blocked t w list (prepare_blocked t w k)))
  insert_cases [] e = insert_empty e
  insert_cases (x ∷ xs) e = elim (Bool-cases (leb w (wake_time (timed k t w) x))) [
    | inl h ↦ insert_early x xs e h
    | inr h ↦ insert_late x xs e h
  ]

  -- scheduler_add_to_blocked_list, for a task of a valid core whose state item is in no list, returns
  -- E_OK: the task stands in its core's blocked list with its wake-up time, between the former items
  -- in their order; the list is sorted by wake-up time and the state well formed; no other task changes.
  pub add_to_blocked_list-IsQueued : IsQueued k s t w (add_to_blocked_list (some t) w k)
  unfolding add_to_blocked_list
  add_to_blocked_list-IsQueued =
      let inside : leb max_cores (k.tcb t).core_id ≡ false = ground arith in
      rw inside (insert_cases (s list) refl)

-- ===== src/Kernel/Scheduler/Ready/Valid.antt =====
-- The ready lists' operations keep the scheduler's state well formed.
use rpitos.Prelude.{
  ℕ, ◌<◌, ◌≡◌, refl, true, false, none, some, List, [], ◌∷◌, ◌++◌, arith, update, has, erase, not,
  ◌&&◌, ◌∙◌, ◌⊎◌, Bool-cases, inl, inr,
}
use rpitos.Status.{e_ok, e_invalid_args}
use rpitos.Kernel.Links.{state_item, unlink_ready}
use rpitos.Kernel.Links.Contents.{in_list-eq-has}
use rpitos.Kernel.Links.PushBack.{push_back_ready_keeps}
use rpitos.Kernel.Links.Unlink.{unlink_ready_keeps}
use rpitos.Kernel.State.{ready, Kernel, set_links}
use rpitos.Kernel.Scheduler.Placed.{push_back_ready-IsPlaced, unlink_ready-IsPlaced}
use rpitos.Kernel.Scheduler.Valid.{IsValid, IsSorted-elsewhere, tcb_end}
use rpitos.Kernel.Scheduler.Ready.{
  out_of_range, own_ready_list, enqueue, add_to_ready_list, remove_from_ready_list,
}

-- What the lists hold with the task behind the others of its ready list.
abbrev pub appended : Kernel → (ℕ → List ℕ) → ℕ → ℕ → List ℕ
appended k s t = let l = own_ready_list (k.tcb t) in update s l (s l ++ state_item t ∷ [])

-- What the lists hold without the task in its ready list.
abbrev pub removed : Kernel → (ℕ → List ℕ) → ℕ → ℕ → List ℕ
removed k s t = let l = own_ready_list (k.tcb t) in update s l (erase (state_item t) (s l))

module _ (k : Kernel) (s : ℕ → List ℕ) (v : IsValid k s) (t : ℕ)
    (range : out_of_range (k.tcb t) ≡ false) where
  module _ (task : t < tcb_end) (free : (k.links.item (state_item t)).container ≡ none) where
    pub enqueue-IsValid : IsValid (enqueue t k) (appended k s t)
    unfolding enqueue
    enqueue-IsValid =
        let l = own_ready_list (k.tcb t) in
        let i = state_item t in
        let is_list = v.placed.holds.lists l in
        record {
          placed =
              push_back_ready-IsPlaced k.links s v.placed i l t (omega arith) (λ _. omega arith)
                (omega arith) free (k.tcb t).core_id (k.tcb t).priority (ground arith)
                (ground arith) refl;
          listed = λ u core p cb b e. ground (
            arith,
            push_back_ready_keeps k.links i t l (s l) is_list free (state_item u),
            v.listed u core p cb b,
          );
          blocked = λ u core cb e. ground (
            arith,
            push_back_ready_keeps k.links i t l (s l) is_list free (state_item u),
            v.blocked u core cb,
          );
          sorted = λ core cb.
              IsSorted-elsewhere v (enqueue t k).tcb l (s l ++ i ∷ []) core cb (ground arith)
                (λ u. ground arith);
          current = λ u e. ground (arith, v.current u);
        }

  module _ (h : has (state_item t) (s (own_ready_list (k.tcb t))) ≡ true) where
    -- The removal as remove_from_ready_list makes it.
    abbrev dequeue : Kernel
    dequeue = set_links (unlink_ready (state_item t) (own_ready_list (k.tcb t)) k.links) k

    dequeue-IsValid : IsValid dequeue (removed k s t)
    dequeue-IsValid =
        let l = own_ready_list (k.tcb t) in
        let i = state_item t in
        let is_list = v.placed.holds.lists l in
        record {
          placed =
              unlink_ready-IsPlaced k.links s v.placed i l h (k.tcb t).core_id (k.tcb t).priority
                (ground arith) (ground arith) refl;
          listed = λ u core p cb b e. ground (
            arith,
            unlink_ready_keeps k.links i l (s l) is_list h (state_item u),
            v.listed u core p cb b,
          );
          blocked = λ u core cb e. ground (
            arith,
            unlink_ready_keeps k.links i l (s l) is_list h (state_item u),
            v.blocked u core cb,
          );
          sorted = λ core cb.
              IsSorted-elsewhere v k.tcb l (erase i (s l)) core cb (ground arith) (λ u. refl);
          current = v.current;
        }

module _ (k : Kernel) (s : ℕ → List ℕ) (v : IsValid k s) (t : ℕ) where
  -- scheduler_add_to_ready_list, for a task whose state item is in no list: the task becomes the last of its ready list
  -- and READY, and the scheduler stays well formed. Out of range, it is refused and nothing changes.
  pub add_to_ready_list_lem :
      t < tcb_end
      → (k.links.item (state_item t)).container ≡ none
      → let (status, k') = add_to_ready_list (some t) k in
        ((out_of_range (k.tcb t) ≡ false)
          × (status ≡ e_ok)
          × IsValid k' (appended k s t)
          × ((k'.tcb t).current_state ≡ ready))
        ⊎ ((out_of_range (k.tcb t) ≡ true) × (status ≡ e_invalid_args) × (k' ≡ k))
  unfolding add_to_ready_list
  add_to_ready_list_lem task free = elim (Bool-cases (out_of_range (k.tcb t))) [
    | inl e ↦ inr (e, rw e, rw e)
    | inr e ↦ inl (e, rw e, rw e (enqueue-IsValid k s v t e task free), rw e (ground arith))
  ]

  -- scheduler_remove_from_ready_list: a task that stands in the ready list of its core and
  -- priority leaves it, the others stay in order, and the scheduler stays well formed. Any
  -- other call is refused and changes nothing.
  pub remove_from_ready_list_lem :
      let (status, k') = remove_from_ready_list (some t) k in
      let stands =
        not (out_of_range (k.tcb t)) && has (state_item t) (s (own_ready_list (k.tcb t))) in
      ((stands ≡ true) × (status ≡ e_ok) × IsValid k' (removed k s t))
      ⊎ ((stands ≡ false) × (status ≡ e_invalid_args) × (k' ≡ k))
  unfolding remove_from_ready_list
  remove_from_ready_list_lem =
      let l = own_ready_list (k.tcb t) in
      let i = state_item t in
      elim (Bool-cases (out_of_range (k.tcb t))) [
        | inl e ↦ inr (rw e, rw e, rw e)
        | inr e ↦ elim (Bool-cases (has i (s l))) [
          | inl h ↦
              let c = in_list-eq-has v.placed.holds i l ∙ h in
              inl (rw (e, h), rw (e, c), rw (e, c) (dequeue-IsValid k s v t e h))
          | inr h ↦
              let c = in_list-eq-has v.placed.holds i l ∙ h in inr (rw (e, h), rw (e, c), rw (e, c))
        ]
      ]

-- ===== src/Kernel/Timers/Arm.antt =====
-- software_timer_add_to_blocked_list, as insertion into a list in ascending order.
use rpitos.Prelude.{
  ℕ, ◌≤◌, ◌≡◌, refl, sym, ◌∙◌, false, none, List, [], ◌∷◌, arith, has, has-ne', Distinct, head_or,
  length, ltb, Bool-cases, inl, inr,
}
use mathlib.Core.Path.{subst}
use rpitos.Status.{Run, done}
use rpitos.Kernel.Timers.{
  Timers, in_blocked, set_timer, put_first, put_behind, find_place, insert_from,
  add_to_blocked_list,
}
use rpitos.Kernel.Timers.Insert.{
  IsChain, IsAscending, IsPlace, expiry_of, place, IsChain-frame, find_place-IsPlace,
  IsAscending-place, Distinct-place,
}

-- The list that counts down is `xs`, linked, without repetition and by ascending expiry.
pub record IsCountdown (s : Timers) (xs : List ℕ) : Type 0 where
  pub head : s.blocked_list_head ≡ head_or none xs
  pub chain : IsChain s.timer xs
  pub distinct : Distinct xs
  pub ascending : IsAscending (expiry_of s) xs

-- What arming the timer `t` leads to.
pub record IsArmed (s : Timers) (t : ℕ) (xs : List ℕ) (r : Run Timers) : Type 0 where
  pub state : Timers
  pub result : r ≡ done state
  pub valid : IsCountdown state (place (expiry_of s) (expiry_of s t) t xs)
  pub tag : (state.timer t).list_id ≡ in_blocked
  pub expiries : (a : ℕ) → expiry_of state a ≡ expiry_of s a
  pub active : state.active_list_head ≡ s.active_list_head

expiry-put_first : (s : Timers) (t a : ℕ) → expiry_of (put_first t s) a ≡ expiry_of s a
expiry-put_first s t a = ground arith

expiry-put_behind : (s : Timers) (t i a : ℕ) → expiry_of (put_behind t i s) a ≡ expiry_of s a
expiry-put_behind s t i a = ground arith

list_id-put_behind :
    (s : Timers) (t i a : ℕ) → ((put_behind t i s).timer a).list_id ≡ (s.timer a).list_id
list_id-put_behind s t i a = ground arith

IsAscending-ext :
    (f g : ℕ → ℕ) (xs : List ℕ) → ((a : ℕ) → g a ≡ f a) → IsAscending f xs → IsAscending g xs
IsAscending-ext f g xs same = subst (λ h. IsAscending h xs) (λ i a. sym (same a) i)

module _ (s : Timers) (t fuel : ℕ) (tag : (s.timer t).list_id ≡ in_blocked) where
  abbrev e : ℕ
  e = expiry_of s t

  IsArmed-first :
      (xs : List ℕ)
      → IsCountdown s xs
      → has t xs ≡ false
      → place (expiry_of s) e t xs ≡ t ∷ xs
      → IsArmed s t xs (done (put_first t s))
  IsArmed-first xs v out here =
      let f = expiry_of s in
      record {
        state = put_first t s;
        result = refl;
        valid = record {
          head = rw here refl;
          chain = rw here (
            ground (arith, v.head),
            IsChain-frame s.timer (put_first t s).timer xs (λ a h. rw (has-ne' a t xs h out) refl)
                v.chain,
          );
          distinct = Distinct-place t e f xs v.distinct out;
          ascending =
              IsAscending-ext f (expiry_of (put_first t s)) (place f e t xs) (expiry-put_first s t)
                (IsAscending-place f t xs v.ascending);
        };
        tag = ground (arith, tag);
        expiries = expiry-put_first s t;
        active = refl;
      }

  IsArmed-behind :
      (h : ℕ) (xs : List ℕ)
      → IsCountdown s (h ∷ xs)
      → has t (h ∷ xs) ≡ false
      → ltb e (expiry_of s h) ≡ false
      → (p : IsPlace s t e h xs (find_place fuel h e s))
      → IsArmed s t (h ∷ xs) (done (put_behind t p.last s))
  unfolding place
  IsArmed-behind h xs v out late p =
      let f = expiry_of s in
      let here : place f e t (h ∷ xs) ≡ h ∷ place f e t xs = rw late refl in
      record {
        state = put_behind t p.last s;
        result = refl;
        valid = record {
          head = simp here v.head;
          chain = subst (IsChain (put_behind t p.last s).timer) (sym here) p.chain;
          distinct = Distinct-place t e f (h ∷ xs) v.distinct out;
          ascending =
              IsAscending-ext f (expiry_of (put_behind t p.last s)) (place f e t (h ∷ xs))
                (expiry-put_behind s t p.last) (IsAscending-place f t (h ∷ xs) v.ascending);
        };
        tag = list_id-put_behind s t p.last t ∙ tag;
        expiries = expiry-put_behind s t p.last;
        active = refl;
      }

  insert_cases :
      (xs : List ℕ)
      → IsCountdown s xs
      → has t xs ≡ false
      → length xs ≤ fuel
      → IsArmed s t xs (insert_from fuel t (head_or none xs) s)
  unfolding insert_from place
  insert_cases [] v out room = IsArmed-first [] v out refl
  insert_cases (h ∷ xs) v out room = elim (Bool-cases (ltb e (expiry_of s h))) [
    | inl early ↦ rw early (IsArmed-first (h ∷ xs) v out (rw early refl))
    | inr late ↦
        let p = find_place-IsPlace s t e fuel h xs v.chain (omega arith) v.distinct out in
        rw (late, p.result) (IsArmed-behind h xs v out late p)
  ]

  pub insert_from-IsArmed :
      (xs : List ℕ)
      → IsCountdown s xs
      → has t xs ≡ false
      → length xs ≤ fuel
      → IsArmed s t xs (insert_from fuel t s.blocked_list_head s)
  insert_from-IsArmed xs v out room =
      subst (λ o. IsArmed s t xs (insert_from fuel t o s)) (sym v.head) (insert_cases xs v out room)

-- The timer with the fields that the insertion writes first.
abbrev tagged : ℕ → Timers → Timers
tagged t s = set_timer t (record (s.timer t) { list_id = in_blocked; next = none }) s

expiry-tagged : (t a : ℕ) (s : Timers) → expiry_of (tagged t s) a ≡ expiry_of s a
expiry-tagged t a s = ground arith

IsCountdown-tagged :
    (t : ℕ) (s : Timers) (xs : List ℕ)
    → IsCountdown s xs
    → has t xs ≡ false
    → IsCountdown (tagged t s) xs
IsCountdown-tagged t s xs v out = record {
  head = v.head;
  chain =
      IsChain-frame s.timer (tagged t s).timer xs (λ a h. rw (has-ne' a t xs h out) refl) v.chain;
  distinct = v.distinct;
  ascending =
      IsAscending-ext (expiry_of s) (expiry_of (tagged t s)) xs (λ a. expiry-tagged t a s)
        v.ascending;
}

-- software_timer_add_to_blocked_list, with enough fuel for the list that counts down, for a timer that is
-- not in it: the loop ends, the timer stands in front of the first one of a later expiry, the others stay
-- in their order, the list stays linked, without repetition and ascending, the timer is tagged as
-- counting down, and no expiry and no active list changes.
pub add_to_blocked_list-IsArmed :
    (s : Timers) (t fuel : ℕ) (xs : List ℕ)
    → IsCountdown s xs
    → has t xs ≡ false
    → length xs ≤ fuel
    → IsArmed s t xs (add_to_blocked_list fuel t s)
unfolding add_to_blocked_list
add_to_blocked_list-IsArmed s t fuel xs v out room =
    let s1 = tagged t s in
    let r =
      insert_from-IsArmed s1 t fuel (ground arith) xs (IsCountdown-tagged t s xs v out) out room in
    record {
      state = r.state;
      result = r.result;
      valid =
          subst (λ f. IsCountdown r.state (place f (f t) t xs)) (λ i a. expiry-tagged t a s i)
            r.valid;
      tag = r.tag;
      expiries = λ a. r.expiries a ∙ expiry-tagged t a s;
      active = r.active;
    }

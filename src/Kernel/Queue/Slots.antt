-- ===== src/Kernel/Queue/Slots.antt =====
-- The buffer is a ring of slots, and the critical sections are those of a first-in first-out
-- queue.
use rpitos.Prelude.{
  bytes_of, ℕ, zero, suc, ◌+◌, ◌-◌, ◌*◌, ◌%◌, ◌^◌, ◌<◌, ◌≤◌, ◌≡◌, ◌≢◌, refl, sym, ap, ◌∙◌, false,
  List, [], ◌∷◌, ◌++◌, arith, ltb, ltb→lt, if◌then◌else◌, ◌==◌, update, Bool-cases, inl, inr,
}
use mathlib.Core.Path.{ap₂}
use native.Mathlib.Nat.{mod-eq_of_lt}
use rpitos.Kernel.Queue.{Queue, offset, copy_in, copy_out}

-- A well-formed queue that holds `n` items: no product or sum wraps, and the head stands `n`
-- slots behind the tail.
pub record IsRing (q : Queue) (n : ℕ) : Type 0 where
  pub fits : q.capacity * q.item_size < 2 ^ 32
  pub short : q.capacity < 2 ^ 32
  pub tail_in : q.tail < q.capacity
  pub head_in : q.head < q.capacity
  pub room : n ≤ q.capacity
  pub ends : q.head ≡ (if ltb (q.tail + n) q.capacity then q.tail + n else q.tail + n - q.capacity)

-- The bytes of a slot.
abbrev pub slot : Queue → ℕ → List ℕ
slot q j = copy_out q.item_size 0 j q.item_size q.buf

-- The next slot round the ring.
abbrev pub next_slot : Queue → ℕ → ℕ
next_slot q j = if ltb (j + 1) q.capacity then j + 1 else 0

-- The `n` items from slot `j` on.
abbrev pub items_from : (ℕ → List ℕ) → ℕ → ℕ → ℕ → List (List ℕ)
items_from f cap j zero = []
items_from f cap j (suc n) = f j ∷ items_from f cap (if ltb (j + 1) cap then j + 1 else 0) n

abbrev pub contents : Queue → ℕ → List (List ℕ)
contents q n = items_from (slot q) q.capacity q.tail n

offset_lem :
    (j size cap i : ℕ) → cap * size < 2 ^ 32 → j < cap → i < size → offset j size i ≡ j * size + i
offset_lem j size cap i fits h k =
    let below : j * size + i < cap * size = grind arith in
    let small : j * size < 2 ^ 32 = omega arith in
    rw (mod-eq_of_lt small) (mod-eq_of_lt (omega arith))

slot_below : (j h size i : ℕ) → j < h → i < size → j * size + i < h * size
slot_below j h size i a b = grind arith

-- Bytes of two slots have different offsets.
offset_ne :
    (j h size cap i i' : ℕ)
    → cap * size < 2 ^ 32
    → j < cap
    → h < cap
    → i < size
    → i' < size
    → (j == h) ≡ false
    → offset j size i ≢ offset h size i'
offset_ne j h size cap i i' fits a b c d ne e =
    let e' = sym (offset_lem j size cap i fits a c) ∙ e ∙ offset_lem h size cap i' fits b d in
    elim (Bool-cases (ltb j h)) [
      | inl lt ↦ omega (arith, e', slot_below j h size i (ltb→lt j h lt) c)
      | inr ge ↦ omega (arith, e', slot_below h j size i' (ground arith) d)
    ]

copy_in-other :
    (n i slot size : ℕ) (src buf : ℕ → ℕ) (a : ℕ)
    → ((i' : ℕ) → i ≤ i' → i' < i + n → (a == offset slot size i') ≡ false)
    → copy_in n i slot size src buf a ≡ buf a
unfolding copy_in
copy_in-other zero i slot size src buf a apart = refl
copy_in-other (suc n) i slot size src buf a apart =
    copy_in-other n (i + 1) slot size src (update buf (offset slot size i) (src i)) a
      (λ i' lo hi. apart i' (omega arith) (omega arith))
    ∙ rw (apart i (omega arith) (omega arith))

ne_test : (a b : ℕ) → a ≢ b → (a == b) ≡ false
ne_test a b h = ground arith

module _ (size cap : ℕ) (fits : cap * size < 2 ^ 32) (src : ℕ → ℕ) where
  -- The slot that is written holds the bytes of the source.
  pub copy_out-copy_in :
      (n i h : ℕ) (buf : ℕ → ℕ)
      → h < cap
      → i + n ≤ size
      → copy_out n i h size (copy_in n i h size src buf) ≡ bytes_of src i n
  unfolding copy_in copy_out
  copy_out-copy_in zero i h buf b room = refl
  copy_out-copy_in (suc n) i h buf b room =
      let o = offset h size i in
      let rest = copy_out-copy_in n (i + 1) h (update buf o (src i)) b (omega arith) in
      let first = copy_in-other n (i + 1) h size src (update buf o (src i)) o (λ i' lo hi.
        ne_test o (offset h size i') (λ e. omega (
          arith,
          sym (offset_lem h size cap i fits b (omega arith))
              ∙ e
              ∙ offset_lem h size cap i' fits b (omega arith),
        ))) in
      let self : update buf o (src i) o ≡ src i = ground arith in
      ap₂ (λ x l. x ∷ l) (first ∙ self) rest

  -- The other slots stay as they were.
  pub copy_out-other :
      (n i j h : ℕ) (buf : ℕ → ℕ)
      → j < cap
      → h < cap
      → (j == h) ≡ false
      → i + n ≤ size
      → copy_out n i j size (copy_in size 0 h size src buf) ≡ copy_out n i j size buf
  unfolding copy_out
  copy_out-other zero i j h buf a b ne room = refl
  copy_out-other (suc n) i j h buf a b ne room =
      ap₂ (λ x l. x ∷ l)
        (copy_in-other size 0 h size src buf (offset j size i) (λ i' lo hi.
          ne_test (offset j size i) (offset h size i')
            (offset_ne j h size cap i i' fits a b (omega arith) (omega arith) ne)))
        (copy_out-other n (i + 1) j h buf a b ne (omega arith))

-- One step round the ring.
pub step_mod :
    (j cap : ℕ)
    → j < cap
    → cap < 2 ^ 32
    → (j + 1) % 2 ^ 32 % cap ≡ (if ltb (j + 1) cap then j + 1 else 0)
step_mod j cap h small =
    let first : (j + 1) % 2 ^ 32 ≡ j + 1 = omega arith in
    elim (Bool-cases (ltb (j + 1) cap)) [
      | inl e ↦ rw (first, e) (mod-eq_of_lt (ltb→lt (j + 1) cap e))
      | inr e ↦ let last : j + 1 ≡ cap = ground arith in rw (first, e) (rw last (grind arith))
    ]

-- An item written behind `n` others is the last of `n + 1`.
pub items_from-snoc :
    (f g : ℕ → List ℕ) (cap n j h : ℕ) (x : List ℕ)
    → h ≡ (if ltb (j + n) cap then j + n else j + n - cap)
    → j < cap
    → n < cap
    → ((a : ℕ) → a < cap → (a == h) ≡ false → g a ≡ f a)
    → g h ≡ x
    → items_from g cap j (suc n) ≡ items_from f cap j n ++ x ∷ []
items_from-snoc f g cap zero j h x at b c same new =
    let here : h ≡ j = ground arith in ap (λ l. l ∷ []) (ap g (sym here) ∙ new)
items_from-snoc f g cap (suc n) j h x at b c same new =
    let first = same j b (ground arith) in
    let rest =
      items_from-snoc f g cap n (if ltb (j + 1) cap then j + 1 else 0) h x (ground arith)
        (ground arith) (omega arith) same new in
    ap₂ (λ y l. y ∷ l) first rest

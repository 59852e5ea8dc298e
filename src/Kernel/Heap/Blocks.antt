-- ===== src/Kernel/Heap/Blocks.antt =====
-- The blocks that the allocator hands out: aligned, inside the array, and apart.
use rpitos.Prelude.{
  ℕ, ◌+◌, ◌*◌, ◌/◌, ◌%◌, ◌^◌, ◌<◌, ◌≤◌, ◌≡◌, refl, inl, inr, Option, none, some, List, [], ◌∷◌,
  arith, ltb, Bool-cases,
}
use rpitos.Kernel.Heap.{heap_size_bytes, round_up, add32, malloc, malloc_all}

-- Between calls the offset is a multiple of four inside the array.
pub record IsOffset (offset : ℕ) : Type 0 where
  pub inside : offset ≤ heap_size_bytes
  pub aligned : offset % 4 ≡ 0

-- A request whose rounding does not wrap.
abbrev pub IsRequest : ℕ → Type 0
IsRequest size = size ≤ 2 ^ 31

-- What a call does: it fails and moves nothing, exactly when the rounded block does not fit;
-- or it returns the offset as the block, which is aligned, holds the bytes asked for,
-- ends inside the array and where the next block starts.
abbrev pub Allocates : ℕ → ℕ → Option ℕ × ℕ → Type 0
Allocates size offset (none, offset') =
    (offset' ≡ offset) × (heap_size_bytes < offset + (size + 3) / 4 * 4)
Allocates size offset (some block, offset') =
    (block ≡ offset)
    × (block % 4 ≡ 0)
    × (block + size ≤ offset')
    × (offset' < block + size + 4)
    × IsOffset offset'

-- From an aligned offset inside the array and for a request of at most 2^31 bytes, heap_malloc
-- fails and moves nothing exactly when the block, rounded up to a multiple of four, does not fit;
-- otherwise the block starts at the offset, is aligned, holds the bytes asked for and at most
-- three more, and the new offset is its end, aligned and inside the array.
pub malloc-Allocates :
    (size offset : ℕ)
    → IsOffset offset
    → IsRequest size
    → Allocates size offset (malloc size offset)
unfolding malloc round_up
malloc-Allocates size offset v r =
    elim (Bool-cases (ltb heap_size_bytes (add32 offset ((size + 3) % 2 ^ 32 / 4 * 4)))) [
      | inl e ↦ rw e (refl, ground arith)
      | inr e ↦ rw e (refl, v.aligned, ground arith, ground arith, ground arith)
    ]

-- Each block of a run starts behind `low`, and behind the end of every block before it; it is
-- aligned and ends inside the array.
abbrev pub Apart : ℕ → List ℕ → List (Option ℕ) → Type 0
Apart low [] [] = Unit
Apart low [] (_ ∷ _) = ⊥
Apart low (_ ∷ _) [] = ⊥
Apart low (size ∷ sizes) (none ∷ blocks) = Apart low sizes blocks
Apart low (size ∷ sizes) (some block ∷ blocks) =
    (low ≤ block)
    × (block % 4 ≡ 0)
    × (block + size ≤ heap_size_bytes)
    × Apart (block + size) sizes blocks

abbrev pub AllRequests : List ℕ → Type 0
AllRequests [] = Unit
AllRequests (size ∷ sizes) = IsRequest size × AllRequests sizes

Apart-step :
    (low size offset : ℕ) (sizes : List ℕ) (r : Option ℕ × ℕ) (blocks : List (Option ℕ))
    → low ≤ offset
    → IsOffset offset
    → Allocates size offset r
    → ((low' : ℕ) → low' ≤ r.1 → IsOffset r.1 → Apart low' sizes blocks)
    → Apart low (size ∷ sizes) (r.0 ∷ blocks)
Apart-step low size offset sizes (none, offset') blocks h v a rest =
    rest low (omega arith) (ground arith)
Apart-step low size offset sizes (some block, offset') blocks h v a rest =
    (omega arith, a.1, omega arith, rest (block + size) a.2 a.4)

-- In a run of requests of at most 2^31 bytes each, from an aligned offset inside the array that
-- is at or behind `low`, each granted block starts behind `low` and behind the end of every
-- block before it, is aligned, and ends inside the array.
pub malloc_all-Apart :
    (sizes : List ℕ) (low offset : ℕ)
    → low ≤ offset
    → IsOffset offset
    → AllRequests sizes
    → Apart low sizes (malloc_all sizes offset).0
unfolding malloc_all
malloc_all-Apart [] low offset h v r = tt
malloc_all-Apart (size ∷ sizes) low offset h v r =
    Apart-step low size offset sizes (malloc size offset)
      (malloc_all sizes (malloc size offset).1).0 h v (malloc-Allocates size offset v r.0)
      (λ low' h' v'. malloc_all-Apart sizes low' (malloc size offset).1 h' v' r.1)

wrapped_sum :
    (size offset : ℕ)
    → IsOffset offset
    → size < 2 ^ 32
    → 2 ^ 32 ≤ offset + size + 3
    → add32 offset ((size + 3) % 2 ^ 32 / 4 * 4) ≤ offset
wrapped_sum size offset v small big = omega arith

-- A request of a 32-bit size that takes `offset + size + 3` to 2^32 or beyond is granted at the
-- offset, and the offset does not grow.
pub malloc_wraps :
    (size offset : ℕ)
    → IsOffset offset
    → size < 2 ^ 32
    → 2 ^ 32 ≤ offset + size + 3
    → ((malloc size offset).0 ≡ some offset) × ((malloc size offset).1 ≤ offset)
unfolding malloc round_up
malloc_wraps size offset v small big = ground (arith, wrapped_sum size offset v small big)

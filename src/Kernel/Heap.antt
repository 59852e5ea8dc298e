-- ===== src/Kernel/Heap.antt =====
-- The bump allocator of source/kernel/heap/heap.c. A block is the offset of its first byte in the
-- static array. The call runs with interrupts masked and under `heap_lock`, so it is one step.
pub mod Blocks
mod Tests
use rpitos.Prelude.{
  ℕ, ◌+◌, ◌-◌, ◌*◌, ◌/◌, ◌%◌, ◌^◌, Option, none, some, List, [], ◌∷◌, ltb, if◌then◌else◌,
}

abbrev pub heap_size_bytes : ℕ
heap_size_bytes = 262144

-- `(size + 3) & ~0b11` on a `uint32_t`: the sum wraps, and the low two bits are cleared.
unfoldable pub round_up : ℕ → ℕ
round_up size = (size + 3) % 2 ^ 32 / 4 * 4

-- `heap_offset + size` on `uint32_t`s.
abbrev pub add32 : ℕ → ℕ → ℕ
add32 a b = (a + b) % 2 ^ 32

-- The block, if there is room, and the new `heap_offset`.
unfoldable pub malloc : ℕ → ℕ → Option ℕ × ℕ
unfolding round_up
malloc size heap_offset =
    if ltb heap_size_bytes (add32 heap_offset (round_up size))
    then (none, heap_offset)
    else (some heap_offset, add32 heap_offset (round_up size))

-- The calls of a whole run, in order, with the blocks that they return.
unfoldable pub malloc_all : List ℕ → ℕ → List (Option ℕ) × ℕ
malloc_all [] heap_offset = ([], heap_offset)
malloc_all (size ∷ sizes) heap_offset =
    let (block, offset') = malloc size heap_offset in
    let (blocks, offset'') = malloc_all sizes offset' in (block ∷ blocks, offset'')

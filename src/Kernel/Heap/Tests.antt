-- ===== src/Kernel/Heap/Tests.antt =====
-- The allocator at concrete requests.
use rpitos.Prelude.{◌≤◌, ◌≡◌, refl, some, [], ◌∷◌, arith}
use rpitos.Kernel.Heap.{malloc, malloc_all}
use rpitos.Kernel.Heap.Blocks.{Allocates, Apart, malloc-Allocates, malloc_all-Apart, malloc_wraps}

-- A request of five bytes takes eight.
malloc_five : malloc 5 16 ≡ (some 16, 24)
unfolding malloc
malloc_five = refl

malloc-Allocates_example : Allocates 5 16 (malloc 5 16)
malloc-Allocates_example = malloc-Allocates 5 16 (omega arith) (omega arith)

malloc_all-Apart_example : Apart 0 (5 ∷ 262144 ∷ 8 ∷ []) (malloc_all (5 ∷ 262144 ∷ 8 ∷ []) 0).0
malloc_all-Apart_example =
    malloc_all-Apart (5 ∷ 262144 ∷ 8 ∷ []) 0 0 (omega arith) (omega arith) (omega arith)

malloc_wraps_example : ((malloc 0xFFFFFFFF 16).0 ≡ some 16) × ((malloc 0xFFFFFFFF 16).1 ≤ 16)
malloc_wraps_example = malloc_wraps 0xFFFFFFFF 16 (omega arith) (omega arith) (omega arith)

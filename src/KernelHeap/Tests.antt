-- ===== src/KernelHeap/Tests.antt =====
-- Runs of a heap of one page.
use k_panic.Base.{ℕ, ◌≡◌, refl, true, false, none, some, [], ◌∷◌, arith, ◌⊎◌}
use k_panic.KernelHeap.{KernelMemoryManager, align, allocate_memory, free_memory}
use k_panic.KernelHeap.Allocate.{IsHeap, HasRoom, Allocated, allocate_memory-Allocated}
use k_panic.KernelHeap.Free.{Freed, free_memory-Freed}
use k_panic.KernelHeap.Last.{free_memory_frees}
use k_panic.KernelHeap.Tiles.{in_use}

-- A block of 112 bytes in use, a free one of 56, and one in use.
abbrev heap : KernelMemoryManager
heap = record {
  segments =
      record { start = 4096; size = 112; used = true }
      ∷ record { start = 4264; size = 56; used = false }
      ∷ record { start = 4376; size = 3760; used = true }
      ∷ [];
  base_break = 4096;
  kernel_break = 8192;
  reserved_min = 4096;
}

heap-IsHeap : IsHeap heap
heap-IsHeap = record { tiles = (refl, (refl, (refl, refl))); small = omega arith; reserved = refl }

allocate_memory-Allocated_example :
    ((allocate_memory heap 40 ≡ none) × ¬ HasRoom (align 40) heap.segments)
    ⊎ ((p : ℕ) × (m' : KernelMemoryManager) × (allocate_memory heap 40 ≡ some (p, m'))
        × Allocated heap 40 p m')
allocate_memory-Allocated_example = allocate_memory-Allocated heap 40 heap-IsHeap (omega arith)

-- The last block is after_free with the free one before it.
abbrev after_free : KernelMemoryManager
after_free = record heap {
  segments =
      record { start = 4096; size = 112; used = true }
      ∷ record { start = 4264; size = 3872; used = false }
      ∷ [];
}

joins : free_memory heap 4432 ≡ some (true, after_free)
unfolding free_memory
joins = refl

free_memory-Freed_example :
    IsHeap after_free × Freed 8192 4096 4432 heap.segments after_free.segments
free_memory-Freed_example = free_memory-Freed heap 4432 after_free heap-IsHeap joins

after_free-IsHeap : IsHeap after_free
after_free-IsHeap = record { tiles = (refl, (refl, refl)); small = omega arith; reserved = refl }

free_memory_frees_example : (m' : KernelMemoryManager) × (free_memory heap 4432 ≡ some (true, m'))
free_memory_frees_example =
    free_memory_frees heap 4432 3760 4152 112 heap-IsHeap (unfold in_use in refl) (omega arith)
      (unfold in_use in refl) (omega arith)

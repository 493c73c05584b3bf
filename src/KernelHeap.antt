-- ===== src/KernelHeap.antt =====
-- The kernel's heap: common/source/mm/KernelMemoryManager.cpp with DYNAMIC_KMM 0, as
-- common/include/mm/PageManager.h sets it. The segments stand in a list in the order of their
-- addresses, which is the order of `next_`; `prev_` is the one before. A call of `ksbrk` is a failed
-- assertion, `none` here. The bytes of the blocks, the addresses kept for tracing, and
-- `reallocateMemory` are not modelled.
pub mod Tiles
pub mod Allocate
pub mod Free
pub mod Last
mod Tests
use k_panic.Base.{
  ℕ, zero, suc, ◌+◌, ◌-◌, ◌*◌, ◌/◌, ◌%◌, ◌^◌, ◌==◌, Bool, true, false, ◌&&◌, ◌||◌, not, Option,
  none, some, List, [], ◌∷◌, ltb, leb, if◌then◌else◌,
}

-- `sizeof(MallocSegment)`: seven words
abbrev pub header : ℕ
header = 56

-- `start` is the address of the header; the block begins behind it.
pub record MallocSegment : Type 0 where
  pub start : ℕ
  pub size : ℕ
  pub used : Bool

-- `reserved_min_` bytes from `base_break_` to `kernel_break_`.
pub record KernelMemoryManager : Type 0 where
  pub segments : List MallocSegment
  pub base_break : ℕ
  pub kernel_break : ℕ
  pub reserved_min : ℕ

-- The constructor; the pages have 4096 bytes. `max_heap_pages` only bounds `ksbrk`.
pub create : ℕ → ℕ → KernelMemoryManager
create start_address min_heap_pages = record {
  segments =
      record {
        start = start_address;
        size = (min_heap_pages * 4096 - header) % 2 ^ 31;
        used = false;
      }
      ∷ [];
  base_break = start_address;
  kernel_break = start_address + min_heap_pages * 4096;
  reserved_min = min_heap_pages * 4096;
}

-- `fillSegment`: the segment is used from now on; a free one goes behind it if there is room.
pub fill_segment : MallocSegment → ℕ → List MallocSegment → List MallocSegment
fill_segment s requested_size l =
    let space_left = s.size - requested_size in
    if ltb header space_left
    then record s { size = requested_size % 2 ^ 31; used = true }
      ∷ record {
        start = s.start + header + requested_size;
        size = (space_left - header) % 2 ^ 31;
        used = false;
      }
      ∷ l
    else record s { used = true } ∷ l

-- `findFreeSegment`, the first that fits, with the `fillSegment` that follows; the result is the
-- address of the block.
pub find_and_fill : ℕ → List MallocSegment → Option (ℕ × List MallocSegment)
unfolding fill_segment
find_and_fill requested_size [] = none
find_and_fill requested_size (s ∷ l) =
    let rest = find_and_fill requested_size l in
    if leb requested_size s.size && not s.used
    then some (s.start + header, fill_segment s requested_size l)
    else elim rest [ none ↦ none | some (p, l') ↦ some (p, s ∷ l') ]

-- The alignment to 16 bytes, in 64 bits.
pub align : ℕ → ℕ
align requested_size = (requested_size + 15) % 2 ^ 64 / 16 * 16

-- `allocateMemory` and `private_AllocateMemory`; the first test is that of the bit 0x80000000.
pub allocate_memory : KernelMemoryManager → ℕ → Option (ℕ × KernelMemoryManager)
unfolding align find_and_fill
allocate_memory m requested_size =
    if requested_size / 2 ^ 31 % 2 == 1
    then none
    else elim (find_and_fill (align requested_size) m.segments) [
      | none ↦ none
      | some (p, l) ↦ some (p, record m { segments = l })
    ]

-- Where the segment behind ends: the next one's address, or the break.
pub next_start : ℕ → List MallocSegment → ℕ
next_start kernel_break [] = kernel_break
next_start kernel_break (t ∷ l) = t.start

-- The end of `freeSegment`: nothing is to be done if segments follow, or if the last one ends within
-- the reserved part; all else is `ksbrk`.
pub settle :
    KernelMemoryManager → Bool → MallocSegment → List MallocSegment → Option (List MallocSegment)
settle m is_first s [] =
    if is_first
    then if s.size == m.reserved_min then some (s ∷ []) else none
    else if leb (s.start + header + s.size) (m.base_break + m.reserved_min)
    then some (s ∷ [])
    else none
settle m is_first s (t ∷ l) = some (s ∷ t ∷ l)

-- `mergeWithFollowingFreeSegment`, and the end of `freeSegment` on what it leaves.
pub merge_following :
    KernelMemoryManager → Bool → MallocSegment → List MallocSegment → Option (List MallocSegment)
unfolding settle next_start
merge_following m is_first s [] = settle m is_first s []
merge_following m is_first s (t ∷ l) =
    if t.used
    then settle m is_first s (t ∷ l)
    else settle m is_first
        (record s { size = (s.size + (next_start m.kernel_break l - t.start)) % 2 ^ 31 }) l

-- `freeSegment` on the block at `address`, which is searched behind the segment `p`.
pub free_behind :
    KernelMemoryManager
    → ℕ
    → Bool
    → MallocSegment
    → List MallocSegment
    → Option (List MallocSegment)
unfolding merge_following
free_behind m address is_first p [] = none
free_behind m address is_first p (s ∷ l) =
    let rest = free_behind m address false s l in
    let alone = merge_following m false (record s { used = false }) l in
    let joined =
      merge_following m is_first
        (record p { size = (next_start m.kernel_break l - s.start + p.size) % 2 ^ 31 }) l in
    if s.start + header == address
    then if not s.used
      then none
      else if p.used
      then elim alone [ none ↦ none | some l' ↦ some (p ∷ l') ]
      else joined
    else elim rest [ none ↦ none | some l' ↦ some (p ∷ l') ]

-- `freeSegment`, with the search for the segment of an address: an address that is no block's has no
-- marker in front of it.
pub free_segment : KernelMemoryManager → ℕ → List MallocSegment → Option (List MallocSegment)
unfolding merge_following free_behind
free_segment m address [] = none
free_segment m address (s ∷ l) =
    let here = merge_following m true (record s { used = false }) l in
    let behind = free_behind m address true s l in
    if s.start + header == address then if s.used then here else none else behind

-- `freeMemory`: false for an address out of the heap.
pub free_memory : KernelMemoryManager → ℕ → Option (Bool × KernelMemoryManager)
unfolding free_segment
free_memory m address =
    if address == 0 || ltb address m.base_break || leb m.kernel_break address
    then some (false, m)
    else elim (free_segment m address m.segments) [
      | none ↦ none
      | some l ↦ some (true, record m { segments = l })
    ]

-- ===== src/KernelHeap/Free.antt =====
-- `freeMemory`: the block is free again, alone or joined with its neighbours.
use mathlib.Core.Path.{subst}
use native.Mathlib.Nat.{mod-eq_of_lt}
use k_panic.Base.{
  ℕ, ◌+◌, ◌-◌, ◌%◌, ◌^◌, ◌<◌, ◌==◌, ◌≡◌, refl, sym, ◌∙◌, ◌≢◌, Bool, true, false, none, some, List,
  [], ◌∷◌, if◌then◌else◌, arith, Option-cases, Bool-cases, inl, inr, ℕ_discrete,
}
use k_panic.KernelHeap.{
  MallocSegment, KernelMemoryManager, header, next_start, settle, merge_following, free_behind,
  free_segment, free_memory,
}
use k_panic.KernelHeap.Tiles.{Tiles, in_use, Tiles-le, in_use-below, elim_some}
use k_panic.KernelHeap.Allocate.{IsHeap}

-- The block at `a` was in use and is not any more; all others are as before.
pub record Freed (brk at a : ℕ) (l l' : List MallocSegment) : Type 0 where
  pub tiles : Tiles brk at l'
  pub was : in_use l a ≢ none
  pub uses : (b : ℕ) → in_use l' b ≡ (if b == a then none else in_use l b)

-- The same blocks are in use.
record Same (brk at : ℕ) (l l' : List MallocSegment) : Type 0 where
  tiles : Tiles brk at l'
  uses : (b : ℕ) → in_use l' b ≡ in_use l b

pub next_start-Tiles :
    (brk at : ℕ) (l : List MallocSegment) → Tiles brk at l → next_start brk l ≡ at
unfolding next_start
next_start-Tiles brk at [] h = sym h
next_start-Tiles brk at (t ∷ l) (e, h) = e

settle-same :
    (m : KernelMemoryManager) (first : Bool) (s : MallocSegment) (l l' : List MallocSegment)
    → settle m first s l ≡ some l'
    → s ∷ l ≡ l'
unfolding settle
settle-same m first s [] l' e = ground arith
settle-same m first s (t ∷ l) l' e = ground arith

-- Two segments side by side as one, which is free.
join-Tiles :
    (brk at size : ℕ) (s t : MallocSegment) (l : List MallocSegment)
    → Tiles brk at (s ∷ t ∷ l)
    → size ≡ s.size + header + t.size
    → Tiles brk at (record s { size = size } ∷ l)
join-Tiles brk at size s t l (e, (f, h)) g = (e, subst (λ k. Tiles brk k l) (omega arith) h)

merge_following-Same :
    (m : KernelMemoryManager) (at : ℕ) (first : Bool) (s : MallocSegment)
    (l l' : List MallocSegment)
    → m.kernel_break < at + 2 ^ 31
    → s.used ≡ false
    → Tiles m.kernel_break at (s ∷ l)
    → merge_following m first s l ≡ some l'
    → Same m.kernel_break at (s ∷ l) l'
unfolding merge_following in_use
merge_following-Same m at first s [] l' small free h e =
    subst (Same m.kernel_break at (s ∷ [])) (settle-same m first s [] l' e)
      (record { tiles = h; uses = λ b. refl })
merge_following-Same m at first s (t ∷ l) l' small free (es, (et, h)) e = elim (Bool-cases t.used) [
  | inl busy ↦
      subst (Same m.kernel_break at (s ∷ t ∷ l)) (settle-same m first s (t ∷ l) l' (ground arith))
        (record { tiles = (es, (et, h)); uses = λ b. refl })
  | inr idle ↦
      let end = Tiles-le m.kernel_break (at + header + s.size + header + t.size) l h in
      let next = next_start-Tiles m.kernel_break (at + header + s.size + header + t.size) l h in
      let size = (s.size + (next_start m.kernel_break l - t.start)) % 2 ^ 31 in
      let total : size ≡ s.size + header + t.size =
        mod-eq_of_lt {n = s.size + (next_start m.kernel_break l - t.start)} (omega arith)
        ∙ omega arith in
      subst (Same m.kernel_break at (s ∷ t ∷ l))
        (settle-same m first (record s { size = size }) l l' (ground arith))
        (record {
          tiles = join-Tiles m.kernel_break at size s t l (es, (et, h)) total;
          uses = λ b. ground arith;
        })
]

Freed-cons :
    (brk at a : ℕ) (s : MallocSegment) (l l' : List MallocSegment)
    → s.start ≡ at
    → s.start + header ≢ a
    → Freed brk (at + header + s.size) a l l'
    → Freed brk at a (s ∷ l) (s ∷ l')
unfolding in_use
Freed-cons brk at a s l l' e ne f = record {
  tiles = (e, f.tiles);
  was = ground (arith, f.was);
  uses = λ b. ground (arith, f.uses b);
}

-- The segment itself becomes free.
Freed-here :
    (brk at a : ℕ) (s : MallocSegment) (l l' : List MallocSegment)
    → Tiles brk at (s ∷ l)
    → s.start + header ≡ a
    → s.used ≡ true
    → Same brk at (record s { used = false } ∷ l) l'
    → Freed brk at a (s ∷ l) l'
unfolding in_use
Freed-here brk at a s l l' (e, h) here busy f =
    let below = in_use-below brk (at + header + s.size) l a h (omega arith) in
    record { tiles = f.tiles; was = ground arith; uses = λ b. ground (arith, f.uses b, below) }

-- The segment becomes part of the free one before it.
Freed-joined :
    (brk at a size : ℕ) (p s : MallocSegment) (l l' : List MallocSegment)
    → Tiles brk at (p ∷ s ∷ l)
    → s.start + header ≡ a
    → s.used ≡ true
    → p.used ≡ false
    → Same brk at (record p { size = size } ∷ l) l'
    → Freed brk at a (p ∷ s ∷ l) l'
unfolding in_use
Freed-joined brk at a size p s l l' (ep, (es, h)) here busy idle f =
    let below = in_use-below brk (at + header + p.size + header + s.size) l a h (omega arith) in
    record { tiles = f.tiles; was = ground arith; uses = λ b. ground (arith, f.uses b, below) }

module _ (m : KernelMemoryManager) (a : ℕ) where
  free_behind_alone :
      (first : Bool) (p s : MallocSegment) (l l' : List MallocSegment)
      → s.start + header ≡ a
      → p.used ≡ true
      → free_behind m a first p (s ∷ l) ≡ some l'
      → (s.used ≡ true)
        × ((r : List MallocSegment) × (merge_following m false (record s { used = false }) l
              ≡ some r)
            × (p ∷ r ≡ l'))
  unfolding free_behind
  free_behind_alone first p s l l' here busy e = (
    ground arith,
    elim_some (merge_following m false (record s { used = false }) l) (λ r. p ∷ r) (ground arith),
  )

  free_behind_joined :
      (first : Bool) (p s : MallocSegment) (l l' : List MallocSegment)
      → s.start + header ≡ a
      → p.used ≡ false
      → free_behind m a first p (s ∷ l) ≡ some l'
      → (s.used ≡ true)
        × (merge_following m first
              (record p { size = (next_start m.kernel_break l - s.start + p.size) % 2 ^ 31 })
              l
            ≡ some l')
  unfolding free_behind
  free_behind_joined first p s l l' here busy e = (ground arith, ground arith)

  free_behind_further :
      (first : Bool) (p s : MallocSegment) (l l' : List MallocSegment)
      → s.start + header ≢ a
      → free_behind m a first p (s ∷ l) ≡ some l'
      → (r : List MallocSegment) × (free_behind m a false s l ≡ some r) × (p ∷ r ≡ l')
  unfolding free_behind
  free_behind_further first p s l l' further e =
      elim_some (free_behind m a false s l) (λ r. p ∷ r) (ground arith)

  free_behind-Freed :
      (at : ℕ) (first : Bool) (p : MallocSegment) (l l' : List MallocSegment)
      → m.kernel_break < at + 2 ^ 31
      → Tiles m.kernel_break at (p ∷ l)
      → p.start + header ≢ a
      → free_behind m a first p l ≡ some l'
      → Freed m.kernel_break at a (p ∷ l) l'
  unfolding free_behind
  free_behind-Freed at first p [] l' small h ne e = absurd cc
  free_behind-Freed at first p (s ∷ l) l' small (ep, (es, h)) ne e =
      let brk = m.kernel_break in
      let behind = at + header + p.size in
      elim (ℕ_discrete (s.start + header) a) [
        | no further ↦
            let (r, f, same) = free_behind_further first p s l l' further e in
            subst (Freed brk at a (p ∷ s ∷ l)) same (
              Freed-cons brk at a p (s ∷ l) r ep ne
                (free_behind-Freed behind false s l r (omega arith) (es, h) further f))
        | yes here ↦ elim (Bool-cases p.used) [
          | inl busy ↦
              let (used, (r, f, same)) = free_behind_alone first p s l l' here busy e in
              subst (Freed brk at a (p ∷ s ∷ l)) same (
                Freed-cons brk at a p (s ∷ l) r ep ne (
                  Freed-here brk behind a s l r (es, h) here used
                    (merge_following-Same m behind false (record s { used = false }) l r
                      (omega arith) refl (es, h) f)))
          | inr idle ↦
              let (used, f) = free_behind_joined first p s l l' here idle e in
              let size = (next_start brk l - s.start + p.size) % 2 ^ 31 in
              let end = Tiles-le brk (behind + header + s.size) l h in
              let next = next_start-Tiles brk (behind + header + s.size) l h in
              let total : size ≡ p.size + header + s.size =
                mod-eq_of_lt {n = next_start brk l - s.start + p.size} (omega arith)
                ∙ omega arith in
              Freed-joined brk at a size p s l l' (ep, (es, h)) here used idle
                (merge_following-Same m at first (record p { size = size }) l l' small idle
                  (join-Tiles brk at size p s l (ep, (es, h)) total) f)
        ]
      ]

free_segment-Freed :
    (m : KernelMemoryManager) (a : ℕ) (l l' : List MallocSegment) (at : ℕ)
    → m.kernel_break < at + 2 ^ 31
    → Tiles m.kernel_break at l
    → free_segment m a l ≡ some l'
    → Freed m.kernel_break at a l l'
unfolding free_segment
free_segment-Freed m a [] l' at small h e = absurd cc
free_segment-Freed m a (s ∷ l) l' at small (es, h) e = elim (ℕ_discrete (s.start + header) a) [
  | yes here ↦
      Freed-here m.kernel_break at a s l l' (es, h) here (ground arith)
        (merge_following-Same m at true (record s { used = false }) l l' small refl (es, h)
          (ground arith))
  | no further ↦ free_behind-Freed m a at true s l l' small (es, h) further (ground arith)
]

free_memory_freed :
    (m : KernelMemoryManager) (a : ℕ) (m' : KernelMemoryManager)
    → free_memory m a ≡ some (true, m')
    → (l : List MallocSegment) × (free_segment m a m.segments ≡ some l)
      × (record m { segments = l } ≡ m')
unfolding free_memory
free_memory_freed m a m' e = elim (Option-cases (free_segment m a m.segments)) [
  | inl f ↦ absurd (ground arith)
  | inr (l, f) ↦ (l, f, ground arith)
]

-- `freeMemory` on a heap as its operations leave it that returns true has freed a block that was in
-- use: it is not in use any more, all other blocks in use stay as they are, whether the block was
-- joined with a neighbour or not, and the segments still lie side by side and fill the heap.
pub free_memory-Freed :
    (m : KernelMemoryManager) (a : ℕ) (m' : KernelMemoryManager)
    → IsHeap m
    → free_memory m a ≡ some (true, m')
    → IsHeap m' × Freed m.kernel_break m.base_break a m.segments m'.segments
free_memory-Freed m a m' v e =
    let (l, f, same) = free_memory_freed m a m' e in
    let freed = free_segment-Freed m a m.segments l m.base_break v.small v.tiles f in
    subst
      (λ (x : KernelMemoryManager).
        IsHeap x × Freed m.kernel_break m.base_break a m.segments x.segments)
      same (record { tiles = freed.tiles; small = v.small; reserved = v.reserved }, freed)

-- ===== src/KernelHeap/Last.antt =====
-- When `freeMemory` frees, and when its last step fails.
use mathlib.Core.Path.{subst}
use native.Mathlib.Nat.{mod-eq_of_lt}
use k_panic.Base.{
  ℕ, ◌+◌, ◌-◌, ◌%◌, ◌^◌, ◌≤◌, ◌<◌, ◌==◌, ◌≡◌, refl, sym, ap, ◌∙◌, ◌≢◌, Bool, true, false, ◌&&◌,
  none, some, List, [], ◌∷◌, arith, Option-cases, Bool-cases, inl, inr, ◌⊎◌, ℕ_discrete,
}
use k_panic.KernelHeap.{
  MallocSegment, KernelMemoryManager, header, next_start, settle, merge_following, free_behind,
  free_segment, free_memory,
}
use k_panic.KernelHeap.Tiles.{Tiles, in_use, Tiles-le, in_use-below}
use k_panic.KernelHeap.Allocate.{IsHeap}
use k_panic.KernelHeap.Free.{next_start-Tiles}

free_only :
    (m : KernelMemoryManager) (s : MallocSegment)
    → m.kernel_break ≡ m.base_break + m.reserved_min
    → Tiles m.kernel_break m.base_break (s ∷ [])
    → s.used ≡ true
    → free_segment m (s.start + header) (s ∷ []) ≡ none
unfolding free_segment merge_following settle
free_only m s r h busy = ground arith

free_two :
    (m : KernelMemoryManager) (s t : MallocSegment)
    → m.kernel_break ≡ m.base_break + m.reserved_min
    → m.kernel_break < m.base_break + 2 ^ 31
    → Tiles m.kernel_break m.base_break (s ∷ t ∷ [])
    → s.used ≡ true
    → t.used ≡ false
    → free_segment m (s.start + header) (s ∷ t ∷ []) ≡ none
unfolding free_segment merge_following settle next_start
free_two m s t r small (es, (et, h)) busy idle =
    let total : (s.size + (m.kernel_break - t.start)) % 2 ^ 31 ≡ s.size + header + t.size =
      mod-eq_of_lt {n = s.size + (m.kernel_break - t.start)} (omega arith) ∙ omega arith in
    ground (arith, total)

free_memory-none :
    (m : KernelMemoryManager) (a : ℕ) (l : List MallocSegment)
    → m.segments ≡ l
    → 0 < a
    → m.base_break ≤ a
    → a < m.kernel_break
    → free_segment m a l ≡ none
    → free_memory m a ≡ none
unfolding free_memory
free_memory-none m a l e h1 h2 h3 f = ground (arith, ap (free_segment m a) e)

-- The last block in use cannot be freed: if a heap as its operations leave it, not at address 0, is
-- one block in use of at least one byte, with nothing or one free segment behind it, then freeing
-- that block would leave a single free segment, and the code asks to give memory back, which is a
-- failed assertion.
pub free_memory_last :
    (m : KernelMemoryManager) (s : MallocSegment) (l : List MallocSegment)
    → IsHeap m
    → m.segments ≡ s ∷ l
    → s.used ≡ true
    → 0 < s.size
    → 0 < m.base_break
    → (l ≡ []) ⊎ ((t : MallocSegment) × (l ≡ t ∷ []) × (t.used ≡ false))
    → free_memory m (s.start + header) ≡ none
free_memory_last m s l v e busy pos up (inl only) =
    let tiles : Tiles m.kernel_break m.base_break (s ∷ []) =
      subst (Tiles m.kernel_break m.base_break) (e ∙ ap (λ k. s ∷ k) only) v.tiles in
    free_memory-none m (s.start + header) (s ∷ []) (e ∙ ap (λ k. s ∷ k) only) (omega arith)
      (omega arith) (omega arith) (free_only m s v.reserved tiles busy)
free_memory_last m s l v e busy pos up (inr (t, two, idle)) =
    let tiles : Tiles m.kernel_break m.base_break (s ∷ t ∷ []) =
      subst (Tiles m.kernel_break m.base_break) (e ∙ ap (λ k. s ∷ k) two) v.tiles in
    free_memory-none m (s.start + header) (s ∷ t ∷ []) (e ∙ ap (λ k. s ∷ k) two) (omega arith)
      (omega arith) (omega arith) (free_two m s t v.reserved v.small tiles busy idle)

module _ (m : KernelMemoryManager) (reserved : m.kernel_break ≡ m.base_break + m.reserved_min) where
  settle-none :
      (at : ℕ) (first : Bool) (s : MallocSegment) (l : List MallocSegment)
      → Tiles m.kernel_break at (s ∷ l)
      → settle m first s l ≡ none
      → (first ≡ true) × (l ≡ [])
  unfolding settle
  settle-none at true s [] h e = (refl, refl)
  settle-none at false s [] (es, h) e = absurd (ground arith)
  settle-none at first s (t ∷ l) h e = absurd cc

  merge_none :
      (at : ℕ) (first : Bool) (s : MallocSegment) (l : List MallocSegment)
      → Tiles m.kernel_break at (s ∷ l)
      → m.kernel_break < at + 2 ^ 31
      → merge_following m first s l ≡ none
      → (first ≡ true) × ((b : ℕ) → in_use l b ≡ none)
  unfolding merge_following in_use
  merge_none at first s [] h small e = ((settle-none at first s [] h e).0, (λ b. refl))
  merge_none at first s (t ∷ l) (es, (et, h)) small e = elim (Bool-cases t.used) [
    | inl busy ↦
        let (_, f) = settle-none at first s (t ∷ l) (es, (et, h)) (ground arith) in absurd cc
    | inr idle ↦
        let brk = m.kernel_break in
        let behind = at + header + s.size + header + t.size in
        let size = (s.size + (next_start brk l - t.start)) % 2 ^ 31 in
        let end = Tiles-le brk behind l h in
        let next = next_start-Tiles brk behind l h in
        let total : size ≡ s.size + header + t.size =
          mod-eq_of_lt {n = s.size + (next_start brk l - t.start)} (omega arith) ∙ omega arith in
        let (f, only) =
          settle-none at first (record s { size = size }) l
            (es, subst (λ k. Tiles brk k l) (omega arith) h) (ground arith) in
        (f, (λ b. subst (λ k. in_use (t ∷ k) b ≡ none) (sym only) (ground arith)))
  ]

  module _ (a : ℕ) where
    behind_none :
        (at : ℕ) (first : Bool) (p : MallocSegment) (l : List MallocSegment)
        → Tiles m.kernel_break at (p ∷ l)
        → m.kernel_break < at + 2 ^ 31
        → free_behind m a first p l ≡ none
        → in_use l a ≢ none
        → (first ≡ true) × (p.used ≡ false) × ((b : ℕ) → b ≢ a → in_use l b ≡ none)
    unfolding free_behind in_use
    behind_none at first p [] h small e used = absurd (used refl)
    behind_none at first p (s ∷ l) (ep, (es, h)) small e used =
        let brk = m.kernel_break in
        let behind = at + header + p.size in
        let end = Tiles-le brk (behind + header + s.size) l h in
        elim (ℕ_discrete (s.start + header) a) [
          | no further ↦
              let (f, _, _) =
                behind_none behind false s l (es, h) (omega arith) (ground arith) (ground arith) in
              absurd cc
          | yes here ↦
              let below = in_use-below brk (behind + header + s.size) l a h (omega arith) in
              let taken : s.used ≡ true = ground arith in
              elim (Bool-cases p.used) [
                | inl busy ↦
                    let (f, _) =
                      merge_none behind false (record s { used = false }) l (es, h) (omega arith)
                        (ground arith) in
                    absurd cc
                | inr idle ↦
                    let size = (next_start brk l - s.start + p.size) % 2 ^ 31 in
                    let next = next_start-Tiles brk (behind + header + s.size) l h in
                    let total : size ≡ p.size + header + s.size =
                      mod-eq_of_lt {n = next_start brk l - s.start + p.size} (omega arith)
                      ∙ omega arith in
                    let (f, g) =
                      merge_none at first (record p { size = size }) l
                        (ep, subst (λ k. Tiles brk k l) (omega arith) h) small (ground arith) in
                    (f, idle, (λ b ne. ground (arith, g b)))
              ]
        ]

    segment_none :
        (at : ℕ) (l : List MallocSegment)
        → Tiles m.kernel_break at l
        → m.kernel_break < at + 2 ^ 31
        → free_segment m a l ≡ none
        → in_use l a ≢ none
        → (b : ℕ) → b ≢ a
        → in_use l b ≡ none
    unfolding free_segment in_use
    segment_none at [] h small e used b ne = refl
    segment_none at (s ∷ l) (es, h) small e used b ne =
        let end = Tiles-le m.kernel_break (at + header + s.size) l h in
        elim (ℕ_discrete (s.start + header) a) [
          | yes here ↦
              let below = in_use-below m.kernel_break (at + header + s.size) l a h (omega arith) in
              let (f, g) =
                merge_none at true (record s { used = false }) l (es, h) small (ground arith) in
              ground (arith, g b)
          | no further ↦
              let (f, idle, g) =
                behind_none at true s l (es, h) small (ground arith) (ground arith) in
              ground (arith, g b)
        ]

in_use-inside :
    (brk at : ℕ) (l : List MallocSegment) (a size : ℕ)
    → Tiles brk at l
    → in_use l a ≡ some size
    → (at + header ≤ a) × (a + size ≤ brk)
unfolding in_use
in_use-inside brk at [] a size h e = absurd cc
in_use-inside brk at (s ∷ l) a size (es, h) e =
    let end = Tiles-le brk (at + header + s.size) l h in
    elim (Bool-cases ((s.start + header == a) && s.used)) [
      | inl here ↦ ground arith
      | inr further ↦
          let i = in_use-inside brk (at + header + s.size) l a size h (ground arith) in omega arith
    ]

free_memory-some :
    (m : KernelMemoryManager) (a : ℕ) (l : List MallocSegment)
    → 0 < a
    → m.base_break ≤ a
    → a < m.kernel_break
    → free_segment m a m.segments ≡ some l
    → free_memory m a ≡ some (true, record m { segments = l })
unfolding free_memory
free_memory-some m a l h1 h2 h3 f = ground arith

-- Freeing works as long as it is not the last block: on a heap as its operations leave it,
-- `freeMemory` of a block in use that holds at least one byte returns true, if another block is in
-- use too.
pub free_memory_frees :
    (m : KernelMemoryManager) (a size b other : ℕ)
    → IsHeap m
    → in_use m.segments a ≡ some size
    → 0 < size
    → in_use m.segments b ≡ some other
    → b ≢ a
    → (m' : KernelMemoryManager) × (free_memory m a ≡ some (true, m'))
free_memory_frees m a size b other v used pos still ne =
    let (low, high) = in_use-inside m.kernel_break m.base_break m.segments a size v.tiles used in
    elim (Option-cases (free_segment m a m.segments)) [
      | inl f ↦
          let g =
            segment_none m v.reserved a m.base_break m.segments v.tiles v.small f (λ n. cc) b ne in
          absurd cc
      | inr (l, f) ↦ (
        record m { segments = l },
        free_memory-some m a l (omega arith) (omega arith) (omega arith) f,
      )
    ]

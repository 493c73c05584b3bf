-- ===== src/KernelHeap/Allocate.antt =====
-- `allocateMemory`: a block that no other one overlaps.
use k_panic.Base.{
  ℕ, sym, ◌⊎◌, inl, inr, ◌∙◌, ◌+◌, ◌-◌, ◌/◌, ◌%◌, ◌^◌, ◌≤◌, ◌<◌, ◌==◌, ◌≡◌, true, false, ◌&&◌, not,
  none, some, List, [], ◌∷◌, ltb, leb, if◌then◌else◌, arith, Option-cases, Bool-cases, inl, inr,
}
use mathlib.Core.Path.{subst}
use native.Mathlib.Nat.{mod-eq_of_lt}
use k_panic.KernelHeap.{
  MallocSegment, KernelMemoryManager, header, fill_segment, find_and_fill, align, allocate_memory,
}
use k_panic.KernelHeap.Tiles.{elim_some, Tiles, in_use, Tiles-le, in_use-below}

-- What an allocation of `n` bytes at `p` does to the list.
pub record Filled (brk at n p : ℕ) (l l' : List MallocSegment) : Type 0 where
  pub tiles : Tiles brk at l'
  pub lower : at + header ≤ p
  pub fresh : in_use l p ≡ none
  pub size : ℕ
  pub enough : n ≤ size
  pub inside : p + size ≤ brk
  pub uses : (a : ℕ) → in_use l' a ≡ (if a == p then some size else in_use l a)

fill_segment-Filled :
    (brk at n : ℕ) (s : MallocSegment) (l : List MallocSegment)
    → brk < at + 2 ^ 31
    → Tiles brk at (s ∷ l)
    → n ≤ s.size
    → s.used ≡ false
    → Filled brk at n (s.start + header) (s ∷ l) (fill_segment s n l)
unfolding fill_segment in_use
fill_segment-Filled brk at n s l small (e, h) fits free =
    let end = Tiles-le brk (at + header + s.size) l h in
    let below = in_use-below brk (at + header + s.size) l (s.start + header) h (omega arith) in
    elim (Bool-cases (ltb header (s.size - n))) [
      | inl big ↦
          let same : n % 2 ^ 31 ≡ n = mod-eq_of_lt (omega arith) in
          let left : (s.size - n - header) % 2 ^ 31 ≡ s.size - n - header =
            mod-eq_of_lt (omega arith) in
          rw (big, same, left)
            (record {
              tiles = (e, (omega arith, subst (λ k. Tiles brk k l) (ground arith) h));
              lower = omega arith;
              fresh = ground (arith, below);
              size = n;
              enough = omega arith;
              inside = omega arith;
              uses = λ a. ground arith;
            })
      | inr tight ↦ rw tight (record {
        tiles = (e, h);
        lower = omega arith;
        fresh = ground (arith, below);
        size = s.size;
        enough = fits;
        inside = omega arith;
        uses = λ a. ground arith;
      })
    ]

-- One segment more in front.
Filled-cons :
    (brk at n p : ℕ) (s : MallocSegment) (l l' : List MallocSegment)
    → s.start ≡ at
    → Filled brk (at + header + s.size) n p l l'
    → Filled brk at n p (s ∷ l) (s ∷ l')
unfolding in_use
Filled-cons brk at n p s l l' e f = record {
  tiles = (e, f.tiles);
  lower = omega (arith, f.lower);
  fresh = ground (arith, f.fresh, f.lower);
  size = f.size;
  enough = f.enough;
  inside = f.inside;
  uses = λ a. ground (arith, f.uses a, f.lower);
}

find_and_fill_here :
    (n : ℕ) (s : MallocSegment) (l : List MallocSegment)
    → (leb n s.size && not s.used) ≡ true
    → find_and_fill n (s ∷ l) ≡ some (s.start + header, fill_segment s n l)
unfolding find_and_fill
find_and_fill_here n s l h = rw h

find_and_fill_next :
    (n : ℕ) (s : MallocSegment) (l : List MallocSegment)
    → (leb n s.size && not s.used) ≡ false
    → find_and_fill n (s ∷ l)
      ≡ elim (find_and_fill n l) [ none ↦ none | some (p, l') ↦ some (p, s ∷ l') ]
unfolding find_and_fill
find_and_fill_next n s l h = rw h

find_and_fill-Filled :
    (brk at n : ℕ) (l : List MallocSegment) (r : ℕ × List MallocSegment)
    → brk < at + 2 ^ 31
    → Tiles brk at l
    → find_and_fill n l ≡ some r
    → Filled brk at n r.0 l r.1
unfolding find_and_fill
find_and_fill-Filled brk at n [] r small h e = absurd cc
find_and_fill-Filled brk at n (s ∷ l) r small (es, h) e =
    elim (Bool-cases (leb n s.size && not s.used)) [
      | inl fits ↦
          let at_here = find_and_fill_here n s l fits in
          let same : Path (ℕ × List MallocSegment) (s.start + header, fill_segment s n l) r = cc in
          subst (λ (x : ℕ × List MallocSegment). Filled brk at n x.0 (s ∷ l) x.1) same
            (fill_segment-Filled brk at n s l small (es, h) (ground arith) (ground arith))
      | inr further ↦
          let (x, f, same) =
            elim_some (find_and_fill n l) (λ x. (x.0, s ∷ x.1))
              (sym (find_and_fill_next n s l further) ∙ e) in
          subst (λ (y : ℕ × List MallocSegment). Filled brk at n y.0 (s ∷ l) y.1) same
            (Filled-cons brk at n x.0 s l x.1 es
              (find_and_fill-Filled brk (at + header + s.size) n l x (omega arith) h f))
    ]

-- A heap as its operations leave it: the segments fill it, and it is smaller than the sizes that a
-- segment can note.
pub record IsHeap (m : KernelMemoryManager) : Type 0 where
  pub tiles : Tiles m.kernel_break m.base_break m.segments
  pub small : m.kernel_break < m.base_break + 2 ^ 31
  pub reserved : m.kernel_break ≡ m.base_break + m.reserved_min

align-le : (n : ℕ) → n + 15 < 2 ^ 64 → n ≤ align n
unfolding align
align-le n h = omega arith

allocate_memory-some :
    (m : KernelMemoryManager) (n : ℕ) (x : ℕ × List MallocSegment)
    → (n / 2 ^ 31 % 2 == 1) ≡ false
    → find_and_fill (align n) m.segments ≡ some x
    → allocate_memory m n ≡ some (x.0, record m { segments = x.1 })
unfolding allocate_memory
allocate_memory-some m n x h e = rw (h, e, allocate_memory)

allocate_memory-none :
    (m : KernelMemoryManager) (n : ℕ)
    → find_and_fill (align n) m.segments ≡ none
    → allocate_memory m n ≡ none
unfolding allocate_memory
allocate_memory-none m n e = ground arith

-- What `allocateMemory` promises of the block at `p`.
pub record Allocated (m : KernelMemoryManager) (n p : ℕ) (m' : KernelMemoryManager) : Type 0 where
  pub heap : IsHeap m'
  pub block : Filled m.kernel_break m.base_break n p m.segments m'.segments

-- A free segment of at least `n` bytes.
abbrev pub HasRoom : ℕ → List MallocSegment → Type 0
HasRoom n [] = ⊥
HasRoom n (s ∷ l) = ((n ≤ s.size) × (s.used ≡ false)) ⊎ HasRoom n l

find_and_fill_room : (n : ℕ) (l : List MallocSegment) → find_and_fill n l ≡ none → ¬ HasRoom n l
unfolding find_and_fill
find_and_fill_room n [] e h = h
find_and_fill_room n (s ∷ l) e (inl (fits, free)) = ground arith
find_and_fill_room n (s ∷ l) e (inr room) = find_and_fill_room n l (ground arith) room

-- On a heap as its operations leave it, `allocateMemory` for less than 2 GiB either fails, and then
-- no free segment is large enough for the aligned size, or gives a block that is new: it lies in
-- the heap, holds at least the bytes asked for, and no block in use starts where it does; all
-- blocks in use stay as they are, and the segments still lie side by side and fill the heap.
pub allocate_memory-Allocated :
    (m : KernelMemoryManager) (n : ℕ)
    → IsHeap m
    → n < 2 ^ 31
    → ((allocate_memory m n ≡ none) × ¬ HasRoom (align n) m.segments)
      ⊎ ((p : ℕ) × (m' : KernelMemoryManager) × (allocate_memory m n ≡ some (p, m'))
          × Allocated m n p m')
allocate_memory-Allocated m n v small = elim (Option-cases (find_and_fill (align n) m.segments)) [
  | inl f ↦ inl (allocate_memory-none m n f, find_and_fill_room (align n) m.segments f)
  | inr (x, f) ↦
      let b =
        find_and_fill-Filled m.kernel_break m.base_break (align n) m.segments x v.small v.tiles f in
      inr (
        x.0,
        record m { segments = x.1 },
        allocate_memory-some m n x (ground arith) f,
        record {
          heap = record { tiles = b.tiles; small = v.small; reserved = v.reserved };
          block = record {
            tiles = b.tiles;
            lower = b.lower;
            fresh = b.fresh;
            size = b.size;
            enough = omega (arith, b.enough, align-le n (omega arith));
            inside = b.inside;
            uses = b.uses;
          };
        },
      )
]

-- ===== src/KernelHeap/Tiles.antt =====
-- What holds of the heap at any time: the segments lie side by side and fill it.
use k_panic.Base.{
  ℕ, ◌+◌, ◌≤◌, ◌<◌, ◌==◌, ◌≡◌, refl, ◌&&◌, Option, none, some, List, [], ◌∷◌, if◌then◌else◌, arith,
}
use k_panic.KernelHeap.{MallocSegment, header}

-- The segments fill the addresses from `at` to `brk`.
abbrev pub Tiles : ℕ → ℕ → List MallocSegment → Type 0
Tiles brk at [] = at ≡ brk
Tiles brk at (s ∷ l) = (s.start ≡ at) × Tiles brk (at + header + s.size) l

-- The size of the block in use at an address.
unfoldable pub in_use : List MallocSegment → ℕ → Option ℕ
in_use [] a = none
in_use (s ∷ l) a =
    let rest = in_use l a in if (s.start + header == a) && s.used then some s.size else rest

pub Tiles-le : (brk at : ℕ) (l : List MallocSegment) → Tiles brk at l → at ≤ brk
Tiles-le brk at [] h = omega arith
Tiles-le brk at (s ∷ l) (e, h) = omega (arith, Tiles-le brk (at + header + s.size) l h)

-- No block lies in front of the segments.
pub in_use-below :
    (brk at : ℕ) (l : List MallocSegment) (a : ℕ)
    → Tiles brk at l
    → a < at + header
    → in_use l a ≡ none
unfolding in_use
in_use-below brk at [] a h lt = ground arith
in_use-below brk at (s ∷ l) a (e, h) lt =
    ground (arith, in_use-below brk (at + header + s.size) l a h (omega arith))

-- A result that a function was applied to comes from a result.
pub elim_some {ℓ κ} :
    {A : Type ℓ} {B : Type κ} (o : Option A) (f : A → B) {y : B}
    → Path (Option B) (elim o [ none ↦ none | some x ↦ some (f x) ]) (some y)
    → (x : A) × (o ≡ some x) × (f x ≡ y)
elim_some none f e = absurd cc
elim_some (some x) f e = (x, refl, cc)

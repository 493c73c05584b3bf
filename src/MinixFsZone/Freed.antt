-- ===== src/MinixFsZone/Freed.antt =====
-- The lists that the loops of `freeZones` give back.
use mathlib.Core.Path.{subst}
use k_panic.Base.{
  ℕ, zero, suc, ◌+◌, ◌<◌, ◌≤◌, ◌==◌, ◌≡◌, ◌≢◌, ◌⊎◌, inl, inr, ap, ◌∙◌, false, Option, none, some,
  List, [], ◌∷◌, ◌++◌, arith, Option-cases, Bool-cases, ℕ_discrete,
}
use k_panic.MinixFsZone.{used_zones, used_rows}

abbrev pub Freed : ℕ → List ℕ → Type 0
Freed x [] = ⊥
Freed x (a ∷ l) = (a ≡ x) ⊎ Freed x l

pub Freed-left : (x : ℕ) (l k : List ℕ) → Freed x l → Freed x (l ++ k)
Freed-left x [] k h = elim h [ ]
Freed-left x (a ∷ l) k (inl e) = inl e
Freed-left x (a ∷ l) k (inr h) = inr (Freed-left x l k h)

pub Freed-right : (x : ℕ) (l k : List ℕ) → Freed x k → Freed x (l ++ k)
Freed-right x [] k h = h
Freed-right x (a ∷ l) k h = inr (Freed-right x l k h)

pub Freed-used_zones :
    (n from : ℕ) (f : ℕ → ℕ) (i : ℕ)
    → from ≤ i
    → i < from + n
    → f i ≢ 0
    → Freed (f i) (used_zones n from f)
unfolding used_zones
Freed-used_zones zero from f i low high used = absurd (omega arith)
Freed-used_zones (suc n) from f i low high used = elim (ℕ_discrete from i) [
  | yes here ↦
      let kept : (f from == 0) ≡ false = ground (arith, ap f here) in rw kept (inl (ap f here))
  | no further ↦
      let rest = Freed-used_zones n (from + 1) f i (omega arith) (omega arith) used in
      elim (Bool-cases (f from == 0)) [ inl empty ↦ rw empty rest | inr kept ↦ rw kept (inr rest) ]
]

abbrev row_zones : ℕ → Option (ℕ → ℕ) → List ℕ
row_zones n none = []
row_zones n (some g) = used_zones n 0 g

pub Freed-used_rows :
    (k from n : ℕ) (f : ℕ → Option (ℕ → ℕ)) (row column : ℕ) (g : ℕ → ℕ)
    → from ≤ row
    → row < from + k
    → f row ≡ some g
    → column < n
    → g column ≢ 0
    → Freed (g column) (used_rows k from n f)
unfolding used_rows
Freed-used_rows zero from n f row column g low high e inside used = absurd (omega arith)
Freed-used_rows (suc k) from n f row column g low high e inside used = elim (ℕ_discrete from row) [
  | yes here ↦
      let full : f from ≡ some g = ap f here ∙ e in
      rw full (
        Freed-left (g column) (used_zones n 0 g) (used_rows k (from + 1) n f)
          (Freed-used_zones n 0 g column (omega arith) (omega arith) used))
  | no further ↦
      let rest =
        Freed-used_rows k (from + 1) n f row column g (omega arith) (omega arith) e inside used in
      Freed-right (g column) (row_zones n (f from)) (used_rows k (from + 1) n f) rest
]

pub from_either : (x : ℕ) (l k : List ℕ) → Freed x (l ++ k) → Freed x l ⊎ Freed x k
from_either x [] k h = inr h
from_either x (a ∷ l) k (inl e) = inl (inl e)
from_either x (a ∷ l) k (inr h) = elim (from_either x l k h) [
  | inl left ↦ inl (inr left)
  | inr right ↦ inr right
]

pub from_used_zones :
    (n from : ℕ) (f : ℕ → ℕ) (x : ℕ)
    → Freed x (used_zones n from f)
    → (x ≢ 0) × ((i : ℕ) × (i < from + n) × (f i ≡ x))
unfolding used_zones
from_used_zones zero from f x h = elim h [ ]
from_used_zones (suc n) from f x h = elim (Bool-cases (f from == 0)) [
  | inl empty ↦
      let gone : used_zones (suc n) from f ≡ used_zones n (from + 1) f = ground (arith, empty) in
      let (used, (i, inside, e)) = from_used_zones n (from + 1) f x (subst (Freed x) gone h) in
      (used, (i, omega (arith, inside), e))
  | inr kept ↦
      let here : used_zones (suc n) from f ≡ f from ∷ used_zones n (from + 1) f =
        ground (arith, kept) in
      elim (subst (Freed x) here h) [
        | inl e ↦ (ground (arith, kept, e), (from, omega arith, e))
        | inr h' ↦
            let (used, (i, inside, e)) = from_used_zones n (from + 1) f x h' in
            (used, (i, omega (arith, inside), e))
      ]
]

pub from_used_rows :
    (k from n : ℕ) (d : ℕ → Option (ℕ → ℕ)) (x : ℕ)
    → Freed x (used_rows k from n d)
    → (x ≢ 0)
      × ((row column : ℕ) × (g : ℕ → ℕ) × (row < from + k)
          × (d row ≡ some g)
          × (column < n)
          × (g column ≡ x))
unfolding used_rows
from_used_rows zero from n d x h = elim h [ ]
from_used_rows (suc k) from n d x h = elim (Option-cases (d from)) [
  | inl empty ↦
      let gone : used_rows (suc k) from n d ≡ used_rows k (from + 1) n d = ground (arith, empty) in
      let (used, (row, column, g, inside, full, inside2, e)) =
        from_used_rows k (from + 1) n d x (subst (Freed x) gone h) in
      (used, (row, column, g, omega (arith, inside), full, inside2, e))
  | inr (g, full) ↦
      let here : used_rows (suc k) from n d ≡ used_zones n 0 g ++ used_rows k (from + 1) n d =
        ground (arith, full) in
      elim (from_either x _ _ (subst (Freed x) here h)) [
        | inl first ↦
            let (used, (column, inside, e)) = from_used_zones n 0 g x first in
            (used, (from, column, g, omega arith, full, omega (arith, inside), e))
        | inr later ↦
            let (used, (row, column, g', inside, full', inside2, e)) =
              from_used_rows k (from + 1) n d x later in
            (used, (row, column, g', omega (arith, inside), full', inside2, e))
      ]
]

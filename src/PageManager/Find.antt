-- ===== src/PageManager/Find.antt =====
-- The loop of `allocPPN`: it finds the lowest pages that fit, or there are none.
use k_panic.Base.{
  ℕ, zero, suc, ◌+◌, ◌-◌, ◌%◌, ◌≤◌, ◌<◌, ◌≡◌, refl, ◌≢◌, ◌∙◌, sym, Bool, true, arith, if◌then◌else◌,
  Bool-cases, inl, inr, ◌⊎◌, dec_lt, ℕ_discrete,
}
use mathlib.Core.Path.{subst}
use k_panic.Bitmap.{Bitmap, get_bit}
use k_panic.Bitmap.Bits.{IsTable}
use k_panic.PageManager.{reserve_pages, find_pages}
use k_panic.PageManager.Reserve.{Reserved, reserve_pages-Reserved, IsFree, reserve_pages_free}

-- What the loop gives from the page `p` on; 0 is nothing found.
pub record Found (n k p : ℕ) (b : Bitmap) (out : ℕ × Bitmap) : Type 0 where
  pub table : IsTable out.1
  pub size : out.1.size ≡ b.size
  pub pages : out.0 ≢ 0 → Reserved n out.0 k b (true, out.1) × (out.0 % k ≡ 0) × (p ≤ out.0)
  pub same : out.0 ≡ 0 → (j : ℕ) → get_bit out.1 j ≡ get_bit b j
  pub first : (q : ℕ) → p ≤ q → (out.0 ≡ 0) ⊎ (q < out.0) → ¬ IsFree n k b q

find_pages_stop :
    (fuel n k p found : ℕ) (b : Bitmap) → found ≢ 0 → find_pages fuel n k p found b ≡ (found, b)
unfolding find_pages
find_pages_stop zero n k p found b h = refl
find_pages_stop (suc fuel) n k p found b h = ground arith

Reserved-same :
    (n p k : ℕ) (b b' : Bitmap) {out : Bool × Bitmap}
    → b'.size ≡ b.size
    → ((j : ℕ) → get_bit b' j ≡ get_bit b j)
    → Reserved n p k b' out
    → Reserved n p k b out
Reserved-same n p k b b' {out} e same r = record {
  table = r.table;
  size = r.size ∙ e;
  bits = λ j. ground (arith, r.bits j, same j);
  free = λ d j hj. sym (same j) ∙ r.free d j hj;
  inside = r.inside;
}

-- One page further: nothing was changed and nothing fits here.
Found-next :
    (n k p : ℕ) (b b' : Bitmap) {out : ℕ × Bitmap}
    → b'.size ≡ b.size
    → ((j : ℕ) → get_bit b' j ≡ get_bit b j)
    → ¬ IsFree n k b p
    → Found n k (p + 1) b' out
    → Found n k p b out
Found-next n k p b b' {out} e same here f = record {
  table = f.table;
  size = f.size ∙ e;
  pages = λ h. let (r, a, l) = f.pages h in (Reserved-same n out.0 k b b' e same r, a, omega arith);
  same = λ h j. f.same h j ∙ same j;
  first = λ q l h free. elim (ℕ_discrete p q) [
    | yes s ↦ here (subst (IsFree n k b) (sym s) free)
    | no s ↦ f.first q (omega arith) h (free.0, free.1, (λ j hj. same j ∙ free.2 j hj))
  ];
}

Found-end : (n more p : ℕ) (b : Bitmap) → IsTable b → n ≤ p → Found n (suc more) p b (0, b)
Found-end n more p b t h = record {
  table = t;
  size = refl;
  pages = λ x. absurd (x refl);
  same = λ _ j. refl;
  first = λ q l x free. let s = free.1 in omega arith;
}

find_pages_skip :
    (fuel n k p : ℕ) (b : Bitmap)
    → p < n
    → p % k ≢ 0
    → find_pages (suc fuel) n k p 0 b ≡ find_pages fuel n k (p + 1) 0 b
unfolding find_pages
find_pages_skip fuel n k p b h e = ground arith

pred-suc : (n : ℕ) → suc n - 1 ≡ n
pred-suc n = omega arith

find_pages_try :
    (fuel n more p : ℕ) (b : Bitmap)
    → p < n
    → p % suc more ≡ 0
    → let out = reserve_pages n b p more in
      find_pages (suc fuel) n (suc more) p 0 b
      ≡ find_pages fuel n (suc more) (p + 1) (if out.0 then p else 0) out.1
unfolding find_pages
find_pages_try fuel n more p b h e = rw (pred-suc more) (ground arith)

Found-here :
    (n more p : ℕ) (b : Bitmap) {out : Bool × Bitmap}
    → Reserved n p (suc more) b out
    → out.0 ≡ true
    → 0 < p
    → p % suc more ≡ 0
    → Found n (suc more) p b (p, out.1)
Found-here n more p b {out} r d pos a = record {
  table = r.table;
  size = r.size;
  pages = λ _. (
    record {
      table = r.table;
      size = r.size;
      bits = λ j. ground (arith, r.bits j);
      free = λ _ j hj. r.free d j hj;
      inside = λ _. r.inside d;
    },
    a,
    omega arith,
  );
  same = λ e j. absurd (omega arith);
  first = λ q l x free. omega arith;
}

find_pages_end : (fuel n k p : ℕ) (b : Bitmap) → n ≤ p → find_pages fuel n k p 0 b ≡ (0, b)
unfolding find_pages
find_pages_end zero n k p b h = refl
find_pages_end (suc fuel) n k p b h = ground arith

pub find_pages-Found :
    (fuel n more p : ℕ) (b : Bitmap)
    → IsTable b
    → n ≤ b.size
    → 0 < p
    → n ≤ p + fuel
    → Found n (suc more) p b (find_pages fuel n (suc more) p 0 b)
find_pages-Found zero n more p b t h pos fits =
    rw (find_pages_end 0 n (suc more) p b (omega arith)) (Found-end n more p b t (omega arith))
find_pages-Found (suc fuel) n more p b t h pos fits = elim (dec_lt p n) [
  | no g ↦
      rw (find_pages_end (suc fuel) n (suc more) p b (omega arith))
        (Found-end n more p b t (omega arith))
  | yes g ↦ elim (ℕ_discrete (p % suc more) 0) [
    | no a ↦ rw (find_pages_skip fuel n (suc more) p b g a) (
        Found-next n (suc more) p b b refl (λ j. refl) (λ free. a free.0)
          (find_pages-Found fuel n more (p + 1) b t h (omega arith) (omega arith)))
    | yes a ↦
        let r = reserve_pages-Reserved n b p more t h in
        rw (find_pages_try fuel n more p b g a) (elim (Bool-cases (reserve_pages n b p more).0) [
          | inl d ↦ rw d (
              rw
                (find_pages_stop fuel n (suc more) (p + 1) p (reserve_pages n b p more).1
                  (omega arith))
                (Found-here n more p b r d pos a))
          | inr d ↦ rw d (
              Found-next n (suc more) p b (reserve_pages n b p more).1 r.size
                (λ j. ground (arith, r.bits j))
                (λ free. let e = reserve_pages_free n b p more free.1 free.2 in cc)
                (find_pages-Found fuel n more (p + 1) (reserve_pages n b p more).1 r.table
                  (omega (arith, r.size)) (omega arith) (omega arith)))
        ])
  ]
]

-- ===== src/PageManager/Alloc.antt =====
-- `allocPPN` and `freePPN`: what they promise, and that the lowest page that may be free is right.
use k_panic.Base.{
  ℕ, zero, suc, ◌+◌, ◌-◌, ◌≤◌, ◌<◌, ◌≡◌, refl, ◌≢◌, ◌∙◌, sym, true, ◌&&◌, none, some, ltb, arith,
  if◌then◌else◌, Bool-cases, inl, inr, ◌⊎◌, ℕ_discrete, dec_lt,
}
use mathlib.Core.Path.{subst}
use k_panic.Bitmap.{Bitmap, get_bit}
use k_panic.Bitmap.Bits.{IsTable}
use k_panic.PageManager.{PageManager, find_pages, raise_lowest, alloc_ppn}
use k_panic.PageManager.Reserve.{between, IsFree}
use k_panic.PageManager.Find.{Found, find_pages-Found}

-- A page manager as its operations leave it: page 0 is the kernel's, the table has a bit for every
-- page, and every page below the lowest one that may be free is in use.
pub record IsManaged (m : PageManager) : Type 0 where
  pub table : IsTable m.page_usage_table
  pub size : m.page_usage_table.size ≡ m.number_of_pages
  pub positive : 0 < m.lowest_unreserved_page
  pub below : (j : ℕ) → j < m.lowest_unreserved_page → get_bit m.page_usage_table j ≡ true

raise_lowest_used :
    (fuel n : ℕ) (b : Bitmap) (p : ℕ)
    → ((j : ℕ) → j < p → get_bit b j ≡ true)
    → (p ≤ raise_lowest fuel n b p) × ((j : ℕ) → j < raise_lowest fuel n b p → get_bit b j ≡ true)
unfolding raise_lowest
raise_lowest_used zero n b p h = (omega arith, h)
raise_lowest_used (suc fuel) n b p h = elim (Bool-cases (ltb p n && get_bit b p)) [
  | inr e ↦ rw e (omega arith, h)
  | inl e ↦
      rw e (
        let (l, ih) = raise_lowest_used fuel n b (p + 1) (step (ground arith)) in (omega arith, ih))
]
  where
    step : get_bit b p ≡ true → (j : ℕ) → j < p + 1 → get_bit b j ≡ true
    step u j l = elim (ℕ_discrete j p) [
      | yes e ↦ subst (λ i. get_bit b i ≡ true) (sym e) u
      | no e ↦ h j (omega arith)
    ]

-- What `allocPPN` promises: the pages given were free and are in use now, no other page changes,
-- and they are the lowest that fit.
pub record Allocated (m : PageManager) (k p : ℕ) (m' : PageManager) : Type 0 where
  pub free : IsFree m.number_of_pages k m.page_usage_table p
  pub used :
      (j : ℕ)
      → get_bit m'.page_usage_table j
        ≡ (if between p k j then true else get_bit m.page_usage_table j)
  pub lowest : (q : ℕ) → q < p → ¬ IsFree m.number_of_pages k m.page_usage_table q
  pub managed : IsManaged m'
  pub number : m'.number_of_pages ≡ m.number_of_pages

module _ (m : PageManager) (more : ℕ) (v : IsManaged m) where
  abbrev low : ℕ
  low = m.lowest_unreserved_page

  abbrev n : ℕ
  n = m.number_of_pages

  abbrev out : ℕ × Bitmap
  out = find_pages (n - low) n (suc more) low 0 m.page_usage_table

  found : Found n (suc more) low m.page_usage_table out
  found =
      find_pages-Found (n - low) n more low m.page_usage_table v.table (omega (arith, v.size))
        v.positive (omega arith)

  -- Below the lowest page that may be free nothing fits.
  nothing_below : (q : ℕ) → q < low → ¬ IsFree n (suc more) m.page_usage_table q
  nothing_below q l free = let u = v.below q l in let f = free.2 q (ground arith) in cc

  nothing_first : (q : ℕ) → (out.0 ≡ 0) ⊎ (q < out.0) → ¬ IsFree n (suc more) m.page_usage_table q
  nothing_first q h = elim (dec_lt q low) [
    | yes l ↦ nothing_below q l
    | no l ↦ found.first q (omega arith) h
  ]

  alloc_ppn-none : out.0 ≡ 0 → alloc_ppn m (suc more) ≡ none
  unfolding alloc_ppn
  alloc_ppn-none e = ground arith

  abbrev after_alloc : PageManager
  after_alloc = record m {
    lowest_unreserved_page = raise_lowest (n - low) n out.1 low;
    page_usage_table = out.1;
  }

  alloc_ppn-some : out.0 ≢ 0 → alloc_ppn m (suc more) ≡ some (out.0, after_alloc)
  unfolding alloc_ppn
  alloc_ppn-some e = ground arith

  allocated : out.0 ≢ 0 → Allocated m (suc more) out.0 after_alloc
  allocated e =
      let (r, a, l) = found.pages e in
      let (up, under) =
        raise_lowest_used (n - low) n out.1 low (λ j h. ground (arith, r.bits j, v.below j h)) in
      record {
        free = (a, r.inside refl, r.free refl);
        used = λ j. r.bits j;
        lowest = λ q h. nothing_first q (inr h);
        managed = record {
          table = found.table;
          size = found.size ∙ v.size;
          positive = omega (arith, v.positive);
          below = under;
        };
        number = refl;
      }

-- On a page manager as its operations leave it, `allocPPN` for at least one page gives the lowest
-- pages of the size asked for that are free and aligned to that size, takes exactly them, and
-- leaves a page manager of the same kind; it fails only if there are no such pages.
pub alloc_ppn-Allocated :
    (m : PageManager) (k : ℕ)
    → IsManaged m
    → 0 < k
    → ((alloc_ppn m k ≡ none) × ((q : ℕ) → ¬ IsFree m.number_of_pages k m.page_usage_table q))
      ⊎ ((p : ℕ) × (m' : PageManager) × (alloc_ppn m k ≡ some (p, m')) × Allocated m k p m')
alloc_ppn-Allocated m zero v h = elim h [ ]
alloc_ppn-Allocated m (suc more) v h = elim (ℕ_discrete (out m more v).0 0) [
  | yes e ↦ inl (alloc_ppn-none m more v e, (λ q. nothing_first m more v q (inl e)))
  | no e ↦
      inr ((out m more v).0, after_alloc m more v, alloc_ppn-some m more v e, allocated m more v e)
]

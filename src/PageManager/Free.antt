-- ===== src/PageManager/Free.antt =====
-- `freePPN`, and what it does to pages that `allocPPN` gave.
use k_panic.Base.{
  ℕ, zero, suc, ◌+◌, ◌≤◌, ◌<◌, ◌==◌, ◌≡◌, refl, ◌∙◌, true, false, some, ltb, arith, if◌then◌else◌,
  inl, inr, ℕ_discrete,
}
use mathlib.Core.Path.{subst}
use k_panic.Bitmap.{Bitmap, get_bit, unset_bit}
use k_panic.Bitmap.Bits.{IsTable, get_bit-unset_bit, IsTable-unset_bit}
use k_panic.PageManager.{PageManager, free_pages, alloc_ppn, free_ppn}
use k_panic.PageManager.Reserve.{between}
use k_panic.PageManager.Alloc.{IsManaged, Allocated, alloc_ppn-Allocated}

-- The table after the pages were given back.
record Freed (p k : ℕ) (b b' : Bitmap) : Type 0 where
  table : IsTable b'
  size : b'.size ≡ b.size
  bits : (j : ℕ) → get_bit b' j ≡ (if between p k j then false else get_bit b j)

free_pages_lem :
    (k p : ℕ) (b : Bitmap)
    → IsTable b
    → p + k ≤ b.size
    → ((j : ℕ) → between p k j ≡ true → get_bit b j ≡ true)
    → (b' : Bitmap) × (free_pages k p b ≡ some b') × Freed p k b b'
unfolding free_pages
free_pages_lem zero p b t h used =
    (b, refl, record { table = t; size = refl; bits = λ j. ground arith })
free_pages_lem (suc k) p b t h used =
    let (t', s') = IsTable-unset_bit b p t in
    let clear : (j : ℕ) → get_bit (unset_bit b p).1 j ≡ (if p == j then false else get_bit b j) =
      λ j. (get_bit-unset_bit b p j t (omega arith)).1 in
    let (b', e, f) =
      free_pages_lem k (p + 1) (unset_bit b p).1 t' (omega arith)
        (λ j hj. ground (arith, clear j, used j (ground arith))) in
    (
      b',
      ground (arith, e, used p (ground arith)),
      record { table = f.table; size = f.size ∙ s'; bits = λ j. ground (arith, f.bits j, clear j) },
    )

free_ppn-some :
    (m : PageManager) (p k : ℕ) (b : Bitmap)
    → free_pages k p m.page_usage_table ≡ some b
    → free_ppn m false p k
      ≡ some (record m {
        lowest_unreserved_page =
            if ltb p m.lowest_unreserved_page then p else m.lowest_unreserved_page;
        page_usage_table = b;
      })
unfolding free_ppn
free_ppn-some m p k b e = rw (e, free_ppn)

-- On a page manager as its operations leave it, `freePPN` on pages inside that are in use, not
-- shared and not page 0 succeeds, gives exactly them back, and leaves a page manager of the same
-- kind.
pub free_ppn_lem :
    (m : PageManager) (p k : ℕ)
    → IsManaged m
    → 0 < p
    → p + k ≤ m.number_of_pages
    → ((j : ℕ) → between p k j ≡ true → get_bit m.page_usage_table j ≡ true)
    → (m' : PageManager) × (free_ppn m false p k ≡ some m')
      × ((j : ℕ)
          → get_bit m'.page_usage_table j
            ≡ (if between p k j then false else get_bit m.page_usage_table j))
      × IsManaged m'
free_ppn_lem m p k v pos h used =
    let (b, e, f) = free_pages_lem k p m.page_usage_table v.table (omega (arith, v.size)) used in
    (
      record m {
        lowest_unreserved_page =
            if ltb p m.lowest_unreserved_page then p else m.lowest_unreserved_page;
        page_usage_table = b;
      },
      free_ppn-some m p k b e,
      f.bits,
      record {
        table = f.table;
        size = f.size ∙ v.size;
        positive = ground (arith, v.positive);
        below = λ j l. ground (arith, f.bits j, v.below j (ground arith));
      },
    )

free-Allocated :
    (m : PageManager) (k p : ℕ) (m' : PageManager)
    → IsManaged m
    → 0 < k
    → Allocated m k p m'
    → (m'' : PageManager) × (free_ppn m' false p k ≡ some m'')
      × ((j : ℕ) → get_bit m''.page_usage_table j ≡ get_bit m.page_usage_table j)
      × IsManaged m''
free-Allocated m k p m' v h a =
    let positive : 0 < p = elim (ℕ_discrete p 0) [
      | yes e ↦ let u = v.below 0 v.positive in let f = a.free.2 0 (ground arith) in absurd cc
      | no e ↦ omega arith
    ] in
    let (m'', e, bits, w) =
      free_ppn_lem m' p k a.managed positive (omega (arith, a.number, a.free.1))
        (λ j hj. ground (arith, a.used j)) in
    (m'', e, (λ j. ground (arith, bits j, a.used j, a.free.2 j)), w)

-- Giving back what was given restores the table: if `allocPPN` on a page manager as its operations
-- leave it gives the `k` pages from `p` on, at least one, then `freePPN` of them, not shared,
-- succeeds, every page is again in use or free as it was before, and the page manager is of the
-- same kind.
pub free_ppn-alloc_ppn :
    (m : PageManager) (k p : ℕ) (m' : PageManager)
    → IsManaged m
    → 0 < k
    → alloc_ppn m k ≡ some (p, m')
    → (m'' : PageManager) × (free_ppn m' false p k ≡ some m'')
      × ((j : ℕ) → get_bit m''.page_usage_table j ≡ get_bit m.page_usage_table j)
      × IsManaged m''
free_ppn-alloc_ppn m k p m' v h e = elim (alloc_ppn-Allocated m k v h) [
  | inl (f, _) ↦ absurd cc
  | inr (p1, m1, f, a) ↦
      let same : Path (ℕ × PageManager) (p1, m1) (p, m') = cc in
      free-Allocated m k p m' v h (subst (λ (s : ℕ × PageManager). Allocated m k s.0 s.1) same a)
]

-- ===== src/PageManager/Tests.antt =====
-- Runs of the page manager on a table of sixteen pages, of which the first three are the kernel's.
use k_panic.Base.{ℕ, zero, suc, ◌<◌, ◌≡◌, refl, true, false, none, some, [], ◌∷◌, arith, ◌⊎◌}
use mathlib.Core.Path.{subst}
use k_panic.Bitmap.{Bitmap, get_bit, set_bit}
use k_panic.Bitmap.Count.{IsCounted, total}
use k_panic.PageManager.{PageManager, alloc_ppn, free_ppn}
use k_panic.PageManager.Reserve.{between, IsFree}
use k_panic.PageManager.Alloc.{IsManaged, Allocated, alloc_ppn-Allocated}
use k_panic.PageManager.Free.{free_ppn-alloc_ppn}

abbrev table : Bitmap
table = record { size = 16; num_bits_set = 4; bitmap = 39 ∷ 0 ∷ [] }

abbrev pages : PageManager
pages = record { number_of_pages = 16; lowest_unreserved_page = 3; page_usage_table = table }

low_pages : (j : ℕ) → j < 3 → get_bit table j ≡ true
unfolding get_bit
low_pages zero h = refl
low_pages (suc zero) h = refl
low_pages (suc (suc zero)) h = refl
low_pages (suc (suc (suc j))) h = absurd (omega arith)

pages-IsManaged : IsManaged pages
pages-IsManaged = record {
  table = omega arith;
  size = refl;
  positive = omega arith;
  below = low_pages;
}

abbrev after : PageManager
after = record pages { page_usage_table = record table { num_bits_set = 6; bitmap = 231 ∷ 0 ∷ [] } }

-- Pages 0 to 2 and 5 are in use: two pages, aligned, are at 6.
takes_six : alloc_ppn pages 2 ≡ some (6, after)
unfolding alloc_ppn set_bit get_bit
takes_six = refl

alloc_ppn-Allocated_example :
    ((alloc_ppn pages 2 ≡ none) × ((q : ℕ) → ¬ IsFree 16 2 table q))
    ⊎ ((p : ℕ) × (m' : PageManager) × (alloc_ppn pages 2 ≡ some (p, m')) × Allocated pages 2 p m')
alloc_ppn-Allocated_example = alloc_ppn-Allocated pages 2 pages-IsManaged (omega arith)

free_ppn-alloc_ppn_example :
    (m'' : PageManager) × (free_ppn after false 6 2 ≡ some m'')
    × ((j : ℕ) → get_bit m''.page_usage_table j ≡ get_bit table j)
    × IsManaged m''
free_ppn-alloc_ppn_example =
    free_ppn-alloc_ppn pages 2 6 after pages-IsManaged (omega arith) takes_six

five : (j : ℕ) → between 5 1 j ≡ true → get_bit table j ≡ true
unfolding get_bit
five j h = subst (λ i. get_bit table i ≡ true) {x = 5} {y = j} (ground arith) refl

table-IsCounted : IsCounted table
unfolding total
table-IsCounted = record { table = omega arith; count = refl }

-- ===== src/PageManager.antt =====
-- The physical pages: `reservePages`, `allocPPN` and `freePPN` of common/source/mm/PageManager.cpp.
-- The table has a bit for every page. What the pages hold is not modelled: neither the fill with
-- 0xFF by which a write to a freed page is found, nor the bytes that are cleared. `none` is a failed
-- assertion. A size of pages is their number `k`, the size over PAGE_SIZE.
pub mod Reserve
pub mod Find
pub mod Alloc
pub mod Free
mod Tests
use k_panic.Base.{
  ℕ, zero, suc, ◌+◌, ◌-◌, ◌%◌, ◌==◌, Bool, true, false, ◌&&◌, not, Option, none, some, ltb, leb,
  if◌then◌else◌,
}
use k_panic.Bitmap.{Bitmap, get_bit, set_bit, unset_bit}

pub record PageManager : Type 0 where
  pub number_of_pages : ℕ
  pub lowest_unreserved_page : ℕ
  pub page_usage_table : Bitmap

-- `reservePages` on the page `ppn` and `more` behind it; `n` is the number of pages.
pub reserve_pages : ℕ → Bitmap → ℕ → ℕ → Bool × Bitmap
reserve_pages n b ppn zero =
    if ltb ppn n && not (get_bit b ppn) then (true, (set_bit b ppn).1) else (false, b)
reserve_pages n b ppn (suc more) =
    let (done, b') = reserve_pages n b (ppn + 1) more in
    if ltb ppn n && not (get_bit b ppn)
    then if done then (true, (set_bit b' ppn).1) else (false, b')
    else (false, b)

-- The loop of `allocPPN` that looks for pages: `found` is 0 as long as none is found.
pub find_pages : ℕ → ℕ → ℕ → ℕ → ℕ → Bitmap → ℕ × Bitmap
unfolding reserve_pages
find_pages zero n k p found b = (found, b)
find_pages (suc fuel) n k p found b =
    let (done, b') = reserve_pages n b p (k - 1) in
    let reserved = find_pages fuel n k (p + 1) (if done then p else found) b' in
    let skipped = find_pages fuel n k (p + 1) found b in
    if found == 0 && ltb p n then if p % k == 0 then reserved else skipped else (found, b)

-- The loop of `allocPPN` that moves the lowest page that may be free.
pub raise_lowest : ℕ → ℕ → Bitmap → ℕ → ℕ
raise_lowest zero n b p = p
raise_lowest (suc fuel) n b p =
    let rest = raise_lowest fuel n b (p + 1) in if ltb p n && get_bit b p then rest else p

pub alloc_ppn : PageManager → ℕ → Option (ℕ × PageManager)
unfolding find_pages raise_lowest
alloc_ppn m k =
    let n = m.number_of_pages in
    let low = m.lowest_unreserved_page in
    let (found, b) = find_pages (n - low) n k low 0 m.page_usage_table in
    if found == 0
    then none
    else some (
      found,
      record m { lowest_unreserved_page = raise_lowest (n - low) n b low; page_usage_table = b },
    )

-- The loop of `freePPN`, with its assertion that every page is in use.
pub free_pages : ℕ → ℕ → Bitmap → Option Bitmap
free_pages zero p b = some b
free_pages (suc k) p b =
    let rest = free_pages k (p + 1) (unset_bit b p).1 in if get_bit b p then rest else none

-- `freePPN`; `shared` is the answer of `COWManager::ppnShared` for the page.
pub free_ppn : PageManager → Bool → ℕ → ℕ → Option PageManager
unfolding free_pages
free_ppn m shared p k = if shared then some m else elim (free_pages k p m.page_usage_table) [
  | none ↦ none
  | some b ↦ some (record m {
    lowest_unreserved_page = if ltb p m.lowest_unreserved_page then p else m.lowest_unreserved_page;
    page_usage_table = b;
  })
]

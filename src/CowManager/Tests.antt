-- ===== src/CowManager/Tests.antt =====
-- Two processes that share a page, a fault of the first, a fork, and a run of the second.
use k_panic.Base.{
  ℕ, ◌/◌, ◌^◌, ◌==◌, ◌≡◌, ◌≢◌, refl, true, false, none, some, [], ◌∷◌, arith, if◌then◌else◌,
}
use k_panic.Base.AssocMap.{lookup, insert}
use k_panic.CowManager.{
  PageTableEntry, Cow, set_contains, sharers, set_entry, handle_cow_page_fault, copy_pages_cow,
}
use k_panic.CowManager.Views.{IsCow, IsUnused, view, write_page}
use k_panic.CowManager.Fault.{Handled}
use k_panic.CowManager.PageFault.{page_bytes, copied, handle_page_fault, handle_page_fault-Handled}
use k_panic.CowManager.Fork.{copy_pages_cow_lem}
use k_panic.CowManager.Runs.{Run, here, next, fault, store, Run-view}

abbrev read_only : PageTableEntry
read_only = record { page_ppn = 10; writeable = false }

abbrev own : PageTableEntry
own = record { page_ppn = 11; writeable = true }

-- Processes 1 and 2 have page 10 at virtual page 5.
abbrev two : Cow ℕ
two = record {
  cow_map = (10, 1 ∷ 2 ∷ []) ∷ [];
  tables = λ p v.
      if v == 5
      then if p == 1 then some read_only else if p == 2 then some read_only else none
      else none;
  memory = λ k. k;
}

two-IsCow : IsCow two
unfolding set_contains sharers lookup
two-IsCow = record {
  ordered = λ k. ground arith;
  shared = record {
    apart = λ a w b x f g hf hg eq ne. ground arith;
    meet = λ a w q f hf m. ground arith;
  };
}

unused : (n : ℕ) → n ≢ 10 → IsUnused two n
unfolding set_contains sharers lookup
unused n ne = record { no_entry = λ q w f h. ground arith; no_member = λ q. ground arith }

member : set_contains 2 (sharers two.cow_map 10) ≡ true
unfolding set_contains sharers lookup
member = refl

copy_pages_cow_lem_example :
    (t : Cow ℕ) × (copy_pages_cow two 1 3 (5 ∷ 7 ∷ []) ≡ some t)
    × IsCow t
    × ((w : ℕ) → view t 3 w ≡ (if set_contains w (5 ∷ 7 ∷ []) then view two 1 w else view two 3 w))
    × ((q w : ℕ) → 3 ≢ q → view t q w ≡ view two q w)
copy_pages_cow_lem_example =
    copy_pages_cow_lem 1 3 (omega arith) two (5 ∷ 7 ∷ []) 0 two-IsCow (ground arith)
      (λ w m. ground arith)

-- The fault of process 2 by `handleCOWPageFault`: it gets page 11, and process 1 keeps page 10.
abbrev faulted : Cow ℕ
faulted = record {
  cow_map = (10, []) ∷ [];
  tables =
      set_entry (set_entry two.tables 2 5 own) 1 5 (record { page_ppn = 10; writeable = true });
  memory = λ k. if 11 == k then 10 else k;
}

faults : handle_cow_page_fault two 2 5 11 ≡ some faulted
unfolding handle_cow_page_fault lookup insert
faults = refl

-- Process 2 faults and then writes to its page.
writes : Run 1 two (write_page faulted 11 99)
unfolding set_entry
writes =
    next 2 (next 2 here (omega arith) (fault 2 5 11 faulted (unused 11 (omega arith)) faults))
      (omega arith) (store 2 5 own 99 refl refl)

Run-view_example :
    IsCow (write_page faulted 11 99)
    × ((w : ℕ) → view (write_page faulted 11 99) 1 w ≡ view two 1 w)
Run-view_example = Run-view 1 two (write_page faulted 11 99) two-IsCow writes

handle_page_fault-Handled_example :
    (t : Cow ℕ) × (handle_page_fault (2 ^ 47) two 2 0x5123 true true false true 11
      ≡ some (copied t))
    × Handled two 2 (0x5123 / page_bytes) t
handle_page_fault-Handled_example =
    handle_page_fault-Handled (2 ^ 47) two 2 0x5123 read_only true false true 11 two-IsCow
      (unused 11 (omega arith)) refl member (omega arith) (omega arith)

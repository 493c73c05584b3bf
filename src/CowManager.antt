-- ===== src/CowManager.antt =====
-- Copy on write: common/source/kernel/COWManager.cpp. A process is its number, a page table is a
-- function of process and virtual page, and a page's bytes are one value. `allocPPN` gives the page
-- that is passed as `new_ppn`. `none` is a failed assertion.
pub mod Sets
pub mod Shared
pub mod Views
pub mod Fault
pub mod Fork
pub mod Runs
pub mod PageFault
mod Tests
use k_panic.Base.{
  ℕ, zero, suc, ◌+◌, ◌==◌, Bool, true, false, ◌&&◌, not, Option, none, some, List, [], ◌∷◌, length,
  ltb, if◌then◌else◌,
}
use k_panic.Base.AssocMap.{AssocMap, lookup, insert}

pub record PageTableEntry : Type 0 where
  pub page_ppn : ℕ
  pub writeable : Bool

-- `cow_map_`, with the page tables and the memory it is about.
pub record Cow {ℓ} (Page : Type ℓ) : Type ℓ where
  pub cow_map : AssocMap (List ℕ)
  pub tables : ℕ → ℕ → Option PageTableEntry
  pub memory : ℕ → Page

-- `ustl::set`: a list in order without duplicates.
pub set_contains : ℕ → List ℕ → Bool
set_contains p [] = false
set_contains p (q ∷ l) = if q == p then true else set_contains p l

pub set_insert : ℕ → List ℕ → List ℕ
set_insert p [] = p ∷ []
set_insert p (q ∷ l) = if q == p then q ∷ l else if ltb p q then p ∷ q ∷ l else q ∷ set_insert p l

pub set_erase : ℕ → List ℕ → List ℕ
set_erase p [] = []
set_erase p (q ∷ l) = if q == p then l else q ∷ set_erase p l

-- `cow_map_[ppn]`: an empty set where there is none.
pub sharers : AssocMap (List ℕ) → ℕ → List ℕ
sharers m ppn = elim (lookup ppn m) [ none ↦ [] | some l ↦ l ]

-- `mapping.pt[mapping.pti] = …`
pub set_entry :
    (ℕ → ℕ → Option PageTableEntry) → ℕ → ℕ → PageTableEntry → ℕ → ℕ → Option PageTableEntry
set_entry t p v e q w = if (p == q) && (v == w) then some e else t q w

pub copy_page {ℓ} : {Page : Type ℓ} → (ℕ → Page) → ℕ → ℕ → ℕ → Page
copy_page m dst src k = if dst == k then m src else m k

-- The loop of `eraseProcessFromCOWMap`.
pub erase_everywhere : ℕ → AssocMap (List ℕ) → AssocMap (List ℕ)
unfolding set_erase
erase_everywhere p [] = []
erase_everywhere p ((ppn, l) ∷ m) = (ppn, set_erase p l) ∷ erase_everywhere p m

module _ {ℓ} {Page : Type ℓ} where
  -- `addToCOWMap`
  pub add_to_cow_map : Cow Page → ℕ → ℕ → ℕ → Cow Page
  unfolding sharers set_insert
  add_to_cow_map s ppn p1 p2 = record s {
    cow_map = insert ppn (set_insert p2 (set_insert p1 (sharers s.cow_map ppn))) s.cow_map;
  }

  pub ppn_shared : Cow Page → ℕ → Bool
  ppn_shared s ppn = elim (lookup ppn s.cow_map) [
    | none ↦ false
    | some [] ↦ false
    | some (p ∷ l) ↦ true
  ]

  pub erase_process_from_cow_map : Cow Page → ℕ → Cow Page
  unfolding erase_everywhere
  erase_process_from_cow_map s p = record s { cow_map = erase_everywhere p s.cow_map }

  pub erase_process_from_page : Cow Page → ℕ → ℕ → Cow Page
  unfolding ppn_shared sharers set_erase
  erase_process_from_page s p ppn =
      if ppn_shared s ppn
      then record s { cow_map = insert ppn (set_erase p (sharers s.cow_map ppn)) s.cow_map }
      else s

  -- The page of the process moves to `new_ppn`, with its bytes, and is writeable there.
  pub move_page : Cow Page → ℕ → ℕ → ℕ → ℕ → Cow Page
  unfolding sharers set_erase set_entry copy_page
  move_page s p v ppn new_ppn = record s {
    cow_map = insert ppn (set_erase p (sharers s.cow_map ppn)) s.cow_map;
    tables = set_entry s.tables p v (record { page_ppn = new_ppn; writeable = true });
    memory = copy_page s.memory new_ppn ppn;
  }

  -- The page of the process stays where it is and is writeable; the process shares it no more.
  pub keep_page : Cow Page → ℕ → ℕ → ℕ → Cow Page
  unfolding sharers set_erase set_entry
  keep_page s p v ppn = record s {
    cow_map = insert ppn (set_erase p (sharers s.cow_map ppn)) s.cow_map;
    tables = set_entry s.tables p v (record { page_ppn = ppn; writeable = true });
  }

  -- The other of two processes keeps the page: its entry at the same virtual page becomes writeable,
  -- whatever page it names. `none`: there is no other process, or it has no entry there.
  pub release_other : Cow Page → ℕ → ℕ → List ℕ → Option (Cow Page)
  unfolding set_erase set_entry
  release_other s v ppn [] = none
  release_other s v ppn (other ∷ l) = elim (s.tables other v) [
    | none ↦ none
    | some e ↦ some (record s {
      cow_map = insert ppn (set_erase other (other ∷ l)) s.cow_map;
      tables = set_entry s.tables other v (record { page_ppn = e.page_ppn; writeable = true });
    })
  ]

  -- The cases of `handleCOWPageFault` by the number of processes that share the page.
  pub handle_shared : Cow Page → ℕ → ℕ → ℕ → ℕ → List ℕ → Option (Cow Page)
  unfolding move_page keep_page release_other
  handle_shared s p v ppn new_ppn [] = none
  handle_shared s p v ppn new_ppn (a ∷ []) = some (keep_page s p v ppn)
  handle_shared s p v ppn new_ppn (a ∷ b ∷ []) =
      let t = move_page s p v ppn new_ppn in release_other t v ppn (sharers t.cow_map ppn)
  handle_shared s p v ppn new_ppn (a ∷ b ∷ c ∷ l) = some (move_page s p v ppn new_ppn)

  pub handle_cow_page_fault : Cow Page → ℕ → ℕ → ℕ → Option (Cow Page)
  unfolding handle_shared set_contains sharers
  handle_cow_page_fault s p v new_ppn = elim (s.tables p v) [
    | none ↦ none
    | some e ↦
        let l = sharers s.cow_map e.page_ppn in
        if set_contains p l then handle_shared s p v e.page_ppn new_ppn l else none
  ]

  -- The step of `copyPagesToNewArchMemCOW` for a page that is present in the parent: the child gets
  -- the entry, read-only in both. A page that the child has is a failed assertion.
  pub copy_page_cow : Cow Page → ℕ → ℕ → ℕ → PageTableEntry → Option (Cow Page)
  unfolding add_to_cow_map set_entry
  copy_page_cow s parent child v e = elim (s.tables child v) [
    | some old ↦ none
    | none ↦
        let shared : PageTableEntry = record { page_ppn = e.page_ppn; writeable = false } in
        some (
          add_to_cow_map
            (record s { tables = set_entry (set_entry s.tables child v shared) parent v shared })
            e.page_ppn parent child)
  ]

  -- `copyPagesToNewArchMemCOW` over a list of virtual pages, in the place of the four loops.
  pub copy_pages_cow : Cow Page → ℕ → ℕ → List ℕ → Option (Cow Page)
  unfolding copy_page_cow
  copy_pages_cow s parent child [] = some s
  copy_pages_cow s parent child (v ∷ vs) = elim (s.tables parent v) [
    | none ↦ copy_pages_cow s parent child vs
    | some e ↦ elim (copy_page_cow s parent child v e) [
      | none ↦ none
      | some t ↦ copy_pages_cow t parent child vs
    ]
  ]

  -- The end of a process: its destructor takes it out of the sets, and its entries go with its page
  -- tables.
  pub end_process : Cow Page → ℕ → Cow Page
  unfolding erase_process_from_cow_map
  end_process s p =
      let t = erase_process_from_cow_map s p in
      record t { tables = λ q w. if p == q then none else t.tables q w }

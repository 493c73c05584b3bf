-- ===== src/CowManager/PageFault.antt =====
-- `checkPageFaultIsValid` and `handlePageFault` of common/source/mm/PageFaultHandler.cpp, behind the
-- assertions on the thread. `in_stack` says whether an address lies in a stack of the process, and
-- `has_loader` whether the thread is one of a user program.
use k_panic.Base.{
  ℕ, ◌/◌, ◌<◌, ◌≤◌, ◌≡◌, Bool, true, false, not, ◌&&◌, Option, none, some, [], ◌∷◌, ltb, leb,
  if◌then◌else◌, arith, Option-cases, inl, inr, ◌⊎◌,
}
use k_panic.Base.AssocMap.{lookup}
use k_panic.CowManager.{
  PageTableEntry, Cow, set_contains, sharers, ppn_shared, handle_cow_page_fault,
}
use k_panic.CowManager.Views.{IsCow, IsUnused}
use k_panic.CowManager.Fault.{Handled, handle_cow_page_fault-Handled}

-- PAGE_SIZE, which is also null_reference_check_border_.
abbrev pub page_bytes : ℕ
page_bytes = 4096

-- What the handler does: `copied` has the state behind it.
pub data Reaction {ℓ} (Page : Type ℓ) : Type ℓ where
  copied : Cow Page → Reaction Page
  grows_stack : Reaction Page
  loads_page : Reaction Page
  exits : Reaction Page
  kills : Reaction Page

-- The page that an address is mapped to; resolveMapping gives 0 where there is none.
abbrev pub ppn_of : Option PageTableEntry → ℕ
ppn_of none = 0
ppn_of (some e) = e.page_ppn

module _ {ℓ} {Page : Type ℓ} (user_break : ℕ) (s : Cow Page) (p address : ℕ) where
  pub check_page_fault_is_valid : Bool → Bool → Bool
  unfolding ppn_shared
  check_page_fault_is_valid user present =
      if ltb address page_bytes
      then false
      else if not user && leb user_break address
      then false
      else if user && leb user_break address
      then false
      else if present
      then ppn_shared s (ppn_of (s.tables p (address / page_bytes)))
      else true

  pub handle_page_fault : Bool → Bool → Bool → Bool → ℕ → Option (Reaction Page)
  unfolding check_page_fault_is_valid ppn_shared
  handle_page_fault user present in_stack has_loader new_ppn =
      let page = address / page_bytes in
      if check_page_fault_is_valid user present
      then (if ppn_shared s (ppn_of (s.tables p page))
          then elim (handle_cow_page_fault s p page new_ppn) [
            | none ↦ none
            | some t ↦ some (copied t)
          ]
          else some (if in_stack then grows_stack else loads_page))
      else some (if has_loader then exits else kills)

  sharer-shared : (k : ℕ) → set_contains p (sharers s.cow_map k) ≡ true → ppn_shared s k ≡ true
  unfolding ppn_shared sharers set_contains
  sharer-shared k h = elim (Option-cases (lookup k s.cow_map)) [
    | inl missing ↦ absurd (ground arith)
    | inr ([], empty) ↦ absurd (ground arith)
    | inr (q ∷ l, there) ↦ ground (arith, there)
  ]

  -- A fault at a mapped page that the process shares is served by copy on write, in user and in
  -- kernel mode, for every address above the first page and below the border of the kernel: the
  -- handler does not stop or end the process, the invariant of sharing holds behind it, nobody sees
  -- a change, and the process can write its page.
  pub handle_page_fault-Handled :
      (e : PageTableEntry) (user in_stack has_loader : Bool) (n : ℕ)
      → IsCow s
      → IsUnused s n
      → s.tables p (address / page_bytes) ≡ some e
      → set_contains p (sharers s.cow_map e.page_ppn) ≡ true
      → page_bytes ≤ address
      → address < user_break
      → (t : Cow Page) × (handle_page_fault user true in_stack has_loader n ≡ some (copied t))
        × Handled s p (address / page_bytes) t
  unfolding handle_page_fault check_page_fault_is_valid
  handle_page_fault-Handled e user in_stack has_loader n i unused there m above below =
      let (t, done, good) =
        handle_cow_page_fault-Handled s p (address / page_bytes) n e i unused there m in
      (t, ground (arith, there, done, sharer-shared e.page_ppn m), good)

  -- An access to the first page or from the border of the kernel on never changes memory: the
  -- process exits, or a kernel thread is killed, whatever is mapped there.
  pub handle_page_fault_refused :
      (user present in_stack has_loader : Bool) (n : ℕ)
      → (address < page_bytes) ⊎ (user_break ≤ address)
      → handle_page_fault user present in_stack has_loader n
        ≡ some (if has_loader then exits else kills)
  unfolding handle_page_fault check_page_fault_is_valid
  handle_page_fault_refused user present in_stack has_loader n out = ground arith

-- ===== src/CowManager/Views.antt =====
-- What processes see, the invariant of sharing on the whole state, and the two ways in which
-- `handleCOWPageFault` changes a page.
use k_panic.Base.{
  ℕ, ◌==◌, ◌&&◌, ◌≡◌, ◌≢◌, inl, inr, refl, Bool, true, false, Option, none, some, if◌then◌else◌,
  arith, Option-cases,
}
use k_panic.CowManager.{
  PageTableEntry, Cow, set_contains, set_erase, sharers, set_entry, copy_page, move_page, keep_page,
}
use k_panic.CowManager.Sets.{
  Ascending, Ascending-sharers, set_erase-Ascending, set_contains-sharers-erase,
}
use k_panic.CowManager.Shared.{IsShared, keep-IsShared, move-IsShared}

abbrev pub can_write : Option PageTableEntry → Bool
can_write none = false
can_write (some e) = e.writeable

module _ {ℓ} {Page : Type ℓ} where
  abbrev pub member_of : Cow Page → ℕ → ℕ → Bool
  member_of s k q = set_contains q (sharers s.cow_map k)

  pub record IsCow (s : Cow Page) : Type ℓ where
    pub ordered : (k : ℕ) → Ascending 0 (sharers s.cow_map k)
    pub shared : IsShared s.tables (member_of s)

  -- No entry and no set is about the page.
  pub record IsUnused (s : Cow Page) (n : ℕ) : Type ℓ where
    pub no_entry : (q w : ℕ) (f : PageTableEntry) → s.tables q w ≡ some f → f.page_ppn ≢ n
    pub no_member : (q : ℕ) → member_of s n q ≡ false

  -- What a process sees at a virtual page.
  abbrev pub view_of : (ℕ → Page) → Option PageTableEntry → Option Page
  view_of m none = none
  view_of m (some e) = some (m e.page_ppn)

  abbrev pub view : Cow Page → ℕ → ℕ → Option Page
  view s q w = view_of s.memory (s.tables q w)

  module _ (s : Cow Page) (i : IsCow s) (p v : ℕ) (e : PageTableEntry)
      (here : s.tables p v ≡ some e) where
    pub keep_page-IsCow :
        ((q : ℕ) → member_of s e.page_ppn q ≡ true → q ≡ p) → IsCow (keep_page s p v e.page_ppn)
    unfolding keep_page
    keep_page-IsCow only = record {
      ordered =
          Ascending-sharers e.page_ppn (set_erase p (sharers s.cow_map e.page_ppn)) s.cow_map
            i.ordered
            (set_erase-Ascending 0 p (sharers s.cow_map e.page_ppn) (i.ordered e.page_ppn));
      shared =
          keep-IsShared i.shared p v e here (member_of (keep_page s p v e.page_ppn))
            (record { page_ppn = e.page_ppn; writeable = true }) refl only
            (λ q. ground (
              arith,
              only q,
              set_contains-sharers-erase e.page_ppn p e.page_ppn q s.cow_map (i.ordered e.page_ppn),
            ))
            (λ k q ne. ground (
              arith,
              set_contains-sharers-erase e.page_ppn p k q s.cow_map (i.ordered e.page_ppn),
            ));
    }

    pub move_page-IsCow : (n : ℕ) → IsUnused s n → IsCow (move_page s p v e.page_ppn n)
    unfolding move_page
    move_page-IsCow n unused = record {
      ordered =
          Ascending-sharers e.page_ppn (set_erase p (sharers s.cow_map e.page_ppn)) s.cow_map
            i.ordered
            (set_erase-Ascending 0 p (sharers s.cow_map e.page_ppn) (i.ordered e.page_ppn));
      shared =
          move-IsShared i.shared p v e here (member_of (move_page s p v e.page_ppn n))
            (record { page_ppn = n; writeable = true }) unused.no_entry unused.no_member
            (ground (
              arith,
              set_contains-sharers-erase e.page_ppn p e.page_ppn p s.cow_map (i.ordered e.page_ppn),
            ))
            (λ k q ne. ground (
              arith,
              set_contains-sharers-erase e.page_ppn p k q s.cow_map (i.ordered e.page_ppn),
            ));
    }

    pub view-keep_page : (q w : ℕ) → view (keep_page s p v e.page_ppn) q w ≡ view s q w
    unfolding keep_page set_entry
    view-keep_page q w = ground arith

    pub view-move_page :
        (n : ℕ) → IsUnused s n → (q w : ℕ) → view (move_page s p v e.page_ppn n) q w ≡ view s q w
    unfolding move_page set_entry copy_page
    view-move_page n unused q w = elim (Option-cases (s.tables q w)) [
      | inl empty ↦ ground arith
      | inr (f, there) ↦ ground (arith, unused.no_entry q w f there)
    ]

  -- A store to a page.
  unfoldable pub write_page : Cow Page → ℕ → Page → Cow Page
  unfolding copy_page
  write_page s k bytes = record s { memory = λ j. if k == j then bytes else s.memory j }

  -- What a process writes to a page that it can write is seen there and nowhere else: under the
  -- invariant of sharing every other view, also of the same process, is as it was.
  pub view-write_page :
      (s : Cow Page) (p v : ℕ) (e : PageTableEntry) (bytes : Page) (q w : ℕ)
      → IsCow s
      → s.tables p v ≡ some e
      → e.writeable ≡ true
      → view (write_page s e.page_ppn bytes) q w
        ≡ (if (p == q) && (v == w) then some bytes else view s q w)
  unfolding write_page
  view-write_page s p v e bytes q w i here can = elim (Option-cases (s.tables q w)) [
    | inl empty ↦ ground arith
    | inr (f, there) ↦ ground (arith, i.shared.apart p v q w e f here there)
  ]

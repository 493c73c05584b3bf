-- ===== src/CowManager/Fork.antt =====
-- `copyPagesToNewArchMemCOW`: a fork copies what the parent sees, and shares the pages.
use k_panic.Base.{
  ℕ, ◌+◌, ◌==◌, ◌≡◌, ◌≢◌, ◌∙◌, inl, inr, refl, true, false, none, some, List, [], ◌∷◌,
  if◌then◌else◌, arith, Option-cases,
}
use k_panic.Base.AssocMap.{insert}
use k_panic.CowManager.{
  PageTableEntry, Cow, set_contains, set_insert, sharers, set_entry, copy_page_cow, copy_pages_cow,
}
use k_panic.CowManager.Sets.{
  Ascending, Ascending-sharers, set_insert-Ascending, set_contains-sharers-insert,
  set_contains-below,
}
use k_panic.CowManager.Shared.{share-IsShared}
use k_panic.CowManager.Views.{IsCow, member_of, view}

module _ {ℓ} {Page : Type ℓ} (parent child : ℕ) (ne : parent ≢ child) where
  -- One page: the child sees at it what the parent sees, and nothing else changes.
  copy_page_cow_lem :
      (s : Cow Page) (v : ℕ) (e : PageTableEntry)
      → IsCow s
      → s.tables parent v ≡ some e
      → s.tables child v ≡ none
      → (t : Cow Page) × (copy_page_cow s parent child v e ≡ some t)
        × IsCow t
        × ((w : ℕ) → v ≢ w → t.tables child w ≡ s.tables child w)
        × ((w : ℕ) → view t child w ≡ (if v == w then view s parent w else view s child w))
        × ((q w : ℕ) → child ≢ q → view t q w ≡ view s q w)
  unfolding copy_page_cow set_entry
  copy_page_cow_lem s v e i here empty =
      let k = e.page_ppn in
      let shared : PageTableEntry = record { page_ppn = k; writeable = false } in
      let old = sharers s.cow_map k in
      let t : Cow Page = record s {
        cow_map = insert k (set_insert child (set_insert parent old)) s.cow_map;
        tables = set_entry (set_entry s.tables child v shared) parent v shared;
      } in
      let who = λ (j q : ℕ). set_contains-sharers-insert k parent child j q s.cow_map in
      (
        t,
        ground (arith, empty),
        record {
          ordered =
              Ascending-sharers k (set_insert child (set_insert parent old)) s.cow_map i.ordered (
                set_insert-Ascending 0 child (set_insert parent old) (omega arith)
                  (set_insert-Ascending 0 parent old (omega arith) (i.ordered k)));
          shared =
              share-IsShared i.shared parent v e here child (member_of t) shared empty refl refl
                (ground (arith, who k parent)) (ground (arith, who k child))
                (λ j q ne'. ground (arith, who j q));
        },
        (λ w ne'. ground arith),
        (λ w. ground (arith, here)),
        (λ q w ne'. ground (arith, here)),
      )

  -- A fork copies what the parent sees: for a list of virtual pages in ascending order at which the
  -- child has no page yet, `copyPagesToNewArchMemCOW` succeeds and keeps the invariant of sharing;
  -- the child then sees what the parent sees at each of the pages, and at the other pages of the
  -- child and in all other processes, the parent included, nothing changes.
  pub copy_pages_cow_lem :
      (s : Cow Page) (vs : List ℕ) (low : ℕ)
      → IsCow s
      → Ascending low vs
      → ((w : ℕ) → set_contains w vs ≡ true → s.tables child w ≡ none)
      → (t : Cow Page) × (copy_pages_cow s parent child vs ≡ some t)
        × IsCow t
        × ((w : ℕ)
            → view t child w ≡ (if set_contains w vs then view s parent w else view s child w))
        × ((q w : ℕ) → child ≢ q → view t q w ≡ view s q w)
  unfolding copy_pages_cow set_contains
  copy_pages_cow_lem s [] low i up empty = (s, refl, i, (λ w. refl), (λ q w ne'. refl))
  copy_pages_cow_lem s (v ∷ vs) low i (le, up) empty = elim (Option-cases (s.tables parent v)) [
    | inl absent ↦
        let (t, done, i', mine, others) =
          copy_pages_cow_lem s vs (v + 1) i up (λ w m. ground (arith, empty w)) in
        (
          t,
          ground arith,
          i',
          (λ w. ground (arith, mine w, absent, empty v, set_contains-below (v + 1) v vs)),
          others,
        )
    | inr (e, here) ↦
        let (s1, first, i1, rest, own1, others1) =
          copy_page_cow_lem s v e i here (ground (arith, empty v)) in
        let (t, done, i', mine, others) =
          copy_pages_cow_lem s1 vs (v + 1) i1 up
            (λ w m. ground (arith, empty w, rest w, set_contains-below (v + 1) w vs)) in
        (
          t,
          ground (arith, first),
          i',
          (λ w. ground (arith, mine w, own1 w, others1 parent w, set_contains-below (v + 1) w vs)),
          (λ q w ne'. others q w ne' ∙ others1 q w ne'),
        )
  ]

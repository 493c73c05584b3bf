-- ===== src/CowManager/Fault.antt =====
-- `handleCOWPageFault`: every process keeps what it sees, and the page becomes the process's own.
use mathlib.Core.Path.{subst}
use k_panic.Base.{
  ℕ, ◌≡◌, ◌≢◌, ◌∙◌, sym, ap, inl, inr, refl, true, some, List, [], ◌∷◌, arith, ℕ_discrete,
  Option-cases,
}
use k_panic.CowManager.{
  PageTableEntry, Cow, set_contains, set_erase, sharers, set_entry, move_page, keep_page,
  release_other, handle_shared, handle_cow_page_fault,
}
use k_panic.CowManager.Sets.{Ascending, sharers-insert}
use k_panic.CowManager.Views.{
  can_write, member_of, IsCow, IsUnused, view, keep_page-IsCow, move_page-IsCow, view-keep_page,
  view-move_page,
}

module _ {ℓ} {Page : Type ℓ} where
  release_other_lem :
      (s : Cow Page) (v k other : ℕ) (f : PageTableEntry)
      → sharers s.cow_map k ≡ other ∷ []
      → s.tables other v ≡ some f
      → f.page_ppn ≡ k
      → release_other s v k (sharers s.cow_map k) ≡ some (keep_page s other v k)
  unfolding release_other keep_page
  release_other_lem s v k other f only there same = ground (arith, only, there, same)

  can_write-keep_page :
      (s : Cow Page) (p v k q w : ℕ)
      → can_write (s.tables q w) ≡ true
      → can_write ((keep_page s p v k).tables q w) ≡ true
  unfolding keep_page set_entry
  can_write-keep_page s p v k q w h = ground arith

  only_member :
      (s : Cow Page) (k other : ℕ)
      → sharers s.cow_map k ≡ other ∷ []
      → (q : ℕ) → member_of s k q ≡ true
      → q ≡ other
  unfolding set_contains
  only_member s k other e q h =
      let h' : set_contains q (other ∷ []) ≡ true = ap (set_contains q) (sym e) ∙ h in ground arith

  fault_shared :
      (s : Cow Page) (p v n : ℕ) (e : PageTableEntry)
      → s.tables p v ≡ some e
      → set_contains p (sharers s.cow_map e.page_ppn) ≡ true
      → handle_cow_page_fault s p v n
        ≡ handle_shared s p v e.page_ppn n (sharers s.cow_map e.page_ppn)
  unfolding handle_cow_page_fault
  fault_shared s p v n e here m = ground (arith, here, m)

  -- The handled fault: nobody sees a change, and the page of the process is writeable.
  abbrev pub Handled : Cow Page → ℕ → ℕ → Cow Page → Type ℓ
  Handled s p v t =
      IsCow t × ((q w : ℕ) → view t q w ≡ view s q w) × (can_write (t.tables p v) ≡ true)

  module _ (s : Cow Page) (i : IsCow s) (p v : ℕ) (e : PageTableEntry)
      (here : s.tables p v ≡ some e) (n : ℕ) (unused : IsUnused s n) where
    sharers-move_page :
        sharers (move_page s p v e.page_ppn n).cow_map e.page_ppn
        ≡ set_erase p (sharers s.cow_map e.page_ppn)
    unfolding move_page
    sharers-move_page = ground (
      arith,
      sharers-insert e.page_ppn e.page_ppn (set_erase p (sharers s.cow_map e.page_ppn)) s.cow_map,
    )

    tables-move_page : (q : ℕ) → p ≢ q → (move_page s p v e.page_ppn n).tables q v ≡ s.tables q v
    unfolding move_page set_entry
    tables-move_page q ne = ground arith

    can_write-keep_own : can_write ((keep_page s p v e.page_ppn).tables p v) ≡ true
    unfolding keep_page set_entry
    can_write-keep_own = ground arith

    can_write-move_page : can_write ((move_page s p v e.page_ppn n).tables p v) ≡ true
    unfolding move_page set_entry
    can_write-move_page = ground arith

    move_page-Handled : Handled s p v (move_page s p v e.page_ppn n)
    move_page-Handled = (
      move_page-IsCow s i p v e here n unused,
      view-move_page s i p v e here n unused,
      can_write-move_page,
    )

    keep_page-Handled :
        ((q : ℕ) → member_of s e.page_ppn q ≡ true → q ≡ p)
        → Handled s p v (keep_page s p v e.page_ppn)
    keep_page-Handled only =
        (keep_page-IsCow s i p v e here only, view-keep_page s i p v e here, can_write-keep_own)

    -- With two processes, the other one keeps the page.
    handle_two :
        (other : ℕ)
        → member_of s e.page_ppn other ≡ true
        → set_erase p (sharers s.cow_map e.page_ppn) ≡ other ∷ []
        → p ≢ other
        → (u : Cow Page) × (release_other
              (move_page s p v e.page_ppn n)
              v
              e.page_ppn
              (sharers (move_page s p v e.page_ppn n).cow_map e.page_ppn)
            ≡ some u)
          × Handled s p v u
    handle_two other m left ne =
        let t = move_page s p v e.page_ppn n in
        let there = i.shared.meet p v other e here m in
        let (c, views, can) = move_page-Handled in
        elim (Option-cases (s.tables other v)) [
          | inl empty ↦ absurd (ground arith)
          | inr (f, found) ↦
              let same : f.page_ppn ≡ e.page_ppn = ground arith in
              let found' : t.tables other v ≡ some f = tables-move_page other ne ∙ found in
              let only : sharers t.cow_map e.page_ppn ≡ other ∷ [] = sharers-move_page ∙ left in
              let only' =
                subst (λ k. (q : ℕ) → member_of t k q ≡ true → q ≡ other) (sym same)
                  (only_member t e.page_ppn other only) in
              (
                keep_page t other v e.page_ppn,
                release_other_lem t v e.page_ppn other f only found' same,
                (
                  subst (λ k. IsCow (keep_page t other v k)) same
                      (keep_page-IsCow t c other v f found' only'),
                  (λ q w.
                      subst (λ k. view (keep_page t other v k) q w ≡ view t q w) same
                        (view-keep_page t c other v f found' q w)
                      ∙ views q w),
                  can_write-keep_page t other v e.page_ppn p v can,
                ),
              )
        ]

    handle_shared-Handled :
        (l : List ℕ)
        → sharers s.cow_map e.page_ppn ≡ l
        → Ascending 0 l
        → set_contains p l ≡ true
        → (u : Cow Page) × (handle_shared s p v e.page_ppn n l ≡ some u) × Handled s p v u
    unfolding handle_shared set_contains set_erase
    handle_shared-Handled [] same up h = absurd cc
    handle_shared-Handled (a ∷ []) same up h = (
      keep_page s p v e.page_ppn,
      refl,
      keep_page-Handled (only_member s e.page_ppn p (same ∙ ap (λ x. x ∷ []) (ground arith))),
    )
    handle_shared-Handled (a ∷ b ∷ []) same (low, (up, last)) h = elim (ℕ_discrete a p) [
      | yes first ↦
          handle_two b (subst (λ x. set_contains b x ≡ true) (sym same) (ground arith))
            (ap (set_erase p) same ∙ ground arith) (omega arith)
      | no second ↦
          let found : b ≡ p = ground arith in
          handle_two a (subst (λ x. set_contains a x ≡ true) (sym same) (ground arith))
            (ap (set_erase p) same ∙ ground arith) (omega arith)
    ]
    handle_shared-Handled (a ∷ b ∷ c ∷ l) same up h =
        (move_page s p v e.page_ppn n, refl, move_page-Handled)

  -- A fault of a process in the set of its page is always handled, whether one, two or more
  -- processes are in the set: given the invariant of sharing and a page that nothing is about,
  -- `handleCOWPageFault` does not stop, keeps the invariant, leaves what every process sees at every
  -- virtual page as it was, and makes the process's page writeable.
  pub handle_cow_page_fault-Handled :
      (s : Cow Page) (p v n : ℕ) (e : PageTableEntry)
      → IsCow s
      → IsUnused s n
      → s.tables p v ≡ some e
      → set_contains p (sharers s.cow_map e.page_ppn) ≡ true
      → (t : Cow Page) × (handle_cow_page_fault s p v n ≡ some t) × Handled s p v t
  handle_cow_page_fault-Handled s p v n e i unused here m =
      let (t, done, good) =
        handle_shared-Handled s i p v e here n unused (sharers s.cow_map e.page_ppn) refl
          (i.ordered e.page_ppn) m in
      (t, fault_shared s p v n e here m ∙ done, good)

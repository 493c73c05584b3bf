-- ===== src/CowManager/Runs.antt =====
-- Processes that share pages, over any sequence of forks, faults, stores and ends of processes.
use mathlib.Core.Path.{subst}
use k_panic.Base.{
  ℕ, ◌≡◌, ◌≢◌, true, none, some, List, [], ◌∷◌, arith, refl, Option-cases, Bool-cases, inl, inr,
  ◌∙◌,
}
use k_panic.Base.AssocMap.{AssocMap, lookup}
use k_panic.CowManager.{
  PageTableEntry, Cow, set_contains, set_erase, sharers, erase_everywhere,
  erase_process_from_cow_map, handle_cow_page_fault, copy_pages_cow, set_entry, end_process,
}
use k_panic.CowManager.Sets.{
  Ascending, set_erase-Ascending, set_contains-erase, set_contains-erase_self,
}
use k_panic.CowManager.Views.{IsCow, IsUnused, view, write_page, view-write_page}
use k_panic.CowManager.Fault.{handle_cow_page_fault-Handled}
use k_panic.CowManager.Fork.{copy_pages_cow_lem}

sharers-erase_everywhere :
    (p j : ℕ) (m : AssocMap (List ℕ)) → sharers (erase_everywhere p m) j ≡ set_erase p (sharers m j)
unfolding sharers erase_everywhere set_erase lookup
sharers-erase_everywhere p j [] = refl
sharers-erase_everywhere p j ((k, l) ∷ m) = ground (arith, sharers-erase_everywhere p j m)

module _ {ℓ} {Page : Type ℓ} where
  end_process-IsCow : (s : Cow Page) (p : ℕ) → IsCow s → IsCow (end_process s p)
  unfolding end_process erase_process_from_cow_map
  end_process-IsCow s p i =
      let who = λ (j q : ℕ). set_contains-erase p q (sharers s.cow_map j) in
      let out = λ (j : ℕ). set_contains-erase_self 0 p (sharers s.cow_map j) (i.ordered j) in
      let now = λ (j : ℕ). sharers-erase_everywhere p j s.cow_map in
      record {
        ordered =
            λ j. ground (arith, now j, set_erase-Ascending 0 p (sharers s.cow_map j) (i.ordered j));
        shared = record {
          apart = λ a w b x f g hf hg eq ne.
              ground (arith, i.shared.apart a w b x f g, who f.page_ppn a, now f.page_ppn);
          meet = λ a w q f hf m. ground (
            arith,
            i.shared.meet a w q f,
            who f.page_ppn a,
            who f.page_ppn q,
            out f.page_ppn,
            now f.page_ppn,
          );
        };
      }

  -- One action, with the process whose view of memory it may change: `map` is a page that the loader
  -- or the stack adds, with whatever bytes the page holds.
  pub data Step (s : Cow Page) : ℕ → Cow Page → Type ℓ where
    map :
        (p v : ℕ) (e : PageTableEntry)
        → s.tables p v ≡ none
        → IsUnused s e.page_ppn
        → Step s p (record s { tables = set_entry s.tables p v e })
    fork :
        (parent child : ℕ) (vs : List ℕ) (t : Cow Page)
        → parent ≢ child
        → Ascending 0 vs
        → ((w : ℕ) → s.tables child w ≡ none)
        → copy_pages_cow s parent child vs ≡ some t
        → Step s child t
    fault :
        (p v n : ℕ) (t : Cow Page)
        → IsUnused s n
        → handle_cow_page_fault s p v n ≡ some t
        → Step s p t
    store :
        (p v : ℕ) (e : PageTableEntry) (bytes : Page)
        → s.tables p v ≡ some e
        → e.writeable ≡ true
        → Step s p (write_page s e.page_ppn bytes)
    end : (p : ℕ) → Step s p (end_process s p)

  -- Actions of processes other than `q`.
  pub data Run (q : ℕ) (s : Cow Page) : Cow Page → Type ℓ where
    here : Run q s s
    next : {t u : Cow Page} (p : ℕ) → Run q s t → p ≢ q → Step t p u → Run q s u

  -- A step keeps the invariant, and nobody else's view changes.
  Good : Cow Page → ℕ → Cow Page → Type ℓ
  Good s p t = IsCow t × ((q w : ℕ) → p ≢ q → view t q w ≡ view s q w)

  map-Good :
      (s : Cow Page) (p v : ℕ) (e : PageTableEntry)
      → IsCow s
      → s.tables p v ≡ none
      → IsUnused s e.page_ppn
      → Good s p (record s { tables = set_entry s.tables p v e })
  unfolding Good set_entry
  map-Good s p v e i empty unused = (
    record {
      ordered = i.ordered;
      shared = record {
        apart = λ a w b x f g hf hg eq ne.
            ground
              (arith, i.shared.apart a w b x f g, unused.no_entry a w f, unused.no_entry b x g);
        meet = λ a w q f hf m. ground (arith, i.shared.meet a w q f, unused.no_member q);
      };
    },
    λ q w ne. ground arith,
  )

  store-Good :
      (s : Cow Page) (p v : ℕ) (e : PageTableEntry) (bytes : Page)
      → IsCow s
      → s.tables p v ≡ some e
      → e.writeable ≡ true
      → Good s p (write_page s e.page_ppn bytes)
  unfolding Good write_page
  store-Good s p v e bytes i there can = (
    record { ordered = i.ordered; shared = i.shared },
    λ q w ne. ground (arith, view-write_page s p v e bytes q w i there can),
  )

  fault-Good :
      (s : Cow Page) (p v n : ℕ) (t : Cow Page)
      → IsCow s
      → IsUnused s n
      → handle_cow_page_fault s p v n ≡ some t
      → Good s p t
  unfolding Good handle_cow_page_fault
  fault-Good s p v n t i unused ran = elim (Option-cases (s.tables p v)) [
    | inl empty ↦ absurd (ground arith)
    | inr (e, there) ↦ elim (Bool-cases (set_contains p (sharers s.cow_map e.page_ppn))) [
      | inr out ↦ absurd (ground arith)
      | inl m ↦
          let (u, did, good) = handle_cow_page_fault-Handled s p v n e i unused there m in
          let same : u ≡ t = cc in subst (λ x. Good s p x) same (good.0, λ q w ne. good.1 q w)
    ]
  ]

  fork-Good :
      (s : Cow Page) (parent child : ℕ) (vs : List ℕ) (t : Cow Page)
      → IsCow s
      → parent ≢ child
      → Ascending 0 vs
      → ((w : ℕ) → s.tables child w ≡ none)
      → copy_pages_cow s parent child vs ≡ some t
      → Good s child t
  unfolding Good
  fork-Good s parent child vs t i ne up empty ran =
      let (u, did, cow, own, others) =
        copy_pages_cow_lem parent child ne s vs 0 i up (λ w m. empty w) in
      let same : u ≡ t = cc in subst (λ x. Good s child x) same (cow, others)

  end-Good : (s : Cow Page) (p : ℕ) → IsCow s → Good s p (end_process s p)
  unfolding Good end_process erase_process_from_cow_map
  end-Good s p i = (end_process-IsCow s p i, λ q w ne. ground arith)

  Step-Good : {s : Cow Page} {p : ℕ} {t : Cow Page} → Step s p t → IsCow s → Good s p t
  Step-Good {s} (map p v e empty unused) i = map-Good s p v e i empty unused
  Step-Good {s} (fork parent child vs t ne up empty ran) i =
      fork-Good s parent child vs t i ne up empty ran
  Step-Good {s} (fault p v n t unused ran) i = fault-Good s p v n t i unused ran
  Step-Good {s} (store p v e bytes there can) i = store-Good s p v e bytes i there can
  Step-Good {s} (end p) i = end-Good s p i

  -- Processes are isolated although they share pages: whatever sequence of page mappings, forks,
  -- copy-on-write faults, stores and ends other processes go through, the invariant of sharing holds
  -- at its end, and a process sees at each of its virtual pages what it saw before. Forks are into a
  -- process without pages, and pages that are handed out are in no entry and no set.
  pub Run-view :
      (q : ℕ) (s t : Cow Page) → IsCow s → Run q s t → IsCow t × ((w : ℕ) → view t q w ≡ view s q w)
  unfolding Good
  Run-view q s t i here = (i, λ w. refl)
  Run-view q s u i (next {t} p run ne step) =
      let (mid, before) = Run-view q s t i run in
      let (cow, now) = Step-Good step mid in (cow, λ w. now q w ne ∙ before w)

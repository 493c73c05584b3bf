-- ===== src/CowManager/Shared.antt =====
-- The invariant of sharing, over the page tables and the membership of processes in the sets, and
-- the three changes of both that the code makes.
use k_panic.Base.{ℕ, ◌≡◌, ◌≢◌, ◌⊎◌, Bool, true, false, Option, none, some, arith}
use k_panic.CowManager.{PageTableEntry, set_entry}

abbrev pub frame_of : Option PageTableEntry → Option ℕ
frame_of none = none
frame_of (some e) = some e.page_ppn

-- Two entries with one page stand at the same virtual page of two processes, are read-only, and
-- their processes are in the page's set. A process in the set of a page has it where the others do.
pub record IsShared (t : ℕ → ℕ → Option PageTableEntry) (member : ℕ → ℕ → Bool) : Type 0 where
  pub apart :
      (p v q w : ℕ) (e f : PageTableEntry)
      → t p v ≡ some e
      → t q w ≡ some f
      → e.page_ppn ≡ f.page_ppn
      → (p ≢ q) ⊎ (v ≢ w)
      → (v ≡ w) × (member e.page_ppn p ≡ true) × (e.writeable ≡ false)
  pub meet :
      (p v q : ℕ) (e : PageTableEntry)
      → t p v ≡ some e
      → member e.page_ppn q ≡ true
      → (member e.page_ppn p ≡ true) × (frame_of (t q v) ≡ some e.page_ppn)

module _ {t : ℕ → ℕ → Option PageTableEntry} {member : ℕ → ℕ → Bool} (i : IsShared t member)
    (p v : ℕ) (e : PageTableEntry) (here : t p v ≡ some e) where
  -- The page is the process's own: it becomes writeable where it is.
  pub keep-IsShared :
      (member' : ℕ → ℕ → Bool) (e' : PageTableEntry)
      → e'.page_ppn ≡ e.page_ppn
      → ((q : ℕ) → member e.page_ppn q ≡ true → q ≡ p)
      → ((q : ℕ) → member' e.page_ppn q ≡ false)
      → ((k q : ℕ) → k ≢ e.page_ppn → member' k q ≡ member k q)
      → IsShared (set_entry t p v e') member'
  unfolding set_entry
  keep-IsShared member' e' same only gone rest = record {
    apart = λ a w b x f g hf hg eq ne. ground (
      arith,
      i.apart a w p v f e,
      i.apart b x p v g e,
      i.apart a w b x f g,
      only a,
      only b,
      rest f.page_ppn a,
      here,
    );
    meet = λ a w q f hf m. ground (
      arith,
      i.apart a w p v f e,
      i.meet a w q f,
      only a,
      gone q,
      rest f.page_ppn q,
      rest f.page_ppn a,
      here,
    );
  }

  -- The process gets a page that no entry names.
  pub move-IsShared :
      (member' : ℕ → ℕ → Bool) (e' : PageTableEntry)
      → ((q w : ℕ) (f : PageTableEntry) → t q w ≡ some f → f.page_ppn ≢ e'.page_ppn)
      → ((q : ℕ) → member e'.page_ppn q ≡ false)
      → member' e.page_ppn p ≡ false
      → ((k q : ℕ) → (k ≢ e.page_ppn) ⊎ (q ≢ p) → member' k q ≡ member k q)
      → IsShared (set_entry t p v e') member'
  unfolding set_entry
  move-IsShared member' e' unused unshared out rest = record {
    apart = λ a w b x f g hf hg eq ne. ground (
      arith,
      i.apart a w p v f e,
      i.apart a w b x f g,
      unused a w f,
      unused b x g,
      rest f.page_ppn a,
      here,
    );
    meet = λ a w q f hf m. ground (
      arith,
      i.apart a w p v f e,
      i.meet a w q f,
      unused a w f,
      unshared q,
      unused p v e,
      rest f.page_ppn q,
      rest f.page_ppn a,
      rest e'.page_ppn q,
      here,
    );
  }

  -- Another process gets the same page at the same virtual page, where it has none.
  pub share-IsShared :
      (c : ℕ) (member' : ℕ → ℕ → Bool) (e' : PageTableEntry)
      → t c v ≡ none
      → e'.page_ppn ≡ e.page_ppn
      → e'.writeable ≡ false
      → member' e.page_ppn p ≡ true
      → member' e.page_ppn c ≡ true
      → ((k q : ℕ) → (k ≢ e.page_ppn) ⊎ (p ≢ q) × (c ≢ q) → member' k q ≡ member k q)
      → IsShared (set_entry (set_entry t c v e') p v e') member'
  unfolding set_entry
  share-IsShared c member' e' none_yet same ro inp inc rest = record {
    apart = λ a w b x f g hf hg eq ne. ground (
      arith,
      i.apart a w p v f e,
      i.apart b x p v g e,
      i.apart p v b x e g,
      i.apart a w b x f g,
      rest f.page_ppn a,
      here,
    );
    meet = λ a w q f hf m. ground (
      arith,
      i.apart a w p v f e,
      i.meet a w q f,
      i.meet p v q e,
      rest f.page_ppn q,
      rest f.page_ppn a,
      rest e.page_ppn q,
      here,
    );
  }

-- ===== src/PageManager/Reserve.antt =====
-- What `reservePages` and the loops of `allocPPN` and `freePPN` do to the table of pages.
use k_panic.Base.{
  ℕ, zero, suc, ◌+◌, ◌%◌, ◌≤◌, ◌<◌, ◌==◌, ◌≡◌, refl, ◌∙◌, Bool, true, false, ◌&&◌, ◌||◌, not, ltb,
  leb, arith, if◌then◌else◌, Bool-cases, inl, inr,
}
use k_panic.Bitmap.{Bitmap, get_bit, set_bit}
use k_panic.Bitmap.Bits.{IsTable, get_bit-set_bit, IsTable-set_bit}
use k_panic.PageManager.{reserve_pages}

abbrev pub between : ℕ → ℕ → ℕ → Bool
between p k j = leb p j && ltb j (p + k)

-- What a try to reserve the `k` pages from `p` on leaves: all of them, which were free, or nothing
-- changed.
pub record Reserved (n p k : ℕ) (b : Bitmap) (out : Bool × Bitmap) : Type 0 where
  pub table : IsTable out.1
  pub size : out.1.size ≡ b.size
  pub bits : (j : ℕ) → get_bit out.1 j ≡ (if out.0 && between p k j then true else get_bit b j)
  pub free : out.0 ≡ true → (j : ℕ) → between p k j ≡ true → get_bit b j ≡ false
  pub inside : out.0 ≡ true → p + k ≤ n

one_page : (p j : ℕ) → between p 1 j ≡ (p == j)
one_page p j = ground arith

more_pages : (p k j : ℕ) → between p (suc k) j ≡ ((p == j) || between (p + 1) k j)
more_pages p k j = ground arith

-- The first page is taken last, behind the others.
Reserved-more :
    (n p k : ℕ) (b : Bitmap) {out : Bool × Bitmap}
    → Reserved n (p + 1) k b out
    → n ≤ b.size
    → out.0 ≡ true
    → p < n
    → get_bit b p ≡ false
    → Reserved n p (suc k) b (true, (set_bit out.1 p).1)
Reserved-more n p k b {out} r h d lt e = record {
  table = (IsTable-set_bit out.1 p r.table).0;
  size = (IsTable-set_bit out.1 p r.table).1 ∙ r.size;
  bits = λ j. ground (
    arith,
    (get_bit-set_bit out.1 p j r.table (omega (arith, r.size))).1,
    r.bits j,
    more_pages p k j,
  );
  free = λ _ j hj. ground (arith, r.free d j, more_pages p k j);
  inside = λ _. omega (arith, r.inside d);
}

Reserved-fail :
    (n p k : ℕ) (b : Bitmap) {out : Bool × Bitmap}
    → Reserved n (p + 1) k b out
    → out.0 ≡ false
    → Reserved n p (suc k) b (false, out.1)
Reserved-fail n p k b {out} r d = record {
  table = r.table;
  size = r.size;
  bits = λ j. ground (arith, r.bits j);
  free = λ x j hj. absurd (ground arith);
  inside = λ x. absurd (ground arith);
}

pub reserve_pages-Reserved :
    (n : ℕ) (b : Bitmap) (p more : ℕ)
    → IsTable b
    → n ≤ b.size
    → Reserved n p (suc more) b (reserve_pages n b p more)
unfolding reserve_pages
reserve_pages-Reserved n b p zero t h = elim (Bool-cases (ltb p n && not (get_bit b p))) [
  | inl e ↦ rw e (record {
    table = (IsTable-set_bit b p t).0;
    size = (IsTable-set_bit b p t).1;
    bits = λ j. ground (arith, (get_bit-set_bit b p j t (ground arith)).1, one_page p j);
    free = λ _ j hj. ground (arith, one_page p j);
    inside = λ _. ground arith;
  })
  | inr e ↦ rw e (record {
    table = t;
    size = refl;
    bits = λ j. refl;
    free = λ x j hj. absurd (ground arith);
    inside = λ x. absurd (ground arith);
  })
]
reserve_pages-Reserved n b p (suc more) t h =
    let ih = reserve_pages-Reserved n b (p + 1) more t h in
    let (done, b') = reserve_pages n b (p + 1) more in
    elim (Bool-cases (ltb p n && not (get_bit b p))) [
      | inl e ↦ elim (Bool-cases done) [
        | inl d ↦ rw (e, d) (Reserved-more n p (suc more) b ih h d (ground arith) (ground arith))
        | inr d ↦ rw (e, d) (Reserved-fail n p (suc more) b ih d)
      ]
      | inr e ↦ rw e (record {
        table = t;
        size = refl;
        bits = λ j. refl;
        free = λ x j hj. absurd (ground arith);
        inside = λ x. absurd (ground arith);
      })
    ]

-- The pages that are asked for are there: aligned, inside, and all free.
abbrev pub IsFree : ℕ → ℕ → Bitmap → ℕ → Type 0
IsFree n k b q = (q % k ≡ 0) × (q + k ≤ n) × ((j : ℕ) → between q k j ≡ true → get_bit b j ≡ false)

-- Pages that are free are reserved.
pub reserve_pages_free :
    (n : ℕ) (b : Bitmap) (p more : ℕ)
    → p + suc more ≤ n
    → ((j : ℕ) → between p (suc more) j ≡ true → get_bit b j ≡ false)
    → (reserve_pages n b p more).0 ≡ true
unfolding reserve_pages
reserve_pages_free n b p zero h free = ground (arith, free p (ground arith))
reserve_pages_free n b p (suc more) h free =
    let ih = reserve_pages_free n b (p + 1) more (omega arith) (λ j hj. free j (ground arith)) in
    ground (arith, free p (ground arith), ih)

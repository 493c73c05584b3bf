-- ===== src/UserProcess/Tid.antt =====
-- `allocNextFreeTID`: the loop ends at a number that no thread of the list has.
use k_panic.Base.{
  ℕ, zero, suc, [], ◌∷◌, ◌+◌, ◌%◌, ◌^◌, ◌≤◌, ◌<◌, ◌≡◌, refl, true, false, length, arith, Bool-cases,
  inl, inr,
}
use k_panic.Base.AssocMap.{
  AssocMap, erase, contains, contains-erase, contains-none, length-erase-lt,
}
use k_panic.UserProcess.{Thread, next_free}

-- Every number from `n` on that `ts` has stands in `r`.
abbrev Above : AssocMap Thread → AssocMap Thread → ℕ → Type 0
Above r ts n = (x : ℕ) → n ≤ x → contains x ts ≡ true → contains x r ≡ true

length-erase-contains :
    (k : ℕ) (r : AssocMap Thread) → contains k r ≡ true → length (erase k r) < length r
length-erase-contains k r h = length-erase-lt k r (λ e. let f = contains-none k r e in cc)

next_free_fresh :
    (fuel : ℕ) (ts r : AssocMap Thread) (n : ℕ)
    → length r ≤ fuel
    → n + fuel < 2 ^ 64
    → Above r ts n
    → (contains (next_free fuel ts n) ts ≡ false) × (n ≤ next_free fuel ts n)
unfolding next_free
next_free_fresh zero ts [] n h low above = (
  elim (Bool-cases (contains n ts)) [
    | inl e ↦ let f = above n (omega arith) e in unfold contains in cc
    | inr e ↦ e
  ],
  omega arith,
)
next_free_fresh zero ts (x ∷ r) n h low above = elim h [ ]
next_free_fresh (suc fuel) ts r n h low above = elim (Bool-cases (contains n ts)) [
  | inl e ↦
      let next : (n + 1) % 2 ^ 64 ≡ n + 1 = omega (arith, low) in
      rw (e, next)
        (let (a, b) =
            next_free_fresh fuel ts (erase n r) (n + 1)
              (omega (arith, length-erase-contains n r (above n (omega arith) e)))
              (omega (arith, low))
              (λ x le k. ground (arith, contains-erase n x r, above x (omega arith) k)) in
          (a, omega arith))
  | inr e ↦ rw e (e, omega arith)
]

-- `allocNextFreeTID` ends within one round for each thread where it does not wrap round in these, and
-- gives a number that is not below `next_tid_` and that no thread of the process has.
next_free_lem :
    (ts : AssocMap Thread) (n : ℕ)
    → n + length ts < 2 ^ 64
    → (contains (next_free (length ts) ts n) ts ≡ false) × (n ≤ next_free (length ts) ts n)
next_free_lem ts n low = next_free_fresh (length ts) ts ts n (omega arith) low (λ x _ k. k)

-- Where no thread has the number `next_tid_`, it is the one that is given.
pub next_free-here :
    (fuel : ℕ) (ts : AssocMap Thread) (n : ℕ) → contains n ts ≡ false → next_free fuel ts n ≡ n
unfolding next_free
next_free-here zero ts n free = refl
next_free-here (suc fuel) ts n free = ground (arith, free)

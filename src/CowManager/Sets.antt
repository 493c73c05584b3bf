-- ===== src/CowManager/Sets.antt =====
-- The sets of `cow_map_` and the entries of the page tables, by what is read from them.
use k_panic.Base.{
  ℕ, ◌+◌, ◌≤◌, ◌<◌, ◌==◌, ◌≡◌, ◌≢◌, refl, ◌&&◌, ◌||◌, true, false, List, [], ◌∷◌, if◌then◌else◌,
  arith,
}
use k_panic.Base.AssocMap.{AssocMap, insert, lookup-insert}
use k_panic.CowManager.{set_contains, set_insert, set_erase, sharers}

pub set_contains-erase :
    (p q : ℕ) (l : List ℕ) → p ≢ q → set_contains q (set_erase p l) ≡ set_contains q l
unfolding set_contains set_erase
set_contains-erase p q [] ne = refl
set_contains-erase p q (a ∷ l) ne = ground (arith, set_contains-erase p q l ne)

pub set_contains-insert :
    (p q : ℕ) (l : List ℕ)
    → set_contains q (set_insert p l) ≡ (if p == q then true else set_contains q l)
unfolding set_contains set_insert
set_contains-insert p q [] = ground arith
set_contains-insert p q (a ∷ l) = ground (arith, set_contains-insert p q l)

pub sharers-insert :
    (k j : ℕ) (l : List ℕ) (m : AssocMap (List ℕ))
    → sharers (insert k l m) j ≡ (if k == j then l else sharers m j)
unfolding sharers
sharers-insert k j l m = ground (arith, lookup-insert k j l m)

-- A list in order without duplicates, of numbers from `n` on.
abbrev pub Ascending : ℕ → List ℕ → Type 0
Ascending n [] = Unit
Ascending n (a ∷ l) = (n ≤ a) × Ascending (a + 1) l

pub Ascending-weaken : (m n : ℕ) (l : List ℕ) → m ≤ n → Ascending n l → Ascending m l
Ascending-weaken m n [] h k = tt
Ascending-weaken m n (a ∷ l) h (k, r) = (omega arith, r)

pub set_insert-Ascending :
    (n p : ℕ) (l : List ℕ) → n ≤ p → Ascending n l → Ascending n (set_insert p l)
unfolding set_insert
set_insert-Ascending n p [] h k = (h, tt)
set_insert-Ascending n p (a ∷ l) h (k, r) = ground (arith, set_insert-Ascending (a + 1) p l)

pub set_erase-Ascending : (n p : ℕ) (l : List ℕ) → Ascending n l → Ascending n (set_erase p l)
unfolding set_erase
set_erase-Ascending n p [] k = tt
set_erase-Ascending n p (a ∷ l) (k, r) =
    ground (arith, set_erase-Ascending (a + 1) p l, Ascending-weaken n (a + 1) l)

pub set_contains-below : (n p : ℕ) (l : List ℕ) → p < n → Ascending n l → set_contains p l ≡ false
unfolding set_contains
set_contains-below n p [] h k = refl
set_contains-below n p (a ∷ l) h (k, r) = ground (arith, set_contains-below (a + 1) p l)

pub set_contains-erase_self :
    (n p : ℕ) (l : List ℕ) → Ascending n l → set_contains p (set_erase p l) ≡ false
unfolding set_contains set_erase
set_contains-erase_self n p [] k = refl
set_contains-erase_self n p (a ∷ l) (k, r) =
    ground (arith, set_contains-erase_self (a + 1) p l, set_contains-below (a + 1) p l)

pub Ascending-sharers :
    (k : ℕ) (l : List ℕ) (m : AssocMap (List ℕ))
    → ((j : ℕ) → Ascending 0 (sharers m j))
    → Ascending 0 l
    → (j : ℕ) → Ascending 0 (sharers (insert k l m) j)
Ascending-sharers k l m all h j = ground (arith, sharers-insert k j l m, all j)

-- Who is in the set of a page after one process was taken out of one.
pub set_contains-sharers-erase :
    (k p j q : ℕ) (m : AssocMap (List ℕ))
    → Ascending 0 (sharers m k)
    → set_contains q (sharers (insert k (set_erase p (sharers m k)) m) j)
      ≡ (if (k == j) && (p == q) then false else set_contains q (sharers m j))
set_contains-sharers-erase k p j q m h = ground (
  arith,
  sharers-insert k j (set_erase p (sharers m k)) m,
  set_contains-erase p q (sharers m k),
  set_contains-erase_self 0 p (sharers m k) h,
)

-- Who is in the set of a page after two processes were put into one.
pub set_contains-sharers-insert :
    (k p c j q : ℕ) (m : AssocMap (List ℕ))
    → set_contains q (sharers (insert k (set_insert c (set_insert p (sharers m k))) m) j)
      ≡ (if (k == j) && ((p == q) || (c == q)) then true else set_contains q (sharers m j))
set_contains-sharers-insert k p c j q m = ground (
  arith,
  sharers-insert k j (set_insert c (set_insert p (sharers m k))) m,
  set_contains-insert c q (set_insert p (sharers m k)),
  set_contains-insert p q (sharers m k),
)

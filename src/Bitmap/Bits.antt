-- ===== src/Bitmap/Bits.antt =====
-- What setting and clearing a bit does to every bit of the table.
use k_panic.Base.{
  ℕ, zero, suc, ◌+◌, ◌-◌, ◌*◌, ◌/◌, ◌%◌, ◌≤◌, ◌<◌, ◌==◌, ◌≡◌, ◌∙◌, ap, true, false, not, List, [],
  ◌∷◌, length, get_or, set, arith, if◌then◌else◌, length-set,
}
use k_panic.Bitmap.{Bitmap, mask, bit, get_bit, set_bit, unset_bit}

pub bit-le : (x i : ℕ) → bit x i ≤ 1
unfolding bit
bit-le x zero = omega arith
bit-le x (suc i) = bit-le (x / 2) i

-- Adding the mask of a bit that is clear sets it, and changes no other.
pub bit-add : (x i j : ℕ) → bit x i ≡ 0 → bit (x + mask i) j ≡ (if i == j then 1 else bit x j)
unfolding bit mask
bit-add x zero zero h = ground arith
bit-add x zero (suc j) h =
    ap (λ y. bit y j) {x = (x + 1) / 2} {y = x / 2} (omega arith) ∙ ground arith
bit-add x (suc i) zero h = ground arith
bit-add x (suc i) (suc j) h =
    ap (λ y. bit y j) {x = (x + 2 * mask i) / 2} {y = x / 2 + mask i} (omega arith)
    ∙ (bit-add (x / 2) i j h ∙ ground arith)

pub mask-le : (x i : ℕ) → bit x i ≡ 1 → mask i ≤ x
unfolding bit mask
mask-le x zero h = omega arith
mask-le x (suc i) h = omega (arith, mask-le (x / 2) i h)

-- Taking the mask of a bit that is set clears it, and changes no other.
pub bit-sub : (x i j : ℕ) → bit x i ≡ 1 → bit (x - mask i) j ≡ (if i == j then 0 else bit x j)
unfolding bit mask
bit-sub x zero zero h = ground arith
bit-sub x zero (suc j) h =
    ap (λ y. bit y j) {x = (x - 1) / 2} {y = x / 2} (omega arith) ∙ ground arith
bit-sub x (suc i) zero h = ground (arith, mask-le (x / 2) i)
bit-sub x (suc i) (suc j) h =
    ap (λ y. bit y j) {x = (x - 2 * mask i) / 2} {y = x / 2 - mask i} (omega arith)
    ∙ (bit-sub (x / 2) i j h ∙ ground arith)

pub get_or-set :
    (l : List ℕ) (i j v : ℕ)
    → i < length l
    → get_or (set l i v) j 0 ≡ (if i == j then v else get_or l j 0)
get_or-set [] i j v h = elim h [ ]
get_or-set (x ∷ l) zero zero v h = ground arith
get_or-set (x ∷ l) zero (suc j) v h = ground arith
get_or-set (x ∷ l) (suc i) zero v h = ground arith
get_or-set (x ∷ l) (suc i) (suc j) v h = ground (arith, get_or-set l i j v (omega arith))

-- The table has a byte for every bit.
abbrev pub IsTable : Bitmap → Type 0
IsTable b = b.size ≤ 8 * length b.bitmap

-- In a table with a byte for every bit, `setBit` at an index inside sets its bit and no other, and
-- tells whether it was clear.
pub get_bit-set_bit :
    (b : Bitmap) (n k : ℕ)
    → IsTable b
    → n < b.size
    → ((set_bit b n).0 ≡ not (get_bit b n))
      × (get_bit (set_bit b n).1 k ≡ (if n == k then true else get_bit b k))
unfolding set_bit get_bit
get_bit-set_bit b n k t h =
    let x = get_or b.bitmap (n / 8) 0 in
    (
      ground arith,
      ground (
        arith,
        bit-le x (n % 8),
        get_or-set b.bitmap (n / 8) (k / 8) (x + mask (n % 8)) (omega arith),
        bit-add x (n % 8) (k % 8),
      ),
    )

-- In a table with a byte for every bit, `unsetBit` at an index inside clears its bit and no other,
-- and tells whether it was set.
pub get_bit-unset_bit :
    (b : Bitmap) (n k : ℕ)
    → IsTable b
    → n < b.size
    → ((unset_bit b n).0 ≡ get_bit b n)
      × (get_bit (unset_bit b n).1 k ≡ (if n == k then false else get_bit b k))
unfolding unset_bit get_bit
get_bit-unset_bit b n k t h =
    let x = get_or b.bitmap (n / 8) 0 in
    (
      ground arith,
      ground (
        arith,
        get_or-set b.bitmap (n / 8) (k / 8) (x - mask (n % 8)) (omega arith),
        bit-sub x (n % 8) (k % 8),
      ),
    )

pub IsTable-set_bit :
    (b : Bitmap) (n : ℕ) → IsTable b → IsTable (set_bit b n).1 × ((set_bit b n).1.size ≡ b.size)
unfolding set_bit
IsTable-set_bit b n t = (
  ground (arith, length-set b.bitmap (n / 8) (get_or b.bitmap (n / 8) 0 + mask (n % 8))),
  ground arith,
)

pub IsTable-unset_bit :
    (b : Bitmap) (n : ℕ) → IsTable b → IsTable (unset_bit b n).1 × ((unset_bit b n).1.size ≡ b.size)
unfolding unset_bit
IsTable-unset_bit b n t = (
  ground (arith, length-set b.bitmap (n / 8) (get_or b.bitmap (n / 8) 0 - mask (n % 8))),
  ground arith,
)

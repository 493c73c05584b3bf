-- ===== src/Bitmap/Count.antt =====
-- The number of bits that are set: `num_bits_set_` is always right.
use k_panic.Base.{
  ℕ, zero, suc, ◌+◌, ◌-◌, ◌*◌, ◌/◌, ◌%◌, ◌≤◌, ◌<◌, ◌==◌, ◌≡◌, refl, sym, ap, List, [], ◌∷◌, length,
  get_or, set, arith, if◌then◌else◌, ltb, replicate, length-replicate, length-set, Bool-cases, inl,
  inr,
}
use k_panic.Bitmap.{Bitmap, mask, bit, create, get_bit, set_bit, unset_bit, bit_count, set_byte}
use k_panic.Bitmap.Bits.{IsTable, bit-le, mask-le}

-- The bits set in all bytes of a table.
unfoldable pub total : List ℕ → ℕ
unfolding bit_count
total [] = 0
total (x ∷ l) = bit_count 8 x + total l

bit_count-add : (n x i : ℕ) → i < n → bit x i ≡ 0 → bit_count n (x + mask i) ≡ bit_count n x + 1
unfolding bit_count bit mask
bit_count-add zero x i h e = elim h [ ]
bit_count-add (suc n) x zero h e =
    let s : bit_count n ((x + 1) / 2) ≡ bit_count n (x / 2) = ap (bit_count n) (omega arith) in
    omega arith
bit_count-add (suc n) x (suc i) h e =
    let s : bit_count n ((x + 2 * mask i) / 2) ≡ bit_count n (x / 2 + mask i) =
      ap (bit_count n) (omega arith) in
    omega (arith, bit_count-add n (x / 2) i (omega arith) e)

bit_count-sub : (n x i : ℕ) → i < n → bit x i ≡ 1 → bit_count n (x - mask i) + 1 ≡ bit_count n x
unfolding bit_count bit mask
bit_count-sub zero x i h e = elim h [ ]
bit_count-sub (suc n) x zero h e =
    let s : bit_count n ((x - 1) / 2) ≡ bit_count n (x / 2) = ap (bit_count n) (omega arith) in
    omega arith
bit_count-sub (suc n) x (suc i) h e =
    let s : bit_count n ((x - 2 * mask i) / 2) ≡ bit_count n (x / 2 - mask i) =
      ap (bit_count n) (omega arith) in
    omega (arith, bit_count-sub n (x / 2) i (omega arith) e, mask-le (x / 2) i e)

total-set :
    (l : List ℕ) (i v : ℕ)
    → i < length l
    → total (set l i v) + bit_count 8 (get_or l i 0) ≡ total l + bit_count 8 v
unfolding total
total-set [] i v h = elim h [ ]
total-set (x ∷ l) zero v h = omega arith
total-set (x ∷ l) (suc i) v h = omega (arith, total-set l i v (omega arith))

total-replicate : (n : ℕ) → total (replicate n 0) ≡ 0
unfolding total bit_count
total-replicate zero = refl
total-replicate (suc n) = ground (arith, total-replicate n)

-- A bitmap as its operations leave it: a byte for every bit, and the count right.
pub record IsCounted (b : Bitmap) : Type 0 where
  pub table : IsTable b
  pub count : b.num_bits_set ≡ total b.bitmap

le-total : (l : List ℕ) (i : ℕ) → bit_count 8 (get_or l i 0) ≤ total l
unfolding total bit_count
le-total [] i = omega arith
le-total (x ∷ l) zero = omega arith
le-total (x ∷ l) (suc i) = omega (arith, le-total l i)

create-IsCounted : (n : ℕ) → IsCounted (create n)
unfolding create
create-IsCounted n =
    let bytes = n / 8 + (if ltb 0 (n % 8) then 1 else 0) in
    record {
      table = ground (arith, length-replicate bytes zero);
      count = sym (total-replicate bytes);
    }

-- Every operation on the table keeps the count right: `setBit`, `unsetBit` and `setByte` inside a
-- table whose count is the number of its bits that are set leave one with the same property, and a
-- new table has it.
pub bitmap-IsCounted :
    (b : Bitmap) (n byte : ℕ)
    → IsCounted b
    → n < b.size
    → IsCounted (set_bit b n).1
      × IsCounted (unset_bit b n).1
      × IsCounted (set_byte b (n / 8) byte)
      × IsCounted (create n)
unfolding set_bit unset_bit set_byte get_bit
bitmap-IsCounted b n byte c h =
    let l = b.bitmap in
    let i = n / 8 in
    let x = get_or l i 0 in
    let t = c.table in
    let inside : i < length l = omega arith in
    (
      elim (Bool-cases (bit x (n % 8) == 1)) [
        | inl e ↦ rw e c
        | inr e ↦ rw e (record {
          table = omega (arith, length-set l i (x + mask (n % 8)));
          count = omega (
            arith,
            c.count,
            total-set l i (x + mask (n % 8)) inside,
            bit_count-add 8 x (n % 8) (omega arith) (ground (arith, bit-le x (n % 8))),
          );
        })
      ],
      elim (Bool-cases (bit x (n % 8) == 1)) [
        | inr e ↦ rw e c
        | inl e ↦ rw e (record {
          table = omega (arith, length-set l i (x - mask (n % 8)));
          count = omega (
            arith,
            c.count,
            total-set l i (x - mask (n % 8)) inside,
            bit_count-sub 8 x (n % 8) (omega arith) (ground arith),
          );
        })
      ],
      record {
        table = omega (arith, length-set l i byte);
        count = omega (arith, c.count, total-set l i byte inside, le-total l i);
      },
      create-IsCounted n,
    )

-- ===== src/MinixStorageManager/Alloc.antt =====
-- What `allocZone` and `allocInode` take.
use mathlib.Core.Path.{subst}
use k_panic.Base.{
  ℕ, suc, ◌+◌, ◌-◌, ◌≤◌, ◌<◌, ◌==◌, ◌≡◌, ◌≢◌, ap, sym, ◌∙◌, true, false, inl, inr, arith, ltb,
  if◌then◌else◌, ℕ_discrete,
}
use k_panic.Bitmap.{Bitmap, get_bit, set_bit}
use k_panic.Bitmap.Bits.{IsTable, get_bit-set_bit, IsTable-set_bit}
use k_panic.MinixStorageManager.{
  StorageManager, AllocResult, takes, assertion_fails, runs_on, SearchResult, clear_at,
  still_searching, search_zone, search_inode, alloc_zone, alloc_inode, take_zone, take_inode,
}
use k_panic.MinixStorageManager.Search.{
  circle, FirstClear, AllSet, Outcome, finds, finds_none, search_zone-Outcome,
  search_inode-search_zone, search_inode_endless, search_inode-first,
}

-- `p` is the first clear bit of `b` in the circle behind `curr`, and `b'` is `b` with it set.
pub record Takes (b b' : Bitmap) (curr p : ℕ) : Type 0 where
  pub inside : p < b.size
  pub was_clear : get_bit b p ≡ false
  pub same_size : b'.size ≡ b.size
  pub one_more : b'.num_bits_set ≡ b.num_bits_set + 1
  pub takes_it : (q : ℕ) → get_bit b' q ≡ (if p == q then true else get_bit b q)
  pub steps : ℕ
  pub place : p ≡ circle b.size curr steps
  pub others_set : (i : ℕ) → i < steps → get_bit b (circle b.size curr i) ≡ true

set_bit_counts :
    (b : Bitmap) (p : ℕ) → get_bit b p ≡ false → (set_bit b p).1.num_bits_set ≡ b.num_bits_set + 1
unfolding set_bit
set_bit_counts b p clear = ground arith

taking :
    (b : Bitmap) (curr n p : ℕ)
    → IsTable b
    → curr < b.size
    → n ≤ b.size
    → FirstClear b curr 0 n p
    → Takes b (set_bit b p).1 curr p
taking b curr n p t h l f =
    let here : p < b.size =
      let place = f.place in let range = f.in_range in ground (arith, place, range) in
    record {
      inside = here;
      was_clear = f.is_clear;
      same_size = (IsTable-set_bit b p t).1;
      one_more = set_bit_counts b p f.is_clear;
      takes_it = λ q. (get_bit-set_bit b p q t here).1;
      steps = f.steps;
      place = f.place ∙ ap (circle b.size curr) (omega arith);
      others_set =
          λ i j. ap (λ k. get_bit b (circle b.size curr k)) (omega arith) ∙ f.others_set i j;
    }

-- The bits that the circle passes are all the bits but the one it starts behind.
others_full :
    (b : Bitmap) (curr n : ℕ)
    → AllSet b curr 0 n
    → curr < b.size
    → suc n ≡ b.size
    → (q : ℕ) → q < b.size
    → q ≢ curr
    → get_bit b q ≡ true
unfolding AllSet
others_full b curr n all h l q inside other =
    let k = if ltb curr q then q - curr - 1 else q + b.size - curr - 1 in
    let place : circle b.size curr (0 + k) ≡ q = ground arith in
    ap (get_bit b) (sym place) ∙ all k (ground arith)

-- How `alloc_zone` ends: it takes a zone, with the table of the zones and the zone taken last as all
-- that changes, or its assertion fails. It does not run on.
pub data ZoneResult (m : StorageManager) : AllocResult → Type 0 where
  takes_zone :
      (b : Bitmap) (p : ℕ)
      → Takes m.zone_bitmap b m.curr_zone_pos p
      → ZoneResult m (takes (record m { zone_bitmap = b; curr_zone_pos = p }) p)
  zones_full :
      ((q : ℕ) → q < m.zone_bitmap.size → q ≢ m.curr_zone_pos → get_bit m.zone_bitmap q ≡ true)
      → ZoneResult m assertion_fails

zone_result :
    (m : StorageManager) (n : ℕ) (r : SearchResult)
    → IsTable m.zone_bitmap
    → m.curr_zone_pos < m.zone_bitmap.size
    → suc n ≡ m.zone_bitmap.size
    → Outcome m.zone_bitmap m.curr_zone_pos 0 n r
    → ZoneResult m (take_zone m r)
zone_result m n _ t h l (finds p f) =
    takes_zone _ p (taking m.zone_bitmap m.curr_zone_pos n p t h (omega (arith, l)) f)
zone_result m n _ t h l (finds_none all) =
    zones_full (others_full m.zone_bitmap m.curr_zone_pos n all h l)

search_from :
    (b : Bitmap) (curr n : ℕ)
    → curr < b.size
    → suc n ≡ b.size
    → Outcome b curr 0 n (search_zone (b.size + 1) b curr (curr + 1))
search_from b curr n h l =
    subst (λ x. Outcome b curr 0 n (search_zone (b.size + 1) b curr x)) (ground arith)
      (search_zone-Outcome (b.size + 1) curr 0 n b (omega (arith, l)) h (omega (arith, l)))

-- `alloc_zone` ends within one turn more than there are zones. It takes the first clear zone in the
-- circle behind the zone it took last, and changes only the bit of that zone, the number of bits
-- that are set and the zone taken last; or its assertion fails, where every zone but the one taken
-- last is in use. The table holds all its bits, and the zone taken last is in it.
pub alloc_zone-ZoneResult :
    (m : StorageManager)
    → IsTable m.zone_bitmap
    → m.curr_zone_pos < m.zone_bitmap.size
    → ZoneResult m (alloc_zone m)
unfolding alloc_zone
alloc_zone-ZoneResult m t h =
    let n = m.zone_bitmap.size - 1 in
    zone_result m n _ t h (omega (arith, h))
      (search_from m.zone_bitmap m.curr_zone_pos n h (omega (arith, h)))

-- How `alloc_inode` ends on fuel for one turn more than there are inodes; `endless` is on any fuel.
pub data InodeResult (m : StorageManager) : Type 0 where
  takes_inode :
      (b : Bitmap) (p : ℕ)
      → alloc_inode (m.inode_bitmap.size + 1) m
        ≡ takes (record m { inode_bitmap = b; curr_inode_pos = p }) p
      → Takes m.inode_bitmap b m.curr_inode_pos p
      → InodeResult m
  inodes_full :
      m.curr_inode_pos ≢ 0
      → alloc_inode (m.inode_bitmap.size + 1) m ≡ assertion_fails
      → ((q : ℕ) → q < m.inode_bitmap.size → q ≢ m.curr_inode_pos → get_bit m.inode_bitmap q ≡ true)
      → InodeResult m
  endless :
      m.curr_inode_pos ≡ 0
      → ((q : ℕ) → q < m.inode_bitmap.size → get_bit m.inode_bitmap q ≡ true)
      → ((fuel : ℕ) → alloc_inode fuel m ≡ runs_on)
      → InodeResult m

inode_end :
    (m : StorageManager) (n : ℕ) (r : SearchResult)
    → IsTable m.inode_bitmap
    → m.curr_inode_pos < m.inode_bitmap.size
    → suc n ≡ m.inode_bitmap.size
    → m.curr_inode_pos ≢ 0
    → search_inode (m.inode_bitmap.size + 1) m.inode_bitmap m.curr_inode_pos (m.curr_inode_pos + 1)
      ≡ r
    → Outcome m.inode_bitmap m.curr_inode_pos 0 n r
    → InodeResult m
unfolding alloc_inode
inode_end m n _ t h l z e (finds p f) =
    takes_inode _ p (ap (take_inode m) e)
      (taking m.inode_bitmap m.curr_inode_pos n p t h (omega (arith, l)) f)
inode_end m n _ t h l z e (finds_none all) =
    inodes_full z (ap (take_inode m) e) (others_full m.inode_bitmap m.curr_inode_pos n all h l)

-- All the bits in the circle behind 0.
all_full :
    (b : Bitmap) → AllSet b 0 0 b.size → 0 < b.size → (q : ℕ) → q < b.size → get_bit b q ≡ true
unfolding AllSet
all_full b all h q inside =
    let k = if q == 0 then b.size - 1 else q - 1 in
    let place : circle b.size 0 (0 + k) ≡ q = ground arith in
    ap (get_bit b) (sym place) ∙ all k (ground arith)

from_zero :
    (m : StorageManager)
    → m.curr_inode_pos ≡ 0
    → IsTable m.inode_bitmap
    → m.curr_inode_pos < m.inode_bitmap.size
    → InodeResult m
unfolding alloc_inode
from_zero m zero_pos t h =
    let b = m.inode_bitmap in
    let nonempty : 0 < b.size = omega (arith, h) in
    elim (search_inode-first (b.size + 1) 0 b.size b (omega arith) (omega arith)) [
      | inl all ↦
          let full = all_full b all nonempty in
          endless zero_pos full λ fuel. ap (take_inode m) (
            subst (λ c. search_inode fuel b c (c + 1) ≡ still_searching) (sym zero_pos)
              (search_inode_endless fuel 1 b nonempty (omega arith) full))
      | inr (p, (f, e)) ↦
          let at_start : search_inode (b.size + 1) b m.curr_inode_pos (m.curr_inode_pos + 1)
              ≡ clear_at p =
            subst (λ c. search_inode (b.size + 1) b c (c + 1) ≡ clear_at p) (sym zero_pos) e in
          takes_inode _ p (ap (take_inode m) at_start) (
            subst (λ c. Takes b (set_bit b p).1 c p) (sym zero_pos)
              (taking b 0 b.size p t nonempty (omega arith) f))
    ]

-- On one turn more than there are inodes `alloc_inode` takes the first clear inode in the circle
-- behind the inode it took last, and changes only the bit of that inode, the number of bits that are
-- set and the inode taken last; or its assertion fails, where every inode but the one taken last is
-- in use and that one is not 0; or, with the inode 0 taken last, as after a start, and all in use,
-- it runs on with any number of turns. The table holds all its bits, and the inode taken last is in
-- it.
pub alloc_inode-ends :
    (m : StorageManager)
    → IsTable m.inode_bitmap
    → m.curr_inode_pos < m.inode_bitmap.size
    → InodeResult m
unfolding alloc_inode AllSet
alloc_inode-ends m t h = elim (ℕ_discrete m.curr_inode_pos 0) [
  | yes zero_pos ↦ from_zero m zero_pos t h
  | no nonzero ↦
      let n = m.inode_bitmap.size - 1 in
      let same =
        search_inode-search_zone (m.inode_bitmap.size + 1) m.curr_inode_pos (m.curr_inode_pos + 1)
          m.inode_bitmap (omega (arith, nonzero)) in
      inode_end m n _ t h (omega (arith, h)) nonzero same
        (search_from m.inode_bitmap m.curr_inode_pos n h (omega (arith, h)))
]

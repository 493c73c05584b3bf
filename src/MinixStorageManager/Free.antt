-- ===== src/MinixStorageManager/Free.antt =====
-- What `freeZone` and `freeInode` give back, and which inodes are found afterwards.
use mathlib.Core.Path.{subst}
use k_panic.Base.{ℕ, ◌+◌, ◌<◌, ◌≡◌, ◌≢◌, ap, sym, ◌∙◌, true, false, some, arith}
use k_panic.Bitmap.{Bitmap, get_bit, unset_bit}
use k_panic.Bitmap.Bits.{IsTable, get_bit-unset_bit, IsTable-unset_bit}
use k_panic.MinixStorageManager.{
  StorageManager, AllocResult, assertion_fails, alloc_zone, free_zone, free_inode,
  get_num_used_inodes, inode_is_known,
}
use k_panic.MinixStorageManager.Alloc.{ZoneResult, takes_zone, zones_full, alloc_zone-ZoneResult}

some_zone_left :
    (m : StorageManager) (z : ℕ) (r : AllocResult)
    → z < m.zone_bitmap.size
    → z ≢ m.curr_zone_pos
    → get_bit m.zone_bitmap z ≡ false
    → ZoneResult m r
    → r ≢ assertion_fails
some_zone_left m z _ h other clear (takes_zone b p t) = λ e. cc
some_zone_left m z _ h other clear (zones_full full) =
    let used = full z h other in absurd (ground (arith, used))

one_less :
    (b : Bitmap) (i j : ℕ)
    → get_bit b j ≡ true
    → b.num_bits_set ≡ i + 1
    → (unset_bit b j).1.num_bits_set ≡ i
unfolding unset_bit
one_less b i j there count = ground arith

-- A zone that was given back is clear, and the next `alloc_zone` finds a zone, if the zone given back
-- is not the one that was taken last.
pub alloc_zone-free_zone :
    (m m' : StorageManager) (z : ℕ)
    → IsTable m.zone_bitmap
    → m.curr_zone_pos < m.zone_bitmap.size
    → free_zone m z ≡ some m'
    → z ≢ m.curr_zone_pos
    → (get_bit m'.zone_bitmap z ≡ false) × (alloc_zone m' ≢ assertion_fails)
unfolding free_zone
alloc_zone-free_zone m m' z t h e other =
    let inside : z < m.zone_bitmap.size = ground arith in
    let table : m'.zone_bitmap ≡ (unset_bit m.zone_bitmap z).1 = ground arith in
    let pos : m'.curr_zone_pos ≡ m.curr_zone_pos = ground arith in
    let (is_table, size) = IsTable-unset_bit m.zone_bitmap z t in
    let same_size : m'.zone_bitmap.size ≡ m.zone_bitmap.size = ap (λ b. b.size) table ∙ size in
    let clear : get_bit m'.zone_bitmap z ≡ false =
      ap (λ b. get_bit b z) table
      ∙ (get_bit-unset_bit m.zone_bitmap z z t inside).1
      ∙ ground arith in
    (
      clear,
      some_zone_left m' z _ (omega (arith, inside, same_size)) (λ x. other (x ∙ pos)) clear
          (alloc_zone-ZoneResult m' (subst IsTable (sym table) is_table)
            (omega (arith, pos, same_size, h))),
    )

-- When as many inodes are in use as their highest number and one more, and another inode is freed,
-- `inode_is_known` denies the one with the highest number, which is still in use.
pub inode_is_known-free_inode :
    (m m' : StorageManager) (i j : ℕ)
    → IsTable m.inode_bitmap
    → i < m.inode_bitmap.size
    → get_num_used_inodes m ≡ i + 1
    → get_bit m.inode_bitmap i ≡ true
    → get_bit m.inode_bitmap j ≡ true
    → i ≢ j
    → free_inode m j ≡ some m'
    → (get_bit m'.inode_bitmap i ≡ true) × (inode_is_known m' i ≡ some false)
unfolding free_inode inode_is_known
inode_is_known-free_inode m m' i j t inside count here there other e =
    let in_range : j < m.inode_bitmap.size = ground arith in
    let table : m'.inode_bitmap ≡ (unset_bit m.inode_bitmap j).1 = ground arith in
    let keeps : get_bit m'.inode_bitmap i ≡ true =
      ap (λ b. get_bit b i) table
      ∙ (get_bit-unset_bit m.inode_bitmap j i t in_range).1
      ∙ ground arith in
    let used : m'.inode_bitmap.num_bits_set ≡ i =
      ap (λ b. b.num_bits_set) table ∙ one_less m.inode_bitmap i j there count in
    (keeps, ground (arith, used))

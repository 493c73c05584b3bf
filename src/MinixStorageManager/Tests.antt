-- ===== src/MinixStorageManager/Tests.antt =====
-- A file system with ten inodes and twelve zones: two of each are in use.
use k_panic.Base.{
  ℕ, List, length, ◌+◌, ◌*◌, ◌/◌, ◌<◌, ◌≡◌, refl, true, false, some, [], ◌∷◌, arith, ltb,
  if◌then◌else◌,
}
use k_panic.Bitmap.{Bitmap, get_bit, set_bit, unset_bit, bit, mask}
use k_panic.MinixStorageManager.{
  StorageManager, takes, alloc_zone, free_zone, free_inode, inode_is_known, get_num_used_inodes,
  new_manager, flush,
}
use k_panic.MinixStorageManager.Alloc.{
  ZoneResult, InodeResult, alloc_zone-ZoneResult, alloc_inode-ends,
}
use k_panic.MinixStorageManager.Free.{inode_is_known-free_inode}
use k_panic.MinixStorageManager.Disk.{new_manager-flush}

abbrev ten_inodes : Bitmap
ten_inodes = record { size = 10; num_bits_set = 3; bitmap = 7 ∷ 0 ∷ [] }

abbrev twelve_zones : Bitmap
twelve_zones = record { size = 12; num_bits_set = 3; bitmap = 3 ∷ 8 ∷ [] }

abbrev small_disk : StorageManager
small_disk = record {
  inode_bitmap = ten_inodes;
  zone_bitmap = twelve_zones;
  num_inode_bm_blocks = 1;
  num_zone_bm_blocks = 1;
  curr_inode_pos = 0;
  curr_zone_pos = 10;
}

-- The zone 11 is in use, so the search goes on with 0, 1 and 2.
takes_two :
    alloc_zone small_disk
    ≡ takes
        (record small_disk {
          zone_bitmap = record { size = 12; num_bits_set = 4; bitmap = 7 ∷ 8 ∷ [] };
          curr_zone_pos = 2;
        })
        2
unfolding alloc_zone get_bit set_bit bit mask
takes_two = refl

abbrev without_zone_one : StorageManager
without_zone_one = record small_disk {
  zone_bitmap = record { size = 12; num_bits_set = 2; bitmap = 1 ∷ 8 ∷ [] };
}

frees_one : free_zone small_disk 1 ≡ some without_zone_one
unfolding free_zone unset_bit get_bit bit mask
frees_one = refl

abbrev without_inode_one : StorageManager
without_inode_one = record small_disk {
  inode_bitmap = record { size = 10; num_bits_set = 2; bitmap = 5 ∷ 0 ∷ [] };
}

frees_inode_one : free_inode small_disk 1 ≡ some without_inode_one
unfolding free_inode unset_bit get_bit bit mask
frees_inode_one = refl

alloc_zone-ZoneResult_example : ZoneResult small_disk (alloc_zone small_disk)
alloc_zone-ZoneResult_example = alloc_zone-ZoneResult small_disk (omega arith) (omega arith)

alloc_inode-ends_example : InodeResult small_disk
alloc_inode-ends_example = alloc_inode-ends small_disk (omega arith) (omega arith)

inode_is_known-free_inode_example :
    (get_bit without_inode_one.inode_bitmap 2 ≡ true)
    × (inode_is_known without_inode_one 2 ≡ some false)
unfolding get_num_used_inodes get_bit bit
inode_is_known-free_inode_example =
    inode_is_known-free_inode small_disk without_inode_one 2 1 (omega arith) (omega arith) refl refl
      refl (omega arith) frees_inode_one

-- The zone 11, in use, is clear after the next start.
new_manager-flush_example :
    (buf : List ℕ) × (flush small_disk ≡ some buf)
    × (length buf ≡ (1 + 1) * 1024)
    × (let m' = new_manager buf 1 1 10 12 in
        (9 < 10
          → get_bit m'.inode_bitmap 9
            ≡ (if ltb 9 (8 * (10 / 8)) then get_bit ten_inodes 9 else false))
        × (9 < 12
            → get_bit m'.zone_bitmap 9
              ≡ (if ltb 9 (8 * (12 / 8)) then get_bit twelve_zones 9 else false)))
new_manager-flush_example = new_manager-flush small_disk 9 (omega arith) (omega arith)

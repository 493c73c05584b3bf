-- ===== src/MinixStorageManager.antt =====
-- The tables of the inodes and zones in use: common/source/fs/minixfs/MinixStorageManager.cpp,
-- with the test of getInode of MinixFSSuperblock.cpp. A block is 1024 bytes; `none` is a failed
-- assertion, but in `flush`.
pub mod Search
pub mod Alloc
pub mod Disk
pub mod Free
mod Tests
use k_panic.Base.{
  ℕ, zero, suc, ◌+◌, ◌-◌, ◌*◌, ◌/◌, ◌%◌, ◌==◌, Bool, true, false, not, ◌&&◌, ◌||◌, Option, none,
  some, List, [], ◌∷◌, ◌++◌, ltb, leb, if◌then◌else◌, get_or, replicate,
}
use k_panic.Bitmap.{Bitmap, mask, bit, create, get_bit, set_bit, unset_bit, set_byte}

pub record StorageManager : Type 0 where
  pub inode_bitmap : Bitmap
  pub zone_bitmap : Bitmap
  pub num_inode_bm_blocks : ℕ
  pub num_zone_bm_blocks : ℕ
  pub curr_inode_pos : ℕ
  pub curr_zone_pos : ℕ

-- The bytes of the table that the constructor reads whole, from the byte `i` on.
pub load_bytes : ℕ → ℕ → List ℕ → ℕ → Bitmap → Bitmap
load_bytes zero i bm_buffer start b = b
load_bytes (suc n) i bm_buffer start b =
    load_bytes n (suc i) bm_buffer start (set_byte b i (get_or bm_buffer (start + i) 0))

-- The bits of the last byte.
pub load_rest : ℕ → ℕ → ℕ → ℕ → Bitmap → Bitmap
load_rest zero i_bit byte i_byte b = b
load_rest (suc n) i_bit byte i_byte b =
    load_rest n (suc i_bit) byte i_byte
      (if bit byte i_bit == 1 then (set_bit b (i_byte * 8 + i_bit)).1 else b)

-- One of the two tables; it starts at the byte `start` of the buffer.
pub load_bitmap : ℕ → List ℕ → ℕ → Bitmap
unfolding load_bytes load_rest
load_bitmap n bm_buffer start =
    load_rest (n % 8) 0 (get_or bm_buffer (start + n / 8) 0) (n / 8)
      (load_bytes (n / 8) 0 bm_buffer start (create n))

-- The constructor.
pub new_manager : List ℕ → ℕ → ℕ → ℕ → ℕ → StorageManager
unfolding load_bitmap
new_manager bm_buffer num_inode_bm_blocks num_zone_bm_blocks num_inodes num_zones = record {
  inode_bitmap = load_bitmap num_inodes bm_buffer 0;
  zone_bitmap = load_bitmap num_zones bm_buffer (num_inode_bm_blocks * 1024);
  num_inode_bm_blocks = num_inode_bm_blocks;
  num_zone_bm_blocks = num_zone_bm_blocks;
  curr_inode_pos = 0;
  curr_zone_pos = 0;
}

pub is_inode_set : StorageManager → ℕ → Option Bool
is_inode_set m index =
    if ltb index m.inode_bitmap.size then some (get_bit m.inode_bitmap index) else none

pub get_num_used_inodes : StorageManager → ℕ
get_num_used_inodes m = m.inode_bitmap.num_bits_set

-- How a search ends: with the position of a clear bit, back where it started, or not within the fuel.
pub data SearchResult : Type 0 where
  clear_at : ℕ → SearchResult
  exhausted : SearchResult
  still_searching : SearchResult

-- The loop of `allocZone`.
pub search_zone : ℕ → Bitmap → ℕ → ℕ → SearchResult
search_zone zero b curr pos = still_searching
search_zone (suc fuel) b curr pos =
    let at = if leb b.size pos then 0 else pos in
    let rest = search_zone fuel b curr (at + 1) in
    if pos == curr
    then exhausted
    else if leb b.size pos && curr == 0
    then exhausted
    else if get_bit b at
    then rest
    else clear_at at

-- The loop of `allocInode`.
pub search_inode : ℕ → Bitmap → ℕ → ℕ → SearchResult
search_inode zero b curr pos = still_searching
search_inode (suc fuel) b curr pos =
    let at = if leb b.size pos then 0 else pos in
    let rest = search_inode fuel b curr (at + 1) in
    if pos == curr then exhausted else if get_bit b at then rest else clear_at at

-- How `allocZone` and `allocInode` end: with the state they leave and the number they return, at
-- the assertion behind the loop, or not within the fuel.
pub data AllocResult : Type 0 where
  takes : StorageManager → ℕ → AllocResult
  assertion_fails : AllocResult
  runs_on : AllocResult

-- What `allocZone` does with a zone that it found; behind the loop its assertion fails.
abbrev pub take_zone : StorageManager → SearchResult → AllocResult
take_zone m (clear_at pos) =
    takes (record m { zone_bitmap = (set_bit m.zone_bitmap pos).1; curr_zone_pos = pos }) pos
take_zone m exhausted = assertion_fails
take_zone m still_searching = runs_on

-- `allocZone`, with one more turn of its loop than there are zones.
pub alloc_zone : StorageManager → AllocResult
unfolding search_zone
alloc_zone m =
    take_zone m
      (search_zone (m.zone_bitmap.size + 1) m.zone_bitmap m.curr_zone_pos (m.curr_zone_pos + 1))

abbrev pub take_inode : StorageManager → SearchResult → AllocResult
take_inode m (clear_at pos) =
    takes (record m { inode_bitmap = (set_bit m.inode_bitmap pos).1; curr_inode_pos = pos }) pos
take_inode m exhausted = assertion_fails
take_inode m still_searching = runs_on

-- `allocInode`, on fuel.
pub alloc_inode : ℕ → StorageManager → AllocResult
unfolding search_inode
alloc_inode fuel m =
    take_inode m (search_inode fuel m.inode_bitmap m.curr_inode_pos (m.curr_inode_pos + 1))

pub free_zone : StorageManager → ℕ → Option StorageManager
free_zone m index =
    if ltb index m.zone_bitmap.size
    then some (record m { zone_bitmap = (unset_bit m.zone_bitmap index).1 })
    else none

pub free_inode : StorageManager → ℕ → Option StorageManager
free_inode m index =
    if ltb index m.inode_bitmap.size
    then some (record m { inode_bitmap = (unset_bit m.inode_bitmap index).1 })
    else none

-- The bytes that `flush` copies whole, from the byte `i` on.
pub whole_bytes : ℕ → ℕ → Bitmap → List ℕ
whole_bytes zero i b = []
whole_bytes (suc n) i b = get_or b.bitmap i 0 ∷ whole_bytes n (suc i) b

-- `byte &= 0x01 << i`
pub and_bit : ℕ → ℕ → ℕ
and_bit byte i = bit byte i * mask i

-- The loop that makes the last byte, from the bit `i_bit` on.
pub last_byte : ℕ → ℕ → Bitmap → ℕ → ℕ
unfolding and_bit
last_byte zero i_bit b byte = byte
last_byte (suc n) i_bit b byte = last_byte n (suc i_bit) b (
    if ltb i_bit (b.size % 8)
    then (if get_bit b (b.size / 8 * 8 + i_bit) then and_bit byte i_bit else byte)
    else and_bit byte i_bit)

-- What `flush` writes of one table from the start of its part of the buffer on: the whole bytes, the
-- last byte, and 255 up to the end of the part. It is longer than the part where the table is too
-- large for its blocks.
pub flush_bitmap : Bitmap → ℕ → List ℕ
flush_bitmap b blocks =
    whole_bytes (b.size / 8) 0 b
    ++ last_byte 8 0 b 0 ∷ replicate (blocks * 1024 - (b.size / 8 + 1)) 255

-- The buffer that `flush` hands to `writeBlocks`; `none` where it writes behind the buffer, which is
-- where one byte more than the whole ones of a table does not fit into the table's blocks.
pub flush : StorageManager → Option (List ℕ)
unfolding flush_bitmap
flush m =
    if ltb (m.inode_bitmap.size / 8) (m.num_inode_bm_blocks * 1024)
      && ltb (m.zone_bitmap.size / 8) (m.num_zone_bm_blocks * 1024)
    then some (
        flush_bitmap m.inode_bitmap m.num_inode_bm_blocks
        ++ flush_bitmap m.zone_bitmap m.num_zone_bm_blocks)
    else none

-- Whether `getInode` of the superblock goes on to read an inode; `none` is a failed assertion.
pub inode_is_known : StorageManager → ℕ → Option Bool
unfolding is_inode_set get_num_used_inodes
inode_is_known m i_num =
    if leb (get_num_used_inodes m) i_num then some false else elim (is_inode_set m i_num) [
      | none ↦ none
      | some true ↦ some true
      | some false ↦ if i_num == 1 then none else some false
    ]

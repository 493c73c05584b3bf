-- ===== src/MinixStorageManager/Disk.antt =====
-- What is left of the tables after `flush` and the next start.
use mathlib.Core.Path.{subst}
use k_panic.Base.{
  ℕ, zero, suc, ◌+◌, ◌-◌, ◌*◌, ◌/◌, ◌%◌, ◌≤◌, ◌<◌, ◌≡◌, refl, ap, sym, ◌∙◌, Bool, true, false, ◌&&◌,
  List, [], ◌∷◌, ◌++◌, arith, ltb, leb, if◌then◌else◌, Bool-cases, some, inl, inr, get_or,
  replicate, length, length-append, length-replicate, length-set,
}
use k_panic.Bitmap.{Bitmap, bit, mask, create, get_bit, set_byte}
use k_panic.Bitmap.Bits.{get_or-set}
use k_panic.MinixStorageManager.{
  StorageManager, load_bytes, load_rest, load_bitmap, new_manager, whole_bytes, and_bit, last_byte,
  flush_bitmap, flush,
}

bit-zero : (i : ℕ) → bit 0 i ≡ 0
unfolding bit
bit-zero zero = omega arith
bit-zero (suc i) = bit-zero i

zero_stays :
    (f : ℕ → ℕ) (c d : Bool) {x : ℕ} → x ≡ 0 → f 0 ≡ 0 → f (if c then if d then x else 0 else x) ≡ 0
zero_stays f c d e h = ground (arith, e, h)

-- Since the byte starts at 0 and every step is an AND, the last byte is always 0.
last_byte-zero : (n i : ℕ) (b : Bitmap) → last_byte n i b 0 ≡ 0
unfolding last_byte
last_byte-zero zero i b = refl
last_byte-zero (suc n) i b =
    let masked : and_bit 0 i ≡ 0 = ap (λ x. x * mask i) (bit-zero i) ∙ omega arith in
    let rest = last_byte-zero n (suc i) b in zero_stays (last_byte n (suc i) b) _ _ masked rest

load_rest-zero : (n i base : ℕ) (b : Bitmap) → load_rest n i 0 base b ≡ b
unfolding load_rest
load_rest-zero zero i base b = refl
load_rest-zero (suc n) i base b =
    let clear = bit-zero i in
    let rest = load_rest-zero n (suc i) base b in ground (arith, clear, rest)

load_bytes-keeps :
    (n i : ℕ) (buf : List ℕ) (start : ℕ) (b : Bitmap)
    → length (load_bytes n i buf start b).bitmap ≡ length b.bitmap
unfolding load_bytes set_byte
load_bytes-keeps zero i buf start b = refl
load_bytes-keeps (suc n) i buf start b =
    load_bytes-keeps n (suc i) buf start _ ∙ length-set b.bitmap i _

load_bytes_lem :
    (n i : ℕ) (buf : List ℕ) (start : ℕ) (b : Bitmap) (j : ℕ)
    → i + n ≤ length b.bitmap
    → get_or (load_bytes n i buf start b).bitmap j 0
      ≡ (if leb i j && ltb j (i + n) then get_or buf (start + j) 0 else get_or b.bitmap j 0)
unfolding load_bytes set_byte
load_bytes_lem zero i buf start b j h = ground arith
load_bytes_lem (suc n) i buf start b j h =
    let byte = get_or buf (start + i) 0 in
    let rest =
      load_bytes_lem n (suc i) buf start (set_byte b i byte) j
        (subst (λ l. suc i + n ≤ l) (sym (length-set b.bitmap i byte)) (omega (arith, h))) in
    let here = get_or-set b.bitmap i j byte (omega (arith, h)) in rest ∙ ground (arith, here)

get_or-replicate : (n j : ℕ) → get_or {A = ℕ} (replicate n 0) j 0 ≡ 0
get_or-replicate zero j = refl
get_or-replicate (suc n) zero = refl
get_or-replicate (suc n) (suc j) = get_or-replicate n j

append_at-inside : (xs ys : List ℕ) (j : ℕ) → j < length xs → get_or (xs ++ ys) j 0 ≡ get_or xs j 0
append_at-inside [] ys j h = absurd (omega (arith, h))
append_at-inside (x ∷ xs) ys zero h = refl
append_at-inside (x ∷ xs) ys (suc j) h = append_at-inside xs ys j (omega (arith, h))

append_at-behind :
    (xs ys : List ℕ) (n j : ℕ) → length xs ≡ n → get_or (xs ++ ys) (n + j) 0 ≡ get_or ys j 0
append_at-behind [] ys n j h = ap (λ k. get_or ys k 0) (omega (arith, h))
append_at-behind (x ∷ xs) ys zero j h = absurd (omega (arith, h))
append_at-behind (x ∷ xs) ys (suc n) j h =
    let same : suc n + j ≡ suc (n + j) = omega arith in
    ap (λ k. get_or (x ∷ xs ++ ys) k 0) same ∙ append_at-behind xs ys n j (omega (arith, h))

append_at-end : (xs ys : List ℕ) (y j : ℕ) → length xs ≡ j → get_or (xs ++ y ∷ ys) j 0 ≡ y
append_at-end xs ys y j h =
    ap (λ k. get_or (xs ++ y ∷ ys) k 0) (omega arith) ∙ append_at-behind xs (y ∷ ys) j 0 h

if_true : (c : Bool) (x y z : ℕ) → c ≡ true → x ≡ y → x ≡ (if c then y else z)
if_true c x y z e h = ground arith

if_false : (c : Bool) (x y z : ℕ) → c ≡ false → x ≡ z → x ≡ (if c then y else z)
if_false c x y z e h = ground arith

length-whole_bytes : (n i : ℕ) (b : Bitmap) → length (whole_bytes n i b) ≡ n
unfolding whole_bytes
length-whole_bytes zero i b = refl
length-whole_bytes (suc n) i b = ap suc (length-whole_bytes n (suc i) b)

get_or-whole_bytes :
    (n i : ℕ) (b : Bitmap) (j : ℕ)
    → j < n
    → get_or (whole_bytes n i b) j 0 ≡ get_or b.bitmap (i + j) 0
unfolding whole_bytes
get_or-whole_bytes zero i b j h = absurd (omega (arith, h))
get_or-whole_bytes (suc n) i b zero h = ap (λ k. get_or b.bitmap k 0) (omega arith)
get_or-whole_bytes (suc n) i b (suc j) h =
    get_or-whole_bytes n (suc i) b j (omega (arith, h))
    ∙ ap (λ k. get_or b.bitmap k 0) (omega arith)

-- The bytes of a table on the disk: those that are whole, and a byte 0.
flush_bitmap_lem :
    (b : Bitmap) (blocks j : ℕ)
    → j ≤ b.size / 8
    → get_or (flush_bitmap b blocks) j 0 ≡ (if ltb j (b.size / 8) then get_or b.bitmap j 0 else 0)
unfolding flush_bitmap
flush_bitmap_lem b blocks j h = elim (Bool-cases (ltb j (b.size / 8))) [
  | inl inside ↦ if_true _ _ _ _ inside (
      append_at-inside (whole_bytes (b.size / 8) 0 b) _ j
        (subst (λ l. j < l) (sym (length-whole_bytes (b.size / 8) 0 b)) (ground arith))
      ∙ get_or-whole_bytes (b.size / 8) 0 b j (ground arith)
      ∙ ap (λ k. get_or b.bitmap k 0) (omega arith))
  | inr last ↦ if_false _ _ _ _ last (
      append_at-end (whole_bytes (b.size / 8) 0 b) _ _ j
        (length-whole_bytes (b.size / 8) 0 b ∙ ground arith)
      ∙ last_byte-zero 8 0 b)
]

length-flush_bitmap :
    (b : Bitmap) (blocks : ℕ)
    → b.size / 8 < blocks * 1024
    → length (flush_bitmap b blocks) ≡ blocks * 1024
unfolding flush_bitmap
length-flush_bitmap b blocks h =
    let whole = length-whole_bytes (b.size / 8) 0 b in
    let pad = length-replicate {A = ℕ} (blocks * 1024 - (b.size / 8 + 1)) 255 in
    let both =
      length-append (whole_bytes (b.size / 8) 0 b)
        (last_byte 8 0 b 0 ∷ replicate (blocks * 1024 - (b.size / 8 + 1)) 255) in
    omega (arith, whole, pad, both, h)

loaded_or_clear :
    (j from old fresh n : ℕ)
    → from ≡ (if ltb j n then old else 0)
    → fresh ≡ 0
    → (if leb 0 j && ltb j (0 + n) then from else fresh) ≡ (if ltb j n then old else 0)
loaded_or_clear j from old fresh n e f = ground arith

-- The bytes of a table that was flushed and is loaded again.
loaded_byte :
    (b : Bitmap) (buf : List ℕ) (start blocks j : ℕ)
    → j ≤ b.size / 8
    → j * 8 < b.size
    → ((i : ℕ) → i ≤ b.size / 8 → get_or buf (start + i) 0 ≡ get_or (flush_bitmap b blocks) i 0)
    → get_or (load_bitmap b.size buf start).bitmap j 0
      ≡ (if ltb j (b.size / 8) then get_or b.bitmap j 0 else 0)
unfolding load_bitmap create
loaded_byte b buf start blocks j h inside same =
    let n = b.size / 8 in
    let fresh = create b.size in
    let room : 0 + n ≤ length fresh.bitmap =
      ground (arith, length-replicate {A = ℕ} (n + (if ltb 0 (b.size % 8) then 1 else 0)) 0) in
    let last : get_or buf (start + n) 0 ≡ 0 =
      same n (omega arith) ∙ flush_bitmap_lem b blocks n (omega arith) ∙ ground arith in
    let rest : load_bitmap b.size buf start ≡ load_bytes n 0 buf start fresh =
      ap (λ x. load_rest (b.size % 8) 0 x n (load_bytes n 0 buf start fresh)) last
      ∙ load_rest-zero (b.size % 8) 0 n _ in
    let bytes = load_bytes_lem n 0 buf start fresh j room in
    ap (λ l. get_or l.bitmap j 0) rest
    ∙ bytes
    ∙ loaded_or_clear j _ _ _ _ (same j h ∙ flush_bitmap_lem b blocks j h) (get_or-replicate _ j)

-- A table that was flushed and is loaded again keeps the bits of its whole bytes; those of the last
-- byte, where it is not whole, are clear.
load-flush_bitmap :
    (b : Bitmap) (buf : List ℕ) (start blocks q : ℕ)
    → q < b.size
    → ((j : ℕ) → j ≤ b.size / 8 → get_or buf (start + j) 0 ≡ get_or (flush_bitmap b blocks) j 0)
    → get_bit (load_bitmap b.size buf start) q
      ≡ (if ltb q (8 * (b.size / 8)) then get_bit b q else false)
unfolding get_bit
load-flush_bitmap b buf start blocks q h same =
    let byte = loaded_byte b buf start blocks (q / 8) (omega (arith, h)) (omega (arith, h)) same in
    let none_set = bit-zero (q % 8) in ground (arith, byte, none_set)

-- Where both tables fit into their blocks with one byte more than their whole ones, `flush` fills its
-- buffer exactly. After a start with `new_manager` on that buffer a bit of a whole byte of either
-- table is as it was, and a bit of a last byte that is not whole is clear.
pub new_manager-flush :
    (m : StorageManager) (q : ℕ)
    → m.inode_bitmap.size / 8 < m.num_inode_bm_blocks * 1024
    → m.zone_bitmap.size / 8 < m.num_zone_bm_blocks * 1024
    → (buf : List ℕ) × (flush m ≡ some buf)
      × (length buf ≡ (m.num_inode_bm_blocks + m.num_zone_bm_blocks) * 1024)
      × (let m' =
            new_manager buf m.num_inode_bm_blocks m.num_zone_bm_blocks m.inode_bitmap.size
              m.zone_bitmap.size in
          (q < m.inode_bitmap.size
            → get_bit m'.inode_bitmap q
              ≡ (if ltb q (8 * (m.inode_bitmap.size / 8)) then get_bit m.inode_bitmap q else false))
          × (q < m.zone_bitmap.size
              → get_bit m'.zone_bitmap q ≡ (
                  if ltb q (8 * (m.zone_bitmap.size / 8)) then get_bit m.zone_bitmap q else false)))
unfolding new_manager flush
new_manager-flush m q room room' =
    let inodes = flush_bitmap m.inode_bitmap m.num_inode_bm_blocks in
    let zones = flush_bitmap m.zone_bitmap m.num_zone_bm_blocks in
    let size = length-flush_bitmap m.inode_bitmap m.num_inode_bm_blocks room in
    let size' = length-flush_bitmap m.zone_bitmap m.num_zone_bm_blocks room' in
    let both = length-append inodes zones in
    (
      inodes ++ zones,
      ground arith,
      omega (arith, size, size', both),
      (
        λ h. load-flush_bitmap m.inode_bitmap _ 0 m.num_inode_bm_blocks q h λ j l.
            ap (λ k. get_or (inodes ++ zones) k 0) (omega arith)
            ∙ append_at-inside _ _ j (omega (arith, size, room, l)),
        λ h.
            load-flush_bitmap m.zone_bitmap _ _ m.num_zone_bm_blocks q h
              λ j l. append_at-behind _ _ _ j size,
      ),
    )

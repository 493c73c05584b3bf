-- ===== src/Bitmap.antt =====
-- The table of bits of common/source/util/Bitmap.cpp. An index out of the table is a failed
-- assertion there; the theorems ask for indices inside.
pub mod Bits
pub mod Count
mod Table
use k_panic.Base.{
  ℕ, zero, suc, ◌+◌, ◌-◌, ◌*◌, ◌/◌, ◌%◌, ◌==◌, Bool, true, false, List, get_or, set, replicate,
  if◌then◌else◌, ltb,
}

pub record Bitmap : Type 0 where
  pub size : ℕ
  pub num_bits_set : ℕ
  pub bitmap : List ℕ

-- `1 << i`
unfoldable pub mask : ℕ → ℕ
mask zero = 1
mask (suc i) = 2 * mask i

-- `x & (1 << i)`, as a digit
unfoldable pub bit : ℕ → ℕ → ℕ
bit x zero = x % 2
bit x (suc i) = bit (x / 2) i

-- The constructor: BITMAP_BYTE_COUNT is the number of bytes that hold the bits.
unfoldable pub create : ℕ → Bitmap
create number_of_bits = record {
  size = number_of_bits;
  num_bits_set = 0;
  bitmap = replicate (number_of_bits / 8 + (if ltb 0 (number_of_bits % 8) then 1 else 0)) 0;
}

unfoldable pub get_bit : Bitmap → ℕ → Bool
unfolding bit
get_bit b n = bit (get_or b.bitmap (n / 8) 0) (n % 8) == 1

-- `setBit`; `|=` adds the mask, since the bit is clear.
unfoldable pub set_bit : Bitmap → ℕ → Bool × Bitmap
unfolding get_bit mask
set_bit b n = if get_bit b n then (false, b) else (
  true,
  record b {
    bitmap = set b.bitmap (n / 8) (get_or b.bitmap (n / 8) 0 + mask (n % 8));
    num_bits_set = b.num_bits_set + 1;
  },
)

-- `unsetBit`; `&= ~` takes the mask away, since the bit is set.
unfoldable pub unset_bit : Bitmap → ℕ → Bool × Bitmap
unfolding get_bit mask
unset_bit b n =
    if get_bit b n
    then (
      true,
      record b {
        bitmap = set b.bitmap (n / 8) (get_or b.bitmap (n / 8) 0 - mask (n % 8));
        num_bits_set = b.num_bits_set - 1;
      },
    )
    else (false, b)

-- The entry of the table BIT_COUNT for the byte `x`, with 8 for `n`: Bitmap/Table compares them all.
pub bit_count : ℕ → ℕ → ℕ
bit_count zero x = 0
bit_count (suc n) x = x % 2 + bit_count n (x / 2)

-- `setByte`
unfoldable pub set_byte : Bitmap → ℕ → ℕ → Bitmap
unfolding bit_count
set_byte b n byte = record b {
  num_bits_set = b.num_bits_set - bit_count 8 (get_or b.bitmap n 0) + bit_count 8 byte;
  bitmap = set b.bitmap n byte;
}

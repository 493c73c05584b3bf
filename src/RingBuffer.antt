-- ===== src/RingBuffer.antt =====
-- The ring of common/include/util/RingBuffer.h, generic in what it holds. One place of the buffer
-- stays free: a ring of `size` places holds `size - 1` items. What the two locks guard is one
-- function here.
pub mod Queue
pub mod Refine
pub mod Run
pub mod Transfer
mod Tests
use k_panic.Base.{
  ℕ, ◌+◌, ◌%◌, ◌^◌, ◌==◌, Bool, true, false, Option, none, some, List, [], ◌∷◌, get_elem?, set,
  if◌then◌else◌,
}

pub record RingBuffer {ℓ} (T : Type ℓ) : Type ℓ where
  pub buffer_size : ℕ
  pub buffer : List T
  pub write_pos : ℕ
  pub read_pos : ℕ
  pub connected_proc_counter : ℕ

module _ {ℓ} {T : Type ℓ} where
  -- The constructor; `storage` is what the fresh array holds. It asserts `size > 1`.
  unfoldable pub create : List T → ℕ → RingBuffer T
  create storage size = record {
    buffer_size = size;
    buffer = storage;
    write_pos = 1;
    read_pos = 0;
    connected_proc_counter = 0;
  }

  unfoldable pub put : RingBuffer T → T → Bool × RingBuffer T
  put r c = if r.write_pos == r.read_pos then (false, r) else (
    true,
    record r { buffer = set r.buffer r.write_pos c; write_pos = (r.write_pos + 1) % r.buffer_size },
  )

  -- `get`; the item read goes through `c`, and is `none` where there is nothing new to read.
  unfoldable pub get : RingBuffer T → Option T × RingBuffer T
  get r =
      let new_read_pos = (r.read_pos + 1) % r.buffer_size in
      if r.write_pos == new_read_pos
      then (none, r)
      else (get_elem? r.buffer new_read_pos, record r { read_pos = new_read_pos })

  unfoldable pub clear : RingBuffer T → RingBuffer T
  clear r = record r { write_pos = 1; read_pos = 0 }

  unfoldable pub inc_proc_count : RingBuffer T → RingBuffer T
  inc_proc_count r = record r { connected_proc_counter = (r.connected_proc_counter + 1) % 2 ^ 64 }

-- ===== src/FiFo.antt =====
-- The buffer of common/include/util/FiFo.h between the devices and the terminals, generic in what it
-- holds. What the lock guards is one function; where a thread goes to sleep is a result.
pub mod Queue
pub mod Refine
pub mod Runs
pub mod Count
pub mod Monitor
pub mod Waking
mod Tests
use k_panic.Base.{
  ℕ, ◌+◌, ◌-◌, ◌/◌, ◌%◌, ◌^◌, ◌==◌, Bool, true, false, Option, none, some, List, [], ◌∷◌, get_elem?,
  set, if◌then◌else◌, ltb,
}

pub record FiFo {ℓ} (T : Type ℓ) : Type ℓ where
  pub input_buffer_size : ℕ
  pub input_buffer : List T
  pub ib_write_pos : ℕ
  pub ib_read_pos : ℕ
  pub flags : ℕ

-- How `put` ends: asleep on `space_to_write_`, with the item dropped, or with the item stored.
pub data PutResult {ℓ} (T : Type ℓ) : Type ℓ where
  must_wait dropped : PutResult T
  stored_in : FiFo T → PutResult T

module _ {ℓ} {T : Type ℓ} where
  -- The constructor; `storage` is what the fresh array of the right size holds.
  pub make : (ℕ → List T) → ℕ → ℕ → FiFo T
  make storage inputb_size flags =
      let size = if ltb inputb_size 2 then 512 else inputb_size in
      record {
        input_buffer_size = size;
        input_buffer = storage size;
        ib_write_pos = 1;
        ib_read_pos = 0;
        flags = flags;
      }

  -- The end of `put`.
  abbrev pub store_item : FiFo T → T → FiFo T
  store_item f c = record f {
    input_buffer = set f.input_buffer f.ib_write_pos c;
    ib_write_pos = (f.ib_write_pos + 1) % f.input_buffer_size;
  }

  pub put_item : FiFo T → T → PutResult T
  put_item f c =
      if f.ib_write_pos == f.ib_read_pos
      then if f.flags % 2 == 1
        then if f.flags / 2 % 2 == 1
          then stored_in
              (store_item (record f { ib_read_pos = (f.ib_read_pos + 1) % f.input_buffer_size }) c)
          else dropped
        else must_wait
      else stored_in (store_item f c)

  pub clear_items : FiFo T → FiFo T
  clear_items f = record f { ib_write_pos = 1; ib_read_pos = 0 }

  -- `get`; `none` where the thread sleeps on `something_to_read_`.
  pub get_item : FiFo T → Option (Option T × FiFo T)
  get_item f =
      let next = (f.ib_read_pos + 1) % f.input_buffer_size in
      if f.ib_write_pos == next
      then none
      else some (get_elem? f.input_buffer next, record f { ib_read_pos = next })

  -- `peekAhead`; `none` where it returns false.
  pub peek_ahead : FiFo T → Option T
  peek_ahead f =
      let next = (f.ib_read_pos + 1) % f.input_buffer_size in
      if f.ib_write_pos == next then none else get_elem? f.input_buffer next

  -- `countElementsAhead`; the difference is unsigned, so that its last branch is never taken.
  pub count_elements_ahead : FiFo T → ℕ
  count_elements_ahead f =
      let count = (f.ib_write_pos + 2 ^ 32 - f.ib_read_pos) % 2 ^ 32 in
      if count == 0 then f.input_buffer_size else count - 1

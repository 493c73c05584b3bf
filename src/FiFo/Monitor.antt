-- ===== src/FiFo/Monitor.antt =====
-- Threads that sleep on the two conditions of the buffer, and are woken.
use k_panic.Base.{
  ℕ, ◌+◌, ◌-◌, ◌≤◌, ◌<◌, ◌==◌, ◌≡◌, Bool, true, Option, none, some, List, length, if◌then◌else◌,
}
use k_panic.RingBuffer.Refine.{Represents}
use k_panic.FiFo.{FiFo, PutResult, must_wait, dropped, stored_in, put_item, get_item, clear_items}
use k_panic.FiFo.Refine.{as_ring}

-- Of the threads in `get` and `put`: how many sleep on the condition, and how many were woken and
-- have not run yet.
pub record Monitor {ℓ} (T : Type ℓ) : Type ℓ where
  pub fifo : FiFo T
  pub readers : ℕ
  pub woken_readers : ℕ
  pub writers : ℕ
  pub woken_writers : ℕ

-- A thread that calls `put`, `get` or `clear`, or goes on in `put` or `get` after it was woken.
pub data Turn {ℓ} (T : Type ℓ) : Type ℓ where
  new_put : T → Turn T
  woken_put : T → Turn T
  new_get woken_get new_clear : Turn T

module _ {ℓ} {T : Type ℓ} where
  -- `something_to_read_.signal()` and `space_to_write_.signal()` wake one thread, if one sleeps.
  abbrev pub signal_reader : Monitor T → Monitor T
  signal_reader m =
      if m.readers == 0
      then m
      else record m { readers = m.readers - 1; woken_readers = m.woken_readers + 1 }

  abbrev pub signal_writer : Monitor T → Monitor T
  signal_writer m =
      if m.writers == 0
      then m
      else record m { writers = m.writers - 1; woken_writers = m.woken_writers + 1 }

  abbrev pub end_put : Monitor T → PutResult T → Monitor T
  end_put m must_wait = record m { writers = m.writers + 1 }
  end_put m dropped = m
  end_put m (stored_in f) = signal_reader (record m { fifo = f })

  abbrev pub end_get : Monitor T → Option (Option T × FiFo T) → Monitor T
  end_get m none = record m { readers = m.readers + 1 }
  end_get m (some (x, f)) = signal_writer (record m { fifo = f })

  -- `none` where no thread was woken.
  unfoldable pub turn : Monitor T → Turn T → Option (Monitor T)
  turn m (new_put c) = some (end_put m (put_item m.fifo c))
  turn m (woken_put c) =
      if m.woken_writers == 0
      then none
      else some (end_put (record m { woken_writers = m.woken_writers - 1 }) (put_item m.fifo c))
  turn m new_get = some (end_get m (get_item m.fifo))
  turn m woken_get =
      if m.woken_readers == 0
      then none
      else some (end_get (record m { woken_readers = m.woken_readers - 1 }) (get_item m.fifo))
  turn m new_clear = some (record m { fifo = clear_items m.fifo })

  -- While a reader sleeps, there are no more items than readers on their way; while a writer sleeps,
  -- and if `strict`, there are no more free places than writers on their way.
  pub record Attended (strict : Bool) (m : Monitor T) : Type ℓ where
    pub items : List T
    pub holds : Represents (as_ring m.fifo) items
    pub large : 1 < m.fifo.input_buffer_size
    pub readers_ok : 0 < m.readers → length items ≤ m.woken_readers
    pub writers_ok :
        strict ≡ true
        → 0 < m.writers
        → m.fifo.input_buffer_size ≤ m.woken_writers + length items + 1

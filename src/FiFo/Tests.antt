-- ===== src/FiFo/Tests.antt =====
-- Buffers of three places.
use k_panic.Base.{ℕ, ◌<◌, ◌≡◌, ◌↔◌, refl, true, some, List, [], ◌∷◌, arith}
use k_panic.RingBuffer.Refine.{Represents}
use k_panic.FiFo.{FiFo, put_item, get_item, peek_ahead, clear_items, count_elements_ahead}
use k_panic.FiFo.Queue
use k_panic.FiFo.Queue.{
  Call, puts, gets, peeks, clears, Reply, asleep, finished, fetched, drops_old,
}
use k_panic.FiFo.Refine.{as_ring}
use k_panic.FiFo.Runs.{run, run_lem}
use k_panic.FiFo.Count.{count_elements_ahead_iff}
use k_panic.FiFo.Monitor.{Monitor, new_put, turn, Attended}
use k_panic.FiFo.Waking.{turn-Attended}

-- FIFO_NOBLOCK_PUT with FIFO_NOBLOCK_PUT_OVERWRITE_OLD
abbrev overwriting : FiFo ℕ
overwriting = record {
  input_buffer_size = 3;
  input_buffer = 0 ∷ 0 ∷ 0 ∷ [];
  ib_write_pos = 1;
  ib_read_pos = 0;
  flags = 3;
}

abbrev blocking : FiFo ℕ
blocking = record overwriting { flags = 0 }

abbrev fifo_calls : List (Call ℕ)
fifo_calls = puts 5 ∷ puts 6 ∷ puts 7 ∷ peeks ∷ gets ∷ clears ∷ gets ∷ []

overwrites_five :
    run overwriting fifo_calls
    ≡ finished ∷ finished ∷ finished ∷ fetched (some 6) ∷ fetched (some 6) ∷ finished ∷ asleep ∷ []
unfolding run put_item get_item peek_ahead clear_items
overwrites_five = refl

seven_waits :
    run blocking fifo_calls
    ≡ finished ∷ finished ∷ asleep ∷ fetched (some 5) ∷ fetched (some 5) ∷ finished ∷ asleep ∷ []
unfolding run put_item get_item peek_ahead clear_items
seven_waits = refl

fresh_Represents : Represents (as_ring overwriting) []
fresh_Represents = record {
  storage = refl;
  read_in = omega arith;
  room = omega arith;
  write_at = refl;
  holds = tt;
}

-- A full buffer counts one item too many.
abbrev full_fifo : FiFo ℕ
full_fifo = record overwriting { input_buffer = 0 ∷ 5 ∷ 6 ∷ []; ib_write_pos = 0 }

counts_three : count_elements_ahead full_fifo ≡ 3
unfolding count_elements_ahead
counts_three = refl

full-Represents : Represents (as_ring full_fifo) (5 ∷ 6 ∷ [])
full-Represents = record {
  storage = refl;
  read_in = omega arith;
  room = omega arith;
  write_at = refl;
  holds = (refl, (refl, tt));
}

abbrev reader_waits : Monitor ℕ
reader_waits = record {
  fifo = overwriting;
  readers = 1;
  woken_readers = 0;
  writers = 0;
  woken_writers = 0;
}

abbrev reader_woken : Monitor ℕ
reader_woken = record reader_waits {
  fifo = record overwriting { input_buffer = 0 ∷ 5 ∷ 0 ∷ []; ib_write_pos = 2 };
  readers = 0;
  woken_readers = 1;
}

put_wakes : turn reader_waits (new_put 5) ≡ some reader_woken
unfolding turn put_item
put_wakes = refl

reader_waits-Attended : Attended true reader_waits
reader_waits-Attended = record {
  items = [];
  holds = fresh_Represents;
  large = omega arith;
  readers_ok = λ h. omega arith;
  writers_ok = λ h k. absurd (omega (arith, k));
}

run_lem_example : run overwriting fifo_calls ≡ Queue.run drops_old 2 [] fifo_calls
run_lem_example = run_lem fifo_calls overwriting [] (omega arith) fresh_Represents

count_elements_ahead_iff_example : (count_elements_ahead full_fifo ≡ 2) ↔ (0 < 0)
count_elements_ahead_iff_example =
    count_elements_ahead_iff full_fifo (5 ∷ 6 ∷ []) (omega arith) full-Represents

turn-Attended_example : Attended true reader_woken
turn-Attended_example =
    turn-Attended true reader_waits reader_woken (new_put 5) put_wakes (λ h e. absurd cc)
      reader_waits-Attended

-- ===== src/RingBuffer/Tests.antt =====
-- Runs of a ring of four places.
use k_panic.Base.{ℕ, ◌≡◌, refl, true, false, none, some, List, [], ◌∷◌, arith}
use k_panic.RingBuffer.{RingBuffer, create}
use k_panic.RingBuffer.Queue
use k_panic.RingBuffer.Queue.{Call, puts, gets, clears, Reply, stored, fetched, cleared}
use k_panic.RingBuffer.Refine.{create-Represents}
use k_panic.RingBuffer.Run.{run, run_refines}

abbrev four : RingBuffer ℕ
four = record {
  buffer_size = 4;
  buffer = 0 ∷ 0 ∷ 0 ∷ 0 ∷ [];
  write_pos = 1;
  read_pos = 0;
  connected_proc_counter = 0;
}

abbrev calls : List (Call ℕ)
calls = puts 5 ∷ puts 6 ∷ puts 7 ∷ puts 8 ∷ gets ∷ puts 9 ∷ clears ∷ gets ∷ []

-- The fourth item finds the ring full.
replies :
    run four calls
    ≡ stored true
      ∷ stored true
      ∷ stored true
      ∷ stored false
      ∷ fetched (some 5)
      ∷ stored true
      ∷ cleared
      ∷ fetched none
      ∷ []
unfolding run
replies = refl

run_refines_example : run four calls ≡ Queue.run 3 [] calls
run_refines_example =
    run_refines 3 calls four [] (omega arith) refl
      (unfold create in create-Represents (0 ∷ 0 ∷ 0 ∷ 0 ∷ []) 4 (omega arith) refl)

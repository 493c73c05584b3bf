-- ===== src/RingBuffer/Run.antt =====
-- No sequence of calls tells a ring from the queue of what it holds.
use k_panic.Base.{
  ℕ, ◌+◌, ◌≤◌, ◌<◌, ◌≡◌, refl, ap, ◌∙◌, true, false, none, some, List, [], ◌∷◌, ◌++◌, length, arith,
  dec_lt,
}
use k_panic.RingBuffer.{RingBuffer, put, get, clear}
use k_panic.RingBuffer.Queue
use k_panic.RingBuffer.Queue.{Call, puts, gets, clears, Reply, stored, fetched, cleared}
use k_panic.RingBuffer.Refine.{
  Represents, put-Represents, put-full, get-empty, get-Represents, clear-Represents,
  buffer_size-put, buffer_size-get,
}

module _ {ℓ} {T : Type ℓ} where
  -- A client's calls, in order, with what each returns.
  unfoldable pub run : RingBuffer T → List (Call T) → List (Reply T)
  unfolding put get clear
  run r [] = []
  run r (puts x ∷ calls) = let (done, r') = put r x in stored done ∷ run r' calls
  run r (gets ∷ calls) = let (out, r') = get r in fetched out ∷ run r' calls
  run r (clears ∷ calls) = cleared ∷ run (clear r) calls

  run_put_ok :
      (capacity : ℕ) (q : List T) (x : T)
      → length q < capacity
      → Queue.put capacity q x ≡ (true, q ++ (x ∷ []))
  unfolding Queue.put
  run_put_ok capacity q x h = ground arith

  run_put_full :
      (capacity : ℕ) (q : List T) (x : T)
      → capacity ≤ length q
      → Queue.put capacity q x ≡ (false, q)
  unfolding Queue.put
  run_put_full capacity q x h = ground arith

  -- No sequence of calls tells a ring of `capacity + 1` places, at least two, from the queue of at
  -- most `capacity` items that it holds: every reply is the same.
  pub run_refines :
      (capacity : ℕ) (calls : List (Call T)) (r : RingBuffer T) (q : List T)
      → 0 < capacity
      → r.buffer_size ≡ capacity + 1
      → Represents r q
      → run r calls ≡ Queue.run capacity q calls
  unfolding run Queue.run
  run_refines capacity [] r q h e v = refl
  run_refines capacity (puts x ∷ calls) r q h e v = elim (dec_lt (length q) capacity) [
    | yes p ↦
        let (done, w) = put-Represents r q x v (omega arith) in
        rw (run_put_ok capacity q x p, done)
          (ap (λ l. stored true ∷ l)
            (run_refines capacity calls (put r x).1 (q ++ (x ∷ [])) h (buffer_size-put r x ∙ e) w))
    | no p ↦
        rw (run_put_full capacity q x (omega arith), put-full r q x v (omega (arith, v.room)))
          (ap (λ l. stored false ∷ l) (run_refines capacity calls r q h e v))
  ]
  run_refines capacity (gets ∷ calls) r [] h e v =
      rw (get-empty r v)
        (unfold Queue.get in ap (λ l. fetched none ∷ l) (run_refines capacity calls r [] h e v))
  run_refines capacity (gets ∷ calls) r (x ∷ q) h e v =
      let (out, w) = get-Represents r x q v in
      rw out (
        ap (λ l. fetched (some x) ∷ l)
          (run_refines capacity calls (get r).1 q h (buffer_size-get r ∙ e) w))
  run_refines capacity (clears ∷ calls) r q h e v =
      ap (λ l. cleared ∷ l)
        (run_refines capacity calls (clear r) [] h ((unfold clear in refl) ∙ e)
          (clear-Represents r q (omega arith) v))

-- ===== src/FiFo/Refine.antt =====
-- The buffer behaves as the bounded queue of what it holds: a ring of RingBuffer.h keeps its items in
-- the same places.
use mathlib.Core.Path.{subst}
use k_panic.Base.{
  ℕ, ◌+◌, ◌-◌, ◌/◌, ◌%◌, ◌≤◌, ◌<◌, ◌==◌, ◌≡◌, refl, ◌∙◌, true, false, Option, none, some, List, [],
  ◌∷◌, ◌++◌, length, drop, arith, if◌then◌else◌, dec_lt, Bool-cases, inl, inr, get_elem?,
}
use k_panic.RingBuffer.{RingBuffer, get, put}
use k_panic.RingBuffer.Refine.{full_iff, empty_iff, Represents, put-Represents, get-Represents}
use k_panic.FiFo.{
  FiFo, PutResult, must_wait, dropped, stored_in, put_item, get_item, peek_ahead, store_item,
}
use k_panic.FiFo.Queue
use k_panic.FiFo.Queue.{
  Policy, waits, drops_new, drops_old, Call, puts, gets, peeks, clears, Reply, asleep, finished,
  fetched,
}

module _ {ℓ} {T : Type ℓ} where
  -- The ring with the same buffer and the same positions.
  abbrev pub as_ring : FiFo T → RingBuffer T
  as_ring f = record {
    buffer_size = f.input_buffer_size;
    buffer = f.input_buffer;
    write_pos = f.ib_write_pos;
    read_pos = f.ib_read_pos;
    connected_proc_counter = 0;
  }

  -- FIFO_NOBLOCK_PUT and FIFO_NOBLOCK_PUT_OVERWRITE_OLD
  abbrev pub policy : FiFo T → Policy
  policy f =
      if f.flags % 2 == 1 then (if f.flags / 2 % 2 == 1 then drops_old else drops_new) else waits

  -- The buffer after a `put` that does not wait.
  abbrev pub after_put : FiFo T → PutResult T → Option (FiFo T)
  after_put f must_wait = none
  after_put f dropped = some f
  after_put f (stored_in f') = some f'

  abbrev pub skip_oldest : FiFo T → FiFo T
  skip_oldest f = record f { ib_read_pos = (f.ib_read_pos + 1) % f.input_buffer_size }

  is_full :
      (f : FiFo T) (q : List T)
      → Represents (as_ring f) q
      → (f.ib_write_pos == f.ib_read_pos) ≡ (length q + 1 == f.input_buffer_size)
  is_full f q v =
      rw v.write_at (full_iff f.input_buffer_size f.ib_read_pos (length q) v.read_in v.room)

  is_empty :
      (f : FiFo T) (q : List T)
      → Represents (as_ring f) q
      → (f.ib_write_pos == (f.ib_read_pos + 1) % f.input_buffer_size) ≡ (length q == 0)
  is_empty f q v =
      rw v.write_at (empty_iff f.input_buffer_size f.ib_read_pos (length q) v.read_in v.room)

  ring_put :
      (f : FiFo T) (x : T)
      → (f.ib_write_pos == f.ib_read_pos) ≡ false
      → (put (as_ring f) x).1 ≡ as_ring (store_item f x)
  unfolding put
  ring_put f x e = rw e refl

  -- Where a place is free, the item is stored behind the others.
  store-Represents :
      (f : FiFo T) (q : List T) (x : T)
      → Represents (as_ring f) q
      → length q + 1 < f.input_buffer_size
      → Represents (as_ring (store_item f x)) (q ++ x ∷ [])
  store-Represents f q x v h =
      let free : (f.ib_write_pos == f.ib_read_pos) ≡ false = is_full f q v ∙ ground arith in
      let (_, w) = put-Represents (as_ring f) q x v h in
      subst (λ r. Represents r (q ++ x ∷ [])) (ring_put f x free) w

  ring_get :
      (f : FiFo T)
      → (f.ib_write_pos == (f.ib_read_pos + 1) % f.input_buffer_size) ≡ false
      → (get (as_ring f)).1 ≡ as_ring (skip_oldest f)
  unfolding get
  ring_get f e = rw e refl

  -- The oldest item is given up.
  pub skip-Represents :
      (f : FiFo T) (x : T) (q : List T)
      → Represents (as_ring f) (x ∷ q)
      → (get_elem? f.input_buffer ((f.ib_read_pos + 1) % f.input_buffer_size) ≡ some x)
        × Represents (as_ring (skip_oldest f)) q
  skip-Represents f x q v =
      let some_left : (f.ib_write_pos == (f.ib_read_pos + 1) % f.input_buffer_size) ≡ false =
        is_empty f (x ∷ q) v ∙ ground arith in
      let (out, w) = get-Represents (as_ring f) x q v in
      (v.holds.0, subst (λ r. Represents r q) (ring_get f some_left) w)

  -- How `put_item` on a buffer that holds `q` ends.
  pub data PutEnds (f : FiFo T) (q : List T) (x : T) : PutResult T → Type ℓ where
    ends_waiting :
        Queue.put (policy f) (f.input_buffer_size - 1) q x ≡ none → PutEnds f q x must_wait
    ends_dropped :
        Queue.put (policy f) (f.input_buffer_size - 1) q x ≡ some q → PutEnds f q x dropped
    ends_stored :
        (f' : FiFo T) (q' : List T)
        → Queue.put (policy f) (f.input_buffer_size - 1) q x ≡ some q'
        → Represents (as_ring f') q'
        → f'.input_buffer_size ≡ f.input_buffer_size
        → policy f' ≡ policy f
        → PutEnds f q x (stored_in f')

  put_fits :
      (p : Policy) (capacity : ℕ) (q : List T) (x : T)
      → length q < capacity
      → Queue.put p capacity q x ≡ some (q ++ x ∷ [])
  put_fits waits capacity q x h = ground arith
  put_fits drops_new capacity q x h = ground arith
  put_fits drops_old capacity q x h = ground arith

  abbrev when_full : Policy → List T → T → Option (List T)
  when_full waits q x = none
  when_full drops_new q x = some q
  when_full drops_old q x = some (drop 1 q ++ x ∷ [])

  put_over :
      (p : Policy) (capacity : ℕ) (q : List T) (x : T)
      → capacity ≤ length q
      → Queue.put p capacity q x ≡ when_full p q x
  put_over waits capacity q x h = ground arith
  put_over drops_new capacity q x h = ground arith
  put_over drops_old capacity q x h = ground arith

  -- A full buffer that gives up its oldest item has room for one.
  overwrites :
      (f : FiFo T) (q : List T) (x : T)
      → 1 < f.input_buffer_size
      → Represents (as_ring f) q
      → length q + 1 ≡ f.input_buffer_size
      → Represents (as_ring (store_item (skip_oldest f) x)) (drop 1 q ++ x ∷ [])
  overwrites f [] x h v e = absurd (omega (arith, e, h))
  overwrites f (y ∷ q) x h v e =
      store-Represents (skip_oldest f) q x (skip-Represents f y q v).1 (omega (arith, e))

  -- `put_item` on a buffer of at least two places that holds `q` does what the queue does under the
  -- policy of its flags: it waits, drops the item, or stores it, and then holds the new queue.
  pub put_item-PutEnds :
      (f : FiFo T) (q : List T) (x : T)
      → 1 < f.input_buffer_size
      → Represents (as_ring f) q
      → PutEnds f q x (put_item f x)
  unfolding put_item
  put_item-PutEnds f q x h v = elim (dec_lt (length q + 1) f.input_buffer_size) [
    | yes p ↦
        let free : (f.ib_write_pos == f.ib_read_pos) ≡ false = is_full f q v ∙ ground arith in
        let fits = put_fits (policy f) (f.input_buffer_size - 1) q x (omega (arith, p)) in
        rw free
          (ends_stored (store_item f x) (q ++ x ∷ []) fits (store-Represents f q x v p) refl refl)
    | no p ↦
        let last : length q + 1 ≡ f.input_buffer_size =
          let room = v.room in omega (arith, room, p) in
        let full : (f.ib_write_pos == f.ib_read_pos) ≡ true = is_full f q v ∙ ground arith in
        let over = put_over (policy f) (f.input_buffer_size - 1) q x (omega (arith, last)) in
        elim (Bool-cases (f.flags % 2 == 1)) [
          | inr blocks ↦ rw (full, blocks) (ends_waiting (over ∙ (rw blocks refl)))
          | inl never ↦ elim (Bool-cases (f.flags / 2 % 2 == 1)) [
            | inr drops ↦ rw (full, never, drops) (ends_dropped (over ∙ (rw (never, drops) refl)))
            | inl writes_over ↦
                rw (full, never, writes_over)
                  (ends_stored _ _ (over ∙ (rw (never, writes_over) refl))
                    (overwrites f q x h v last) refl refl)
          ]
        ]
  ]

  pub get_item-empty :
      (f : FiFo T) → Represents (as_ring f) [] → (get_item f ≡ none) × (peek_ahead f ≡ none)
  unfolding get_item peek_ahead
  get_item-empty f v =
      let nothing : (f.ib_write_pos == (f.ib_read_pos + 1) % f.input_buffer_size) ≡ true =
        is_empty f [] v ∙ ground arith in
      (rw nothing refl, rw nothing refl)

  pub get_item-next :
      (f : FiFo T) (x : T) (q : List T)
      → Represents (as_ring f) (x ∷ q)
      → (get_item f ≡ some (some x, skip_oldest f)) × (peek_ahead f ≡ some x)
  unfolding get_item peek_ahead
  get_item-next f x q v =
      let some_left : (f.ib_write_pos == (f.ib_read_pos + 1) % f.input_buffer_size) ≡ false =
        is_empty f (x ∷ q) v ∙ ground arith in
      let first = (skip-Represents f x q v).0 in
      (rw (some_left, first) refl, rw (some_left, first) refl)
